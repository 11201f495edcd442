-- ===== src/Tests/Brains.antt =====
-- Decisions of a business's rules at concrete inputs.
use mathlib.Core.List.{Permᴰ}
use fielded_online.Common.{
  ℕ, ◌≡◌, refl, ◌↔◌, Bool, true, false, List, [], ◌∷◌, All, none, some, ltb, leb, ◌==◌,
}
use fielded_online.Brain.Values.{
  Text, Value, Python, Conversion, number, text, object, field, end, same_text, contains, get_value,
}
use fielded_online.Brain.Conditions.{
  Condition, Operator, get_required_fields, evaluate_conditions, evaluate_single, apply_operator,
  apply_to,
}
use fielded_online.Brain.Evaluator.{
  BrainDecisionOutcome, Outcome, Rule, build_decision, evaluate, evaluate_rule, insert_by_type,
  conflicts_within, extract_outcome, distinct,
}
use fielded_online.Brain.Decisions.{Permits, evaluate-allow_iff}
use fielded_online.Brain.Order.{evaluate-Permᴰ}

abbrev float_of : Value → Conversion ℕ
float_of (number n) = Conversion.converted n
float_of _ = Conversion.refused

abbrev eq_of : Value → Value → Bool
eq_of (number n) (number m) = n == m
eq_of (text s) (text t) = same_text s t
eq_of _ _ = false

abbrev str_of : Value → Text
str_of (text t) = t
str_of _ = []

abbrev pub py : Python
py = record {
  Float = ℕ;
  float = float_of;
  float_zero = 0;
  float_lt = ltb;
  float_le = leb;
  eq = eq_of;
  str = str_of;
  search = λ p t. some (contains t p);
}

-- {"a": {"b": 7}, "c": "hi"}
abbrev context_data : Value
context_data = object (
    field (97 ∷ []) (object (field (98 ∷ []) (number 7) end))
      (field (99 ∷ []) (text (104 ∷ 105 ∷ [])) end))

-- a.b > n
abbrev above : ℕ → Condition
above n = record { path = 97 ∷ 46 ∷ 98 ∷ []; operator = Operator.greater_than; expected = number n }

abbrev rule : ℕ → List Condition → Outcome → Rule
rule i conditions outcome = record {
  id = i;
  rule_type = 1;
  is_active = true;
  priority = 0;
  rule_data = some (record {
    conditions = conditions;
    actions = record { outcome = some outcome; approver_role = none } ∷ [];
  });
}

-- The second rule's condition is not met, the first allows.
abbrev lenient : List Rule
lenient = rule 1 (above 5 ∷ []) Outcome.allows ∷ rule 2 (above 9 ∷ []) Outcome.denies ∷ []

evaluate-allow_iff_example :
    ((evaluate py 1 lenient context_data).decision ≡ BrainDecisionOutcome.allow)
    ↔ All (Permits py context_data) lenient
evaluate-allow_iff_example = evaluate-allow_iff py context_data 1 lenient

lenient-allows : (evaluate py 1 lenient context_data).decision ≡ BrainDecisionOutcome.allow
unfolding evaluate build_decision evaluate_rule get_required_fields get_value evaluate_conditions
    evaluate_single apply_operator apply_to insert_by_type conflicts_within extract_outcome distinct
lenient-allows = refl

-- Both conditions are met: one rule allows, one of the same type denies.
abbrev contradictory : List Rule
contradictory = rule 1 (above 5 ∷ []) Outcome.allows ∷ rule 2 (above 6 ∷ []) Outcome.denies ∷ []

contradictory-escalates :
    (evaluate py 1 contradictory context_data).decision ≡ BrainDecisionOutcome.escalate
unfolding evaluate build_decision evaluate_rule get_required_fields get_value evaluate_conditions
    evaluate_single apply_operator apply_to insert_by_type conflicts_within extract_outcome distinct
contradictory-escalates = refl

evaluate-Permᴰ_example :
    (evaluate py 1 contradictory context_data).decision
    ≡ (evaluate py 1
        (rule 2 (above 6 ∷ []) Outcome.denies ∷ rule 1 (above 5 ∷ []) Outcome.allows ∷ [])
        context_data).decision
evaluate-Permᴰ_example = evaluate-Permᴰ py context_data 1 (Permᴰ.swap refl refl)
