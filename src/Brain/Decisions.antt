-- ===== src/Brain/Decisions.antt =====
-- Which transactions the rules of a business allow.
use fielded_online.Common.{
  ℕ, ◌≡◌, refl, sym, ◌∙◌, ◌⊎◌, ◌↔◌, true, false, List, [], ◌∷◌, Option, none, some, All, any,
  if◌then◌else◌, arith,
}
use fielded_online.Brain.Values.{Text, Value, Python}
use fielded_online.Brain.Conditions.{get_required_fields, evaluate_conditions}
use fielded_online.Brain.Evaluator.{
  BrainDecisionOutcome, allow, deny, require_approval, escalate, needs_information, Outcome, allows,
  notifies, adjusts, informs, unlisted, Rule, RuleData, MatchedRule, Verdict, extract_outcome,
  collect, evaluate_rule, evaluate_rules, is_deny, is_escalate, is_approval, is_empty, distinct,
  build_decision, detect_conflicts, evaluate,
}
use fielded_online.Brain.Conflicts.{clash, clashes, detect_conflicts-clashes}

-- The decision, as a function of the matched rules and of the missing information.
abbrev pub decided : List MatchedRule → List Text → BrainDecisionOutcome
decided ms missing =
    if clashes ms
    then escalate
    else if any is_deny ms
    then deny
    else if any is_escalate ms
    then escalate
    else if any is_approval ms
    then require_approval
    else if is_empty missing
    then allow
    else needs_information

distinct-is_empty : (ts : List Text) → is_empty (distinct ts) ≡ is_empty ts
unfolding distinct
distinct-is_empty [] = refl
distinct-is_empty (t ∷ []) = refl
distinct-is_empty (t ∷ u ∷ ts) = ground (arith, distinct-is_empty (u ∷ ts))

build_decision-decided :
    (version : ℕ) (ms : List MatchedRule) (missing : List Text)
    → (build_decision version ms (detect_conflicts ms) missing).decision ≡ decided ms missing
unfolding build_decision
build_decision-decided version ms missing =
    ground (arith, detect_conflicts-clashes ms, distinct-is_empty missing)

pub evaluate-decided :
    (py : Python) (version : ℕ) (rules : List Rule) (context_data : Value)
    → (evaluate py version rules context_data).decision
      ≡ decided (evaluate_rules py context_data rules).0 (evaluate_rules py context_data rules).1
unfolding evaluate
evaluate-decided py version rules context_data = build_decision-decided version _ _

-- An outcome that restricts nothing.
abbrev pub IsPermissive : Outcome → Type 0
IsPermissive o = (o ≡ allows) ⊎ (o ≡ notifies) ⊎ (o ≡ adjusts) ⊎ (o ≡ informs) ⊎ (o ≡ unlisted)

abbrev AllPermissive : List MatchedRule → Type 0
AllPermissive = All (λ m. IsPermissive m.outcome)

AllPermissive-any :
    (ms : List MatchedRule)
    → AllPermissive ms
    → (any is_deny ms ≡ false) × (any is_escalate ms ≡ false) × (any is_approval ms ≡ false)
AllPermissive-any [] h = (refl, refl, refl)
AllPermissive-any (m ∷ ms) (h, hs) = ground (arith, AllPermissive-any ms hs)

any-AllPermissive :
    (ms : List MatchedRule)
    → any is_deny ms ≡ false
    → any is_escalate ms ≡ false
    → any is_approval ms ≡ false
    → AllPermissive ms
any-AllPermissive [] d e r = tt
any-AllPermissive (m ∷ ms) d e r =
    (ground arith, any-AllPermissive ms (ground arith) (ground arith) (ground arith))

AllPermissive-clash :
    (m : MatchedRule) (ms : List MatchedRule)
    → IsPermissive m.outcome
    → AllPermissive ms
    → any (clash m) ms ≡ false
AllPermissive-clash m [] p h = refl
AllPermissive-clash m (n ∷ ms) p (h, hs) = ground (arith, AllPermissive-clash m ms p hs)

AllPermissive-clashes : (ms : List MatchedRule) → AllPermissive ms → clashes ms ≡ false
unfolding clashes
AllPermissive-clashes [] h = refl
AllPermissive-clashes (m ∷ ms) (h, hs) =
    ground (arith, AllPermissive-clash m ms h hs, AllPermissive-clashes ms hs)

is_empty-nil : {A : Type 0} (xs : List A) → is_empty xs ≡ true → xs ≡ []
is_empty-nil [] h = refl
is_empty-nil (x ∷ xs) h = cc

decided-allow_iff :
    (ms : List MatchedRule) (missing : List Text)
    → (decided ms missing ≡ allow) ↔ (AllPermissive ms × (missing ≡ []))
decided-allow_iff ms missing = (forward, backward)
  where
    forward : decided ms missing ≡ allow → AllPermissive ms × (missing ≡ [])
    forward h = (
      any-AllPermissive ms (ground arith) (ground arith) (ground arith),
      is_empty-nil missing (ground arith),
    )

    backward : AllPermissive ms × (missing ≡ []) → decided ms missing ≡ allow
    backward (h, e) = ground (arith, AllPermissive-any ms h, AllPermissive-clashes ms h)

-- What a verdict adds restricts nothing.
abbrev IsPassing : Verdict → Type 0
IsPassing Verdict.passed = Unit
IsPassing (Verdict.lacks missing) = missing ≡ []
IsPassing (Verdict.matches m) = IsPermissive m.outcome

-- What was collected restricts nothing.
abbrev IsFree : List MatchedRule × List Text → Type 0
IsFree (ms, missing) = AllPermissive ms × (missing ≡ [])

collect-IsFree :
    (v : Verdict) (rest : List MatchedRule × List Text)
    → IsFree (collect v rest) ↔ (IsPassing v × IsFree rest)
collect-IsFree Verdict.passed rest = ground arith
collect-IsFree (Verdict.lacks []) rest = ground arith
collect-IsFree (Verdict.lacks (t ∷ missing)) rest = (λ h. absurd (cc (h.1)), λ h. absurd (cc (h.0)))
collect-IsFree (Verdict.matches m) rest = ground arith

module _ (py : Python) (context_data : Value) where
  -- The data of a rule lets the transaction pass: no path that it names is missing, and its conditions
  -- are not met, or cannot be evaluated, or its outcome restricts nothing.
  abbrev pub PermitsData : Option RuleData → Type 0
  PermitsData none = Unit
  PermitsData (some d) =
      (get_required_fields d.conditions context_data ≡ [])
      × ((evaluate_conditions py context_data d.conditions ≡ some false)
          ⊎ (evaluate_conditions py context_data d.conditions ≡ none)
          ⊎ IsPermissive (extract_outcome d.actions))

  abbrev pub Permits : Rule → Type 0
  Permits rule = (rule.is_active ≡ false) ⊎ PermitsData rule.rule_data

  evaluate_rule-Permits :
      (rule : Rule) → IsPassing (evaluate_rule py context_data rule) ↔ Permits rule
  unfolding evaluate_rule
  evaluate_rule-Permits rule = ground arith

  evaluate_rules-Permits :
      (rules : List Rule) → IsFree (evaluate_rules py context_data rules) ↔ All Permits rules
  unfolding evaluate_rules
  evaluate_rules-Permits [] = (λ h. tt, λ h. (tt, refl))
  evaluate_rules-Permits (rule ∷ rules) =
      let (from, to) =
        collect-IsFree (evaluate_rule py context_data rule)
          (evaluate_rules py context_data rules) in
      let (first, first') = evaluate_rule-Permits rule in
      let (rest, rest') = evaluate_rules-Permits rules in
      (λ h. let (p, f) = from h in (first p, rest f), λ (p, ps). to (first' p, rest' ps))

  -- The decision on a transaction is ALLOW exactly when each rule of the version is inactive, has data
  -- that cannot be read, or lets the transaction pass: every path that its conditions name has a value,
  -- and the conditions are not met, or cannot be evaluated, or the outcome of its actions is absent,
  -- "allow", "notify", "adjust" or "info", or a text that is none of the known outcomes. Outcomes that
  -- are no texts are not considered.
  pub evaluate-allow_iff :
      (version : ℕ) (rules : List Rule)
      → ((evaluate py version rules context_data).decision ≡ allow) ↔ All Permits rules
  evaluate-allow_iff version rules =
      let (from, to) =
        decided-allow_iff (evaluate_rules py context_data rules).0
          (evaluate_rules py context_data rules).1 in
      let (rest, rest') = evaluate_rules-Permits rules in
      let e = evaluate-decided py version rules context_data in
      (λ h. rest (from (sym e ∙ h)), λ ps. e ∙ to (rest' ps))
