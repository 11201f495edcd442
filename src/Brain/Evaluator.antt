-- ===== src/Brain/Evaluator.antt =====
-- BrainEvaluator: the rules of an active brain version are matched against the context, conflicts are
-- looked for, and the most restrictive outcome decides.
use fielded_online.Common.{
  ℕ, Bool, true, false, not, List, [], ◌∷◌, ◌++◌, map, Option, none, some, ◌==◌, select, any,
  if◌then◌else◌,
}
use fielded_online.Brain.Values.{Text, Value, Python, same_text}
use fielded_online.Brain.Conditions.{Condition, get_required_fields, evaluate_conditions}

pub data BrainDecisionOutcome : Type 0 where
  allow deny require_approval escalate needs_information failed : BrainDecisionOutcome

-- ActionOutcome of registry.py; `unlisted` is any other text. An outcome that is no text is left out:
-- the validation that a version passes before REVIEW refuses it, and the rules of a version cannot be
-- changed from then on.
pub data Outcome : Type 0 where
  allows denies requires_approval escalates notifies adjusts informs unlisted : Outcome

-- An absent or empty outcome or role is `none`.
pub record RuleAction : Type 0 where
  pub outcome : Option Outcome
  pub approver_role : Option Text

-- A row of the business's rules. `rule_data` is `none` where reading it raises.
pub record RuleData : Type 0 where
  pub conditions : List Condition
  pub actions : List RuleAction

pub record Rule : Type 0 where
  pub id : ℕ
  pub rule_type : ℕ
  pub is_active : Bool
  pub priority : ℕ
  pub rule_data : Option RuleData

pub record MatchedRule : Type 0 where
  pub rule_id : ℕ
  pub rule_type : ℕ
  pub priority : ℕ
  pub outcome : Outcome
  pub actions : List RuleAction

pub record RuleConflict : Type 0 where
  pub rule_a_id : ℕ
  pub rule_b_id : ℕ
  pub rule_a_outcome : Outcome
  pub rule_b_outcome : Outcome

-- `required_approval` is the role that has to approve.
pub record BrainDecision : Type 0 where
  pub decision : BrainDecisionOutcome
  pub brain_version_id : Option ℕ
  pub matched_rules : List MatchedRule
  pub conflicts : List RuleConflict
  pub required_information : List Text
  pub required_approval : Option Text
  pub actions : List RuleAction

-- _extract_outcome
unfoldable pub extract_outcome : List RuleAction → Outcome
extract_outcome [] = allows
extract_outcome (action ∷ rest) = elim action.outcome [
  | some outcome ↦ outcome
  | none ↦ extract_outcome rest
]

abbrev pub matched_rule : Rule → RuleData → MatchedRule
matched_rule rule d = record {
  rule_id = rule.id;
  rule_type = rule.rule_type;
  priority = rule.priority;
  outcome = extract_outcome d.actions;
  actions = d.actions;
}

-- What a rule comes to: passed over, or its condition is not met, or it failed with an exception; it
-- lacks information; or it matches.
pub data Verdict : Type 0 where
  passed : Verdict
  lacks : List Text → Verdict
  matches : MatchedRule → Verdict

abbrev pub verdict_of : Rule → RuleData → List Text → Option Bool → Verdict
verdict_of rule d (t ∷ missing) holds = lacks (t ∷ missing)
verdict_of rule d [] (some true) = matches (matched_rule rule d)
verdict_of rule d [] (some false) = passed
verdict_of rule d [] none = passed

abbrev pub collect : Verdict → List MatchedRule × List Text → List MatchedRule × List Text
collect passed rest = rest
collect (lacks missing) rest = (rest.0, missing ++ rest.1)
collect (matches m) rest = (m ∷ rest.0, rest.1)

module _ (py : Python) (context_data : Value) where
  abbrev pub verdict_of_data : Rule → Option RuleData → Verdict
  verdict_of_data rule none = passed
  verdict_of_data rule (some d) =
      verdict_of rule d (get_required_fields d.conditions context_data)
        (evaluate_conditions py context_data d.conditions)

  -- The body of the loop over the rules.
  unfoldable pub evaluate_rule : Rule → Verdict
  evaluate_rule rule = if rule.is_active then verdict_of_data rule rule.rule_data else passed

  -- The loop: the matched rules and the missing information, in the order of the rules.
  unfoldable pub evaluate_rules : List Rule → List MatchedRule × List Text
  evaluate_rules [] = ([], [])
  evaluate_rules (rule ∷ rules) = collect (evaluate_rule rule) (evaluate_rules rules)

-- _outcomes_conflict: {allow, deny} or {allow, escalate}
abbrev pub opposes : Outcome → Bool
opposes allows = false
opposes denies = true
opposes requires_approval = false
opposes escalates = true
opposes notifies = false
opposes adjusts = false
opposes informs = false
opposes unlisted = false

abbrev pub same_allow : Outcome → Bool
same_allow o = elim o [ allows ↦ true | _ ↦ false ]

abbrev pub outcomes_conflict : Outcome → Outcome → Bool
outcomes_conflict allows b = opposes b
outcomes_conflict denies b = same_allow b
outcomes_conflict escalates b = same_allow b
outcomes_conflict requires_approval b = false
outcomes_conflict notifies b = false
outcomes_conflict adjusts b = false
outcomes_conflict informs b = false
outcomes_conflict unlisted b = false

abbrev pub rule_conflict : MatchedRule → MatchedRule → RuleConflict
rule_conflict a b = record {
  rule_a_id = a.rule_id;
  rule_b_id = b.rule_id;
  rule_a_outcome = a.outcome;
  rule_b_outcome = b.outcome;
}

-- by_type.setdefault(m.rule_type, []).append(m)
unfoldable pub insert_by_type :
    MatchedRule → List (ℕ × List MatchedRule) → List (ℕ × List MatchedRule)
insert_by_type m [] = (m.rule_type, m ∷ []) ∷ []
insert_by_type m ((t, rules) ∷ groups) =
    if t == m.rule_type
    then (t, rules ++ (m ∷ [])) ∷ groups
    else (t, rules) ∷ insert_by_type m groups

unfoldable pub group_by_type :
    List MatchedRule → List (ℕ × List MatchedRule) → List (ℕ × List MatchedRule)
group_by_type [] groups = groups
group_by_type (m ∷ ms) groups = group_by_type ms (insert_by_type m groups)

-- The pairs of a group, each rule with the later ones. A group of one has none.
unfoldable pub conflicts_within : List MatchedRule → List RuleConflict
conflicts_within [] = []
conflicts_within (a ∷ rules) =
    map (rule_conflict a) (select (λ b. outcomes_conflict a.outcome b.outcome) rules)
    ++ conflicts_within rules

unfoldable pub conflicts_of : List (ℕ × List MatchedRule) → List RuleConflict
conflicts_of [] = []
conflicts_of ((t, rules) ∷ groups) = conflicts_within rules ++ conflicts_of groups

-- _detect_conflicts
unfoldable pub detect_conflicts : List MatchedRule → List RuleConflict
unfolding conflicts_of group_by_type
detect_conflicts matched = conflicts_of (group_by_type matched [])

-- m.outcome == "deny" and its like
abbrev pub is_deny : MatchedRule → Bool
is_deny m = elim m.outcome [ denies ↦ true | _ ↦ false ]

abbrev pub is_escalate : MatchedRule → Bool
is_escalate m = elim m.outcome [ escalates ↦ true | _ ↦ false ]

abbrev pub is_approval : MatchedRule → Bool
is_approval m = elim m.outcome [ requires_approval ↦ true | _ ↦ false ]

-- list(set(...)): each path once. The order of a set is not specified; here it is that of the last
-- mentions.
abbrev mentions : Text → List Text → Bool
mentions t ts = any (same_text t) ts

unfoldable pub distinct : List Text → List Text
distinct [] = []
distinct (t ∷ ts) = if mentions t ts then distinct ts else t ∷ distinct ts

abbrev pub all_actions : List MatchedRule → List RuleAction
all_actions [] = []
all_actions (m ∷ ms) = m.actions ++ all_actions ms

-- _resolve_approver_role
abbrev owner : Text
owner = 111 ∷ 119 ∷ 110 ∷ 101 ∷ 114 ∷ []

unfoldable pub resolve_approver_role : List RuleAction → Text
resolve_approver_role [] = owner
resolve_approver_role (action ∷ rest) = elim action.approver_role [
  | some role ↦ role
  | none ↦ resolve_approver_role rest
]

abbrev pub is_empty {ℓ} : {A : Type ℓ} → List A → Bool
is_empty [] = true
is_empty (x ∷ xs) = false

-- What is put into a decision by each branch of _build_decision.
abbrev decide_by :
    BrainDecisionOutcome
    → ℕ
    → List MatchedRule
    → List RuleConflict
    → List Text
    → Option Text
    → List MatchedRule
    → BrainDecision
decide_by outcome version matched conflicts missing role deciding = record {
  decision = outcome;
  brain_version_id = some version;
  matched_rules = matched;
  conflicts = conflicts;
  required_information = distinct missing;
  required_approval = role;
  actions = all_actions deciding;
}

-- _build_decision
unfoldable pub build_decision : ℕ → List MatchedRule → List RuleConflict → List Text → BrainDecision
build_decision version matched conflicts missing =
    if not (is_empty conflicts)
    then decide_by escalate version matched conflicts missing none []
    else if any is_deny matched
    then decide_by deny version matched [] missing none (select is_deny matched)
    else if any is_escalate matched
    then decide_by escalate version matched [] missing none (select is_escalate matched)
    else if any is_approval matched
    then decide_by require_approval version matched [] missing
        (some (resolve_approver_role (all_actions (select is_approval matched))))
        (select is_approval matched)
    else if not (is_empty (distinct missing))
    then decide_by needs_information version matched [] missing none []
    else decide_by allow version matched [] [] none matched

-- BrainEvaluator.evaluate
unfoldable pub evaluate : Python → ℕ → List Rule → Value → BrainDecision
unfolding evaluate_rules build_decision detect_conflicts
evaluate py version rules context_data =
    let (matched, missing) = evaluate_rules py context_data rules in
    build_decision version matched (detect_conflicts matched) missing
