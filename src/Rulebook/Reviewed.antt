-- ===== src/Rulebook/Reviewed.antt =====
-- What a version passed on its way to REVIEW, and who may approve it then.
use fielded_online.Common.{
  ℕ, ◌≡◌, refl, inl, inr, Bool, true, false, not, List, [], ◌∷◌, map, Option, none, some, All, ltb,
  same, Bool-cases, is_in, arith,
}
use fielded_online.Common.Outcome.{ok, not_found}
use fielded_online.Common.Check.{>>=-eq-ok, refuse-eq-ok, found_or-eq-ok}
use fielded_online.Status.Versions.{
  BrainVersionStatus, version_status_enum, version_transitions, review, approved,
  BusinessMemberRole, owner,
}
use fielded_online.Brain.Values.{Text, Value}
use fielded_online.Rulebook.Validation.{
  ErrorCode, Numbers, validate_rule_data, validate_brain_version_config,
  validate_brain_version_full, rules_errors, rule_errors, both,
}
use fielded_online.Rulebook.Approval.{
  role_level, is_sensitive, required_role, check_approval, default_approval_policy,
}
use fielded_online.Rulebook.Rows.{Tables, Version, StoredRule, version_row, version_rules}
use fielded_online.Rulebook.Service.{
  check_transition, check_approve, validate_structure, check_errors, no_errors, config_of,
  typed_data, is_approved,
}

abbrev is_clean : Option (List ErrorCode) → Bool
is_clean none = false
is_clean (some errors) = no_errors errors

check_errors-is_clean :
    (found : Option (List ErrorCode)) (u : Unit {0})
    → check_errors found ≡ ok u
    → is_clean found ≡ true
check_errors-is_clean none u h = cc
check_errors-is_clean (some []) u h = refl
check_errors-is_clean (some (e ∷ es)) u h = cc

both-is_clean :
    (a b : Option (List ErrorCode))
    → is_clean (both a b) ≡ true
    → (a ≡ some []) × (is_clean b ≡ true)
both-is_clean none b h = cc
both-is_clean (some []) none h = cc
both-is_clean (some []) (some es) h = (refl, h)
both-is_clean (some (e ∷ es)) none h = cc
both-is_clean (some (e ∷ es)) (some fs) h = cc

module _ (numbers : Numbers) where
  abbrev pub IsValidRule : StoredRule → Type 0
  IsValidRule r = validate_rule_data numbers r.rule_type r.rule_data none ≡ some []

  rule_errors-valid :
      (t : Text) (v : Value)
      → rule_errors numbers t v ≡ some []
      → validate_rule_data numbers t v none ≡ some []
  rule_errors-valid [] v h = cc
  rule_errors-valid (c ∷ t) v h = h

  rules_errors-valid :
      (rules : List StoredRule)
      → is_clean (rules_errors numbers (typed_data rules)) ≡ true
      → All IsValidRule rules
  unfolding rules_errors
  rules_errors-valid [] h = tt
  rules_errors-valid (r ∷ rules) h =
      let (one, rest) =
        both-is_clean (rule_errors numbers r.rule_type r.rule_data)
          (rules_errors numbers (typed_data rules)) h in
      (rule_errors-valid r.rule_type r.rule_data one, rules_errors-valid rules rest)

  full-valid :
      (config : Value) (rules : List StoredRule)
      → is_clean (validate_brain_version_full numbers config (typed_data rules)) ≡ true
      → (validate_brain_version_config numbers config ≡ []) × All IsValidRule rules
  unfolding validate_brain_version_full
  full-valid config rules h =
      let (clean, rest) =
        both-is_clean (some (validate_brain_version_config numbers config))
          (rules_errors numbers (typed_data rules)) h in
      (cc clean, rules_errors-valid rules rest)

  -- A version passes the checks of a transition to REVIEW only if it exists, its status allows REVIEW,
  -- its configuration has no error, and each of its rules passes the validation of its type without one;
  -- what is then written is the version with the status REVIEW.
  pub check_transition-review :
      (j : ℕ) (w : Version) (s : Tables)
      → check_transition numbers j review s ≡ ok w
      → (x : Version) × (version_row j s.versions ≡ some x)
        × (is_in review (version_transitions x.status) ≡ true)
        × (validate_brain_version_config numbers (config_of x) ≡ [])
        × All IsValidRule (version_rules x.id s.rules)
        × (record x { status = review } ≡ w)
  unfolding check_transition
  check_transition-review j w s h =
      let (x, f, h₁) = found_or-eq-ok (version_row j s.versions) not_found _ w h in
      let (allowed, h₂) =
        refuse-eq-ok (not (is_in review (version_transitions x.status))) _ _ w h₁ in
      let (u, passed, h₃) =
        >>=-eq-ok (validate_structure numbers review x s) (λ _. ok (record x { status = review })) w
          h₂ in
      let clean =
        check_errors-is_clean
          (validate_brain_version_full numbers (config_of x)
            (typed_data (version_rules x.id s.rules)))
          u passed in
      let (config, rules) = full-valid (config_of x) (version_rules x.id s.rules) clean in
      (x, f, ground arith, config, rules, cc)

default-required : (types : List Text) → required_role default_approval_policy types ≡ owner
default-required types = elim (Bool-cases (is_sensitive default_approval_policy types)) [
  | inl hit ↦ rw (hit, required_role) refl
  | inr miss ↦ rw (miss, required_role) refl
]

-- An owner alone reaches the level that the default policy asks for.
owner_level :
    (role required : BusinessMemberRole)
    → required ≡ owner
    → ltb (role_level role) (role_level required) ≡ false
    → role ≡ owner
owner_level role required e h = ground arith

default-approved :
    (role : BusinessMemberRole) (is_author : Bool) (types : List Text)
    → is_approved (check_approval default_approval_policy role is_author types 0) ≡ true
    → role ≡ owner
unfolding check_approval
default-approved role is_author types h =
    owner_level role (required_role default_approval_policy types) (default-required types)
      (ground arith)

is_review : (t : BrainVersionStatus) → same t review ≡ true → t ≡ review
is_review t h = ground arith

-- The approval of a version passes its checks only if the version exists and is in REVIEW and the
-- approver is an owner; what is then written is the version with the status APPROVED.
pub check_approve-owner :
    (j : ℕ) (role : BusinessMemberRole) (is_author : Bool) (w : Version) (s : Tables)
    → check_approve j role is_author s ≡ ok w
    → (x : Version) × (version_row j s.versions ≡ some x)
      × (x.status ≡ review)
      × (role ≡ owner)
      × (record x { status = approved } ≡ w)
unfolding check_approve
check_approve-owner j role is_author w s h =
    let (x, f, h₁) = found_or-eq-ok (version_row j s.versions) not_found _ w h in
    let (in_review, h₂) = refuse-eq-ok (not (same x.status review)) _ _ w h₁ in
    let types = map (λ r. r.rule_type) (version_rules j s.rules) in
    let decision = check_approval default_approval_policy role is_author types 0 in
    let (granted, h₃) = refuse-eq-ok (not (is_approved decision)) _ _ w h₂ in
    let is_owner = default-approved role is_author types (ground arith) in
    let status_review : x.status ≡ review = is_review x.status (ground arith) in
    (x, f, status_review, is_owner, cc)
