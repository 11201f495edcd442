-- ===== src/Rulebook/Checked.antt =====
-- What the checks of a request found, when they passed.
use fielded_online.Common.{
  ℕ, ◌≡◌, refl, sym, ap, Bool, true, false, not, Option, some, map, [], ◌∷◌, find, same, is_in,
  ◌==◌, arith,
}
use fielded_online.Common.Outcome.{Result, ok, not_found, domain_error}
use mathlib.Core.Path.{subst}
use fielded_online.Common.Check.{
  refuse, found_or, ◌>>=◌, ◌>>◌, >>-eq-ok, >>=-eq-ok, refuse-eq-ok, found_or-eq-ok,
}
use fielded_online.Status.Versions.{
  BrainVersionStatus, version_status_enum, version_transitions, draft, validating, review, approved,
  active, superseded, BusinessMemberRole,
}
use fielded_online.Brain.Values.{Text, Fields, object}
use fielded_online.Rulebook.Validation.{Numbers, validate_brain_version_config}
use fielded_online.Rulebook.Approval.{check_approval, default_approval_policy}
use fielded_online.Rulebook.Rows.{
  Tables, Version, StoredRule, Brain, is_rule, version_row, version_rules, get_active,
}
use fielded_online.Rulebook.Service.{
  updated_config, validate_structure, check_transition, check_config, check_approve, check_activate,
  no_errors, is_approved,
}
use fielded_online.Rulebook.RuleService.{
  Updates, updated_rule, check_rule, check_update, check_delete, check_data, check_new_data,
  new_rule,
}

abbrev pub is_sealed : BrainVersionStatus → Bool
is_sealed draft = false
is_sealed validating = false
is_sealed review = false
is_sealed approved = true
is_sealed active = true
is_sealed superseded = true

-- No transition leads from a sealed status to one that is not.
pub version_transitions-sealed :
    (a b : BrainVersionStatus)
    → is_sealed a ≡ true
    → is_in b (version_transitions a) ≡ true
    → is_sealed b ≡ true
version_transitions-sealed a b h e = ground arith

pub draft_is_open :
    (a b : BrainVersionStatus) → is_sealed b ≡ false → same a b ≡ true → is_sealed a ≡ false
draft_is_open a b h e = ground arith

-- A version that was loaded, and that is not sealed.
pub record IsOpen (j : ℕ) (s : Tables) : Type 0 where
  pub row : Version
  pub found : version_row j s.versions ≡ some row
  pub is_open : is_sealed row.status ≡ false

abbrev pub find_rule : ℕ → Tables → Option StoredRule
find_rule i s = find (is_rule i) s.rules

module _ (s : Tables) where
  -- A version that is loaded and passes `_ensure_mutable` is open.
  mutable-IsOpen :
      {B : Type 0} (j : ℕ) (k : Version → Result B) (b : B)
      → (found_or (version_row j s.versions) not_found >>= λ x.
          (refuse (not (same x.status draft)) domain_error >> k x))
        ≡ ok b
      → (x : IsOpen j s) × (k x.row ≡ ok b)
  mutable-IsOpen j k b h =
      let (x, f, h₁) = found_or-eq-ok (version_row j s.versions) not_found _ b h in
      let (open_row, h₂) = refuse-eq-ok (not (same x.status draft)) _ _ b h₁ in
      (
        record { row = x; found = f; is_open = draft_is_open x.status draft refl (ground arith) },
        h₂,
      )

  pub check_delete-eq-ok :
      (i : ℕ) (r : StoredRule)
      → check_delete i s ≡ ok r
      → (x : StoredRule) × (find_rule i s ≡ some x)
        × IsOpen x.brain_version_id s
        × (record x { is_deleted = true } ≡ r)
  unfolding check_delete
  check_delete-eq-ok i r h =
      let (x, f, h₁) = found_or-eq-ok (find_rule i s) not_found _ r h in
      let (v, h₂) = mutable-IsOpen x.brain_version_id _ r h₁ in (x, f, v, cc)

module _ (numbers : Numbers) (s : Tables) where
  pub check_transition-eq-ok :
      (j : ℕ) (target : BrainVersionStatus) (w : Version)
      → check_transition numbers j target s ≡ ok w
      → (x : Version) × (version_row j s.versions ≡ some x)
        × (is_in target (version_transitions x.status) ≡ true)
        × (record x { status = target } ≡ w)
  unfolding check_transition
  check_transition-eq-ok j target w h =
      let (x, f, h₁) = found_or-eq-ok (version_row j s.versions) not_found _ w h in
      let (allowed, h₂) =
        refuse-eq-ok (not (is_in target (version_transitions x.status))) _ _ w h₁ in
      let h₃ =
        >>-eq-ok (validate_structure numbers target x s) (ok (record x { status = target })) w h₂ in
      (x, f, ground arith, cc)

  pub check_config-eq-ok :
      (j : ℕ) (config : Fields) (w : Version)
      → check_config numbers j config s ≡ ok w
      → (x : IsOpen j s) × (updated_config config x.row ≡ w)
  unfolding check_config
  check_config-eq-ok j config w h =
      let (x, h₁) = mutable-IsOpen s j _ w h in
      let (valid, h₂) =
        refuse-eq-ok (not (no_errors (validate_brain_version_config numbers (object config)))) _ _ w
          h₁ in
      (x, cc)

  pub check_rule-eq-ok :
      (j : ℕ) (rule_type name : Text) (fields : Fields) (priority : ℕ) (r : StoredRule)
      → check_rule numbers j rule_type name fields priority s ≡ ok r
      → IsOpen j s × (r.brain_version_id ≡ j)
  unfolding check_rule
  check_rule-eq-ok j rule_type name fields priority r h =
      let (x, h₁) = mutable-IsOpen s j _ r h in
      let h₂ =
        >>-eq-ok (check_data numbers rule_type fields)
          (ok (new_rule j rule_type name fields priority s)) r h₁ in
      let e : new_rule j rule_type name fields priority s ≡ r = cc in
      (x, ap (λ r. r.brain_version_id) (sym e))

  pub check_update-eq-ok :
      (i : ℕ) (u : Updates) (r : StoredRule)
      → check_update numbers i u s ≡ ok r
      → (x : StoredRule) × (find_rule i s ≡ some x)
        × IsOpen x.brain_version_id s
        × (updated_rule u x ≡ r)
  unfolding check_update
  check_update-eq-ok i u r h =
      let (x, f, h₁) = found_or-eq-ok (find_rule i s) not_found _ r h in
      let (v, h₂) = mutable-IsOpen s x.brain_version_id _ r h₁ in
      let h₃ =
        >>-eq-ok (check_new_data numbers x.rule_type u.rule_data) (ok (updated_rule u x)) r h₂ in
      (x, f, v, cc)

  pub check_approve-eq-ok :
      (j : ℕ) (role : BusinessMemberRole) (is_author : Bool) (w : Version)
      → check_approve j role is_author s ≡ ok w
      → (x : IsOpen j s) × (record x.row { status = approved } ≡ w)
  unfolding check_approve
  check_approve-eq-ok j role is_author w h =
      let (x, f, h₁) = found_or-eq-ok (version_row j s.versions) not_found _ w h in
      let (open_row, h₂) = refuse-eq-ok (not (same x.status review)) _ _ w h₁ in
      let rule_types = map (λ r. r.rule_type) (version_rules j s.rules) in
      let decision = check_approval default_approval_policy role is_author rule_types 0 in
      let (granted, h₃) = refuse-eq-ok (not (is_approved decision)) _ _ w h₂ in
      (
        record { row = x; found = f; is_open = draft_is_open x.status review refl (ground arith) },
        cc,
      )

module _ (s : Tables) where
  pub check_activate-eq-ok :
      (business j : ℕ) (a : Brain × Version × Option Version)
      → check_activate business j s ≡ ok a
      → (find (λ b. b.business_id == business) s.brains ≡ some a.0)
        × (version_row j s.versions ≡ some a.1)
        × (is_in a.1.status (approved ∷ active ∷ []) ≡ true)
        × (get_active a.0.id s.versions ≡ ok a.2)
  unfolding check_activate
  check_activate-eq-ok business j a h =
      let (brain, f, h₁) =
        found_or-eq-ok (find (λ b. b.business_id == business) s.brains) not_found _ a h in
      let (version, g, h₂) = found_or-eq-ok (version_row j s.versions) not_found _ a h₁ in
      let (allowed, h₃) =
        refuse-eq-ok (not (is_in version.status (approved ∷ active ∷ []))) _ _ a h₂ in
      let (current, read, h₄) = >>=-eq-ok (get_active brain.id s.versions) _ a h₃ in
      let made : (brain, version, current) ≡ a = cc in
      subst
        (λ a.
          (find (λ b. b.business_id == business) s.brains ≡ some a.0)
          × (version_row j s.versions ≡ some a.1)
          × (is_in a.1.status (approved ∷ active ∷ []) ≡ true)
          × (get_active a.0.id s.versions ≡ ok a.2))
        made (f, g, ground arith, read)
