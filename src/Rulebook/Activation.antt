-- ===== src/Rulebook/Activation.antt =====
-- What an activation leaves behind.
use fielded_online.Common.{
  ℕ, ◌≡◌, refl, sym, ap, ◌∙◌, inl, inr, true, false, List, [], ◌∷◌, Option, none, some, find,
  find-some, same, is_in, ◌==◌, ==_refl, Bool-cases, arith,
}
use mathlib.Core.Path.{subst}
use fielded_online.Common.Outcome.{ok}
use fielded_online.Status.Versions.{
  BrainVersionStatus, version_status_enum, approved, active, superseded,
}
use fielded_online.Rulebook.Rows.{
  Tables, Version, Brain, version_row, put_brain, put_status, get_active,
}
use fielded_online.Rulebook.Service.{
  activate_version, check_activate, write_activation, supersede_other, activate_approved,
}
use fielded_online.Rulebook.Checked.{check_activate-eq-ok}
use fielded_online.Rulebook.Writes.{find-put_status}
use fielded_online.Rulebook.Committed.{save_with-eq-ok}
use fielded_online.Rulebook.Active.{
  IsOnlyActive, supersede_other-IsOnlyActive, activated-IsOnlyActive,
}

-- The version is ACTIVE, no other version of the brain is, and the brain points at it.
pub record IsActivated (business i : ℕ) (brain : Brain) (s : Tables) : Type 0 where
  pub row : Version
  pub found : version_row i s.versions ≡ some row
  pub is_active : row.status ≡ active
  pub only : IsOnlyActive brain.id i s.versions
  pub pointer :
      find (λ b. b.business_id == business) s.brains
      ≡ some (record brain { active_version_id = some i })

find-put_brain :
    (business : ℕ) (brain w : Brain) (xs : List Brain)
    → find (λ b. b.business_id == business) xs ≡ some brain
    → w.id ≡ brain.id
    → w.business_id ≡ brain.business_id
    → find (λ b. b.business_id == business) (put_brain w xs) ≡ some w
unfolding put_brain
find-put_brain business brain w [] h e f = cc
find-put_brain business brain w (x ∷ xs) h e f = ground (arith, find-put_brain business brain w xs)

approved_or_active :
    (t : BrainVersionStatus)
    → is_in t (approved ∷ active ∷ []) ≡ true
    → same t approved ≡ false
    → t ≡ active
approved_or_active t h e = ground arith

supersede_other-brains :
    (i : ℕ) (c : Option Version) (s : Tables) → (supersede_other i c s).brains ≡ s.brains
supersede_other-brains i none s = refl
supersede_other-brains i (some c) s = elim (Bool-cases (c.id == i)) [
  | inl hit ↦ rw (hit, supersede_other) refl
  | inr miss ↦ rw (miss, supersede_other) refl
]

activate_approved-brains : (v : Version) (s : Tables) → (activate_approved v s).brains ≡ s.brains
activate_approved-brains v s = elim (Bool-cases (same v.status approved)) [
  | inl hit ↦ rw (hit, activate_approved) refl
  | inr miss ↦ rw (miss, activate_approved) refl
]

module _ (business i : ℕ) (brain : Brain) (version : Version) (own : (version.id == i) ≡ true) where
  supersede_other-found :
      (c : Option Version) (s : Tables)
      → version_row i s.versions ≡ some version
      → version_row i (supersede_other i c s).versions ≡ some version
  supersede_other-found none s h = h
  supersede_other-found (some c) s h = elim (Bool-cases (c.id == i)) [
    | inl hit ↦ rw (hit, supersede_other) h
    | inr miss ↦
        let apart : (version.id == c.id) ≡ false = ground arith in
        let at_row = find-put_status i c.id superseded version s.versions h in
        rw (miss, supersede_other) (rw apart at at_row)
  ]

  abbrev IsTheActive : Tables → Type 0
  IsTheActive s =
      (row : Version) × (version_row i s.versions ≡ some row)
      × (row.status ≡ active)
      × IsOnlyActive brain.id i s.versions

  activate_approved-IsTheActive :
      (s : Tables)
      → version_row i s.versions ≡ some version
      → is_in version.status (approved ∷ active ∷ []) ≡ true
      → IsOnlyActive brain.id i s.versions
      → IsTheActive (activate_approved version s)
  activate_approved-IsTheActive s h allowed only =
      elim (Bool-cases (same version.status approved)) [
        | inl hit ↦
            let own_id : version.id ≡ i = ground arith in
            let at_row = find-put_status i version.id active version s.versions h in
            rw (hit, activate_approved)
              (
                record version { status = active },
                rw (==_refl version.id) at at_row,
                refl,
                subst (λ k. IsOnlyActive brain.id i (put_status k active s.versions)) (sym own_id)
                    (activated-IsOnlyActive brain.id i s.versions only),
              )
        | inr miss ↦
            let is_active = approved_or_active version.status allowed miss in
            rw (miss, activate_approved) (version, h, is_active, only)
      ]

  write_activation-IsActivated :
      (c : Option Version) (s : Tables)
      → find (λ b. b.business_id == business) s.brains ≡ some brain
      → version_row i s.versions ≡ some version
      → is_in version.status (approved ∷ active ∷ []) ≡ true
      → get_active brain.id s.versions ≡ ok c
      → IsActivated business i brain (write_activation i (brain, version, c) s)
  write_activation-IsActivated c s f h allowed read =
      let untouched =
        activate_approved-brains version (supersede_other i c s) ∙ supersede_other-brains i c s in
      let (row, found, is_active, only) =
        activate_approved-IsTheActive (supersede_other i c s) (supersede_other-found c s h) allowed
          (supersede_other-IsOnlyActive brain.id i s c read) in
      record {
        row = row;
        found = found;
        is_active = is_active;
        only = only;
        pointer =
            find-put_brain business brain (record brain { active_version_id = some i })
              (activate_approved version (supersede_other i c s)).brains
              (ap (find (λ b. b.business_id == business)) untouched ∙ f) refl refl;
      }

-- When an activation succeeds, the version is ACTIVE, no other version of the brain is, and the brain
-- points at it.
pub activate_version-IsActivated :
    (business i : ℕ) (s s' : Tables) (brain : Brain) (version : Version) (c : Option Version)
    → activate_version business i s ≡ (ok (brain, version, c), s')
    → IsActivated business i brain s'
activate_version-IsActivated business i s s' brain version c h =
    let (checked, made) =
      save_with-eq-ok (check_activate business i s) (write_activation i) s (brain, version, c) s'
        h in
    let (f, g, allowed, read) = check_activate-eq-ok s business i (brain, version, c) checked in
    let own = find-some (λ x. x.id == i) s.versions version g in
    subst (IsActivated business i brain) made
      (write_activation-IsActivated business i brain version own c s f g allowed read)
