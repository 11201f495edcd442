-- ===== src/Rulebook/Blocked.antt =====
-- A transition to ACTIVE that passes by the activation, beside a version that is ACTIVE.
use fielded_online.Common.{
  ℕ, ◌≡◌, ◌≢◌, refl, sym, ap, ◌∙◌, inl, inr, true, false, List, Option, some, All-find, find,
  find-some, ◌==◌, ==_refl, Bool-cases, arith,
}
use fielded_online.Common.Outcome.{ok}
use fielded_online.Status.Versions.{version_status_enum, approved, active}
use fielded_online.Rulebook.Validation.{Numbers}
use fielded_online.Rulebook.Rows.{Tables, Version, Brain, version_row, is_active_of, get_active}
use fielded_online.Rulebook.Service.{
  transition_version, check_transition, check_activate, save_with, save_version,
}
use fielded_online.Rulebook.Operations.{committed}
use fielded_online.Rulebook.Writes.{version_row-put_version}
use fielded_online.Rulebook.Checked.{check_activate-eq-ok}
use fielded_online.Rulebook.Active.{get_active-IsOnlyActive}

-- Two ACTIVE versions of a brain cannot be read.
two_active-unread :
    (brain i j : ℕ) (v w : Version) (xs : List Version) (c : Option Version)
    → version_row i xs ≡ some v
    → version_row j xs ≡ some w
    → is_active_of brain v ≡ true
    → is_active_of brain w ≡ true
    → (w.id == v.id) ≡ false
    → get_active brain xs ≡ ok c
    → ⊥
two_active-unread brain i j v w xs c f g a b apart h =
    let (k, only) = get_active-IsOnlyActive brain xs c h in
    let one =
      All-find (λ w. is_active_of brain w ≡ true → w.id ≡ k) (λ x. x.id == i) xs v only f a in
    let two =
      All-find (λ w. is_active_of brain w ≡ true → w.id ≡ k) (λ x. x.id == j) xs w only g b in
    absurd (ground arith)

module _ (numbers : Numbers) (i j : ℕ) (v w : Version) (s : Tables) where
  pub check_transition_to_active :
      version_row i s.versions ≡ some v
      → v.status ≡ approved
      → check_transition numbers i active s ≡ ok (record v { status = active })
  unfolding check_transition
  check_transition_to_active f e = rw (f, e) refl

  -- Versions of different status that are found have different ids.
  found_apart :
      version_row i s.versions ≡ some v
      → v.status ≡ approved
      → version_row j s.versions ≡ some w
      → w.status ≡ active
      → (w.id == v.id) ≡ false
  found_apart f e g active_w = elim (Bool-cases (w.id == v.id)) [
    | inl hit ↦
        let at_v = find-some (λ x. x.id == i) s.versions v f in
        let at_w = find-some (λ x. x.id == j) s.versions w g in
        let same_id : j ≡ i = ground arith in
        let both : some w ≡ some v = sym g ∙ ap (λ k. version_row k s.versions) same_id ∙ f in
        let own : w ≡ v = cc both in absurd (ground (arith, ap (λ u. u.status) own))
    | inr miss ↦ miss
  ]

  abbrev made_active : Version
  made_active = record v { status = active }

  check_activate-blocked :
      (business k : ℕ) (brain : Brain) (a : Brain × Version × Option Version)
      → version_row i s.versions ≡ some v
      → version_row j s.versions ≡ some w
      → (w.id == v.id) ≡ false
      → w.status ≡ active
      → w.brain_id ≡ v.brain_id
      → find (λ b. b.business_id == business) s.brains ≡ some brain
      → brain.id ≡ v.brain_id
      → check_activate business k (save_version made_active s) ≢ ok a
  check_activate-blocked business k brain a f g apart active_w same_brain fb own h =
      let (fa, found, allowed, read) =
        check_activate-eq-ok (save_version made_active s) business k a h in
      let same_one : some a.0 ≡ some brain = sym fa ∙ fb in
      let same_brain_row : a.0 ≡ brain = cc same_one in
      let own_id : a.0.id ≡ v.brain_id = ap (λ b. b.id) same_brain_row ∙ own in
      let at_i = version_row-put_version i made_active v s.versions f in
      let at_j = version_row-put_version j made_active w s.versions g in
      two_active-unread a.0.id i j made_active w (save_version made_active s).versions a.2
        (rw (==_refl v.id) at at_i) (rw apart at at_j) (rw (own_id, ==_refl v.brain_id) refl)
        (rw (own_id, same_brain, ==_refl v.brain_id, active_w) refl) apart read

  -- When a version of a brain is APPROVED and another one ACTIVE, the transition of the first to ACTIVE
  -- is not refused, and on the tables that it leaves no activation for the brain passes its checks.
  pub transition_version-blocks :
      (business k : ℕ) (brain : Brain) (a : Brain × Version × Option Version)
      → version_row i s.versions ≡ some v
      → v.status ≡ approved
      → version_row j s.versions ≡ some w
      → w.status ≡ active
      → w.brain_id ≡ v.brain_id
      → find (λ b. b.business_id == business) s.brains ≡ some brain
      → brain.id ≡ v.brain_id
      → ((transition_version numbers i active s).0 ≡ ok (record v { status = active }))
        × (check_activate business k (committed (transition_version numbers i active) s) ≢ ok a)
  transition_version-blocks business k brain a f e g active_w same_brain fb own =
      let passed = check_transition_to_active f e in
      (
        ap (λ r. (save_with r save_version s).0) passed,
        λ h.
            check_activate-blocked business k brain a f g (found_apart f e g active_w) active_w
              same_brain fb own
              (ap (λ r. check_activate business k (committed (save_with r save_version) s))
                  (sym passed)
                ∙ h),
      )
