-- ===== src/Commercial/Superseding.antt =====
-- What an activation leaves in force.
use fielded_online.Common.{
  ℕ, ◌≡◌, ◌≤◌, ◌<◌, refl, sym, Bool, Option, none, ==_refl, true, false, List, [], ◌∷◌, some, All,
  ◌⊎◌, Bool-cases, inl, inr, ◌==◌, ◌∙◌, arith, if◌then◌else◌, ltb,
}
use fielded_online.Common.Outcome.{ok}
use fielded_online.Status.Policies.{active, superseded}
use fielded_online.Commercial.Policy.{
  CommercialPolicy, Scope, precedence, promotion, business_plan, business_specific,
}
use fielded_online.Commercial.Resolution.{is_candidate, is_in_force, fits_scope, equals}
use fielded_online.Commercial.Chosen.{IsOneOf}
use fielded_online.Commercial.Activation.{
  business_or_nil, is_overlapped, supersede, deactivate_overlapping, put_policy, transition_policy,
}

superseded_no_more :
    (now : ℕ) (p q : CommercialPolicy)
    → is_overlapped now p (if is_overlapped now p q then record q { status = superseded } else q)
      ≡ false
unfolding is_overlapped is_candidate
superseded_no_more now p q = ground arith

supersede-none :
    (now : ℕ) (p : CommercialPolicy) (ps : List CommercialPolicy)
    → All (λ q. is_overlapped now p q ≡ false) (supersede now p ps)
unfolding supersede
supersede-none now p [] = tt
supersede-none now p (q ∷ qs) = (superseded_no_more now p q, supersede-none now p qs)

-- What an activation that returned has done.
transition_policy-activated :
    (now : ℕ) (p p' : CommercialPolicy) (ps ps' : List CommercialPolicy)
    → transition_policy now p active ps ≡ (ok p', ps')
    → let y = record p { status = active } in
      (p' ≡ y) × (ps' ≡ deactivate_overlapping now y (put_policy y ps))
unfolding transition_policy
transition_policy-activated now p p' ps ps' e = ground arith

-- A policy of a business or a plan of it names the business.
abbrev pub names_owner : Scope → Option ℕ → Bool
names_owner business_plan none = false
names_owner business_specific none = false
names_owner scope business = true

-- The time has not come.
abbrev pub IsBefore : ℕ → Option ℕ → Type 0
IsBefore now none = Unit
IsBefore now (some until) = now < until

-- Another policy of the scope and the target of p that is ACTIVE and in force at the time, and asks for
-- no promotion code.
pub record IsRival (now : ℕ) (p q : CommercialPolicy) : Type 0 where
  pub other : (q.id == p.id) ≡ false
  pub scope : q.scope ≡ p.scope
  pub business : q.business_id ≡ p.business_id
  pub category : q.category_id ≡ p.category_id
  pub owned : names_owner q.scope q.business_id ≡ true
  pub uncoded : q.promotion_code ≡ none
  pub begun : q.effective_from ≤ now
  pub open_end : IsBefore now q.effective_until
  pub enabled : q.is_active ≡ true
  pub status : q.status ≡ active

equals_refl : (a : Option ℕ) → equals a a ≡ true
equals_refl none = refl
equals_refl (some n) = ==_refl n

-- A rival is in force and fits its own scope.
IsRival-in_force : (now : ℕ) (p q : CommercialPolicy) → IsRival now p q → is_in_force now q ≡ true
IsRival-in_force now p q r = ground (arith, r.begun, r.open_end, r.enabled, r.status)

fits_scope-own :
    (scope : Scope) (q : CommercialPolicy)
    → names_owner scope q.business_id ≡ true
    → q.promotion_code ≡ none
    → fits_scope scope (business_or_nil q.business_id) q.category_id none q ≡ true
fits_scope-own scope q h k = ground (arith, equals_refl q.category_id, equals_refl q.business_id)

-- The filter of the activation finds every rival.
IsRival-is_overlapped :
    (now : ℕ) (p q : CommercialPolicy) → IsRival now p q → is_overlapped now p q ≡ true
unfolding is_overlapped is_candidate
IsRival-is_overlapped now p q r =
    let fits = fits_scope-own q.scope q r.owned r.uncoded in
    let same_business = equals_refl q.business_id in
    let same_category = equals_refl q.category_id in
    rw
      (
        sym r.business,
        sym r.category,
        sym r.scope,
        IsRival-in_force now p q r,
        fits,
        r.other,
        ==_refl (precedence q.scope),
        same_business,
        same_category,
        r.status,
      )
      refl

All-no-IsRival :
    (now : ℕ) (p : CommercialPolicy) (ps : List CommercialPolicy)
    → All (λ q. is_overlapped now p q ≡ false) ps
    → All (λ q. ¬ IsRival now p q) ps
All-no-IsRival now p [] h = tt
All-no-IsRival now p (q ∷ qs) (h, hs) =
    (λ r. absurd (ground (arith, IsRival-is_overlapped now p q r)), All-no-IsRival now p qs hs)

coded_promotion-kept :
    (now : ℕ) (p q : CommercialPolicy) (code : ℕ)
    → q.scope ≡ promotion
    → q.promotion_code ≡ some code
    → is_overlapped now p q ≡ false
unfolding is_overlapped is_candidate
coded_promotion-kept now p q code h k = ground arith

supersede-IsOneOf :
    (now : ℕ) (p q : CommercialPolicy) (ps : List CommercialPolicy)
    → is_overlapped now p q ≡ false
    → IsOneOf q ps
    → IsOneOf q (supersede now p ps)
unfolding supersede
supersede-IsOneOf now p q [] h i = i
supersede-IsOneOf now p q (r ∷ rs) h (inl e) =
    let kept : is_overlapped now p r ≡ false = cc in inl (rw (e, kept))
supersede-IsOneOf now p q (r ∷ rs) h (inr i) = inr (supersede-IsOneOf now p q rs h i)

put_policy-IsOneOf :
    (p q : CommercialPolicy) (ps : List CommercialPolicy)
    → (q.id == p.id) ≡ false
    → IsOneOf q ps
    → IsOneOf q (put_policy p ps)
put_policy-IsOneOf p q [] h i = i
put_policy-IsOneOf p q (r ∷ rs) h (inl e) = elim (Bool-cases (r.id == p.id)) [
  | inl hit ↦ let found : (q.id == p.id) ≡ true = cc in absurd (ground arith)
  | inr miss ↦ rw miss (inl e)
]
put_policy-IsOneOf p q (r ∷ rs) h (inr i) = elim (Bool-cases (r.id == p.id)) [
  | inl hit ↦ rw hit (inr i)
  | inr miss ↦ rw miss (inr (put_policy-IsOneOf p q rs h i))
]

-- The scope and the target of p.
pub record HasTarget (p q : CommercialPolicy) : Type 0 where
  pub scope : q.scope ≡ p.scope
  pub business : q.business_id ≡ p.business_id
  pub category : q.category_id ≡ p.category_id

precedence-injective : (a b : Scope) → precedence a ≡ precedence b → a ≡ b
precedence-injective a b h = ground arith

equals-eq : (a b : Option ℕ) → equals a b ≡ true → a ≡ b
equals-eq a b h = ground arith

is_overlapped-HasTarget :
    (now : ℕ) (p q : CommercialPolicy) → is_overlapped now p q ≡ true → HasTarget p q
unfolding is_overlapped
is_overlapped-HasTarget now p q h = record {
  scope = precedence-injective q.scope p.scope (ground arith);
  business = equals-eq q.business_id p.business_id (ground arith);
  category = equals-eq q.category_id p.category_id (ground arith);
}

-- The row is in the table, or is that of p, or has its scope and target.
abbrev pub IsSpared : CommercialPolicy → List CommercialPolicy → CommercialPolicy → Type 0
IsSpared p ps' q = IsOneOf q ps' ⊎ ((q.id == p.id) ≡ true) ⊎ HasTarget p q

supersede-IsSpared :
    (now : ℕ) (p q : CommercialPolicy) (ps : List CommercialPolicy)
    → IsOneOf q ps
    → IsSpared p (supersede now p (put_policy p ps)) q
supersede-IsSpared now p q ps i = elim (Bool-cases (q.id == p.id)) [
  | inl own ↦ inr (inl own)
  | inr other ↦ elim (Bool-cases (is_overlapped now p q)) [
    | inl hit ↦ inr (inr (is_overlapped-HasTarget now p q hit))
    | inr kept ↦
        inl (supersede-IsOneOf now p q (put_policy p ps) kept (put_policy-IsOneOf p q ps other i))
  ]
]

All-IsOneOf :
    (P : CommercialPolicy → Type 0) (ps : List CommercialPolicy)
    → ((q : CommercialPolicy) → IsOneOf q ps → P q)
    → All P ps
All-IsOneOf P [] h = tt
All-IsOneOf P (q ∷ qs) h = (h q (inl refl), All-IsOneOf P qs (λ r i. h r (inr i)))

-- Once a policy that is in force by its date is activated, no other policy is ACTIVE with its scope, its
-- business and its category, in force at the time and without a promotion code; a policy for a business
-- that names none is left out. The row of each other policy that was there is still there unchanged,
-- unless the policy has that scope, business and category.
pub transition_policy-supersedes :
    (now : ℕ) (p p' : CommercialPolicy) (ps ps' : List CommercialPolicy)
    → p.effective_from ≤ now
    → transition_policy now p active ps ≡ (ok p', ps')
    → All (λ q. ¬ IsRival now p' q) ps' × All (IsSpared p' ps') ps
unfolding deactivate_overlapping
transition_policy-supersedes now p p' ps ps' h e =
    let (same_row, table) = transition_policy-activated now p p' ps ps' e in
    let y = record p { status = active } in
    let begun : ltb now y.effective_from ≡ false = ground arith in
    let out : ps' ≡ supersede now y (put_policy y ps) = table ∙ rw begun refl in
    (
      All-no-IsRival now p' ps' (rw (same_row, out) (supersede-none now y (put_policy y ps))),
      All-IsOneOf (IsSpared p' ps') ps
          (λ q i. rw (same_row, out) (supersede-IsSpared now y q ps i)),
    )

-- A promotion with a code is superseded by no activation of another policy, not even of a promotion
-- with the same code, scope and target.
pub transition_policy-coded_promotion :
    (now code : ℕ) (p p' q : CommercialPolicy) (ps ps' : List CommercialPolicy)
    → q.scope ≡ promotion
    → q.promotion_code ≡ some code
    → (q.id == p.id) ≡ false
    → IsOneOf q ps
    → transition_policy now p active ps ≡ (ok p', ps')
    → IsOneOf q ps'
unfolding deactivate_overlapping
transition_policy-coded_promotion now code p p' q ps ps' h k differ i e =
    let (_, table) = transition_policy-activated now p p' ps ps' e in
    let y = record p { status = active } in
    let j = put_policy-IsOneOf y q ps differ i in
    let kept =
      supersede-IsOneOf now y q (put_policy y ps) (coded_promotion-kept now y q code h k) j in
    elim (Bool-cases (ltb now y.effective_from)) [
      | inl later ↦ rw (table, later) j
      | inr begun ↦ rw (table, begun) kept
    ]
