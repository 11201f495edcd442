-- ===== src/Commercial/Chosen.antt =====
-- The policy that sets the fee is a best candidate.
use fielded_online.Common.{
  ℕ, ◌≡◌, ◌<◌, ◌≤◌, refl, ◌⊎◌, inl, inr, Bool, true, false, List, [], ◌∷◌, Option, none, some, All,
  Bool-cases, ◌&&◌, if◌then◌else◌, arith,
}
use fielded_online.Commercial.Policy.{CommercialPolicy, precedence}
use fielded_online.Commercial.Resolution.{
  is_candidate, effective_policies, ranks_over, insert_policy, sort_policies, global_default_policy,
  first_or, resolve_effective_policy, is_global, is_in_force,
}

-- p is one of the list.
abbrev pub IsOneOf : CommercialPolicy → List CommercialPolicy → Type 0
IsOneOf p [] = ⊥
IsOneOf p (q ∷ qs) = (p ≡ q) ⊎ IsOneOf p qs

-- q has no higher precedence than p, and is no younger where the precedences agree.
abbrev pub RanksBelow : CommercialPolicy → CommercialPolicy → Type 0
RanksBelow p q =
    (precedence q.scope < precedence p.scope)
    ⊎ ((precedence q.scope ≡ precedence p.scope) × (q.created_at ≤ p.created_at))

abbrev pub IsBest : List CommercialPolicy → Option CommercialPolicy → Type 0
IsBest ps none = ps ≡ []
IsBest ps (some p) = IsOneOf p ps × All (RanksBelow p) ps

RanksBelow-refl : (p : CommercialPolicy) → RanksBelow p p
RanksBelow-refl p = inr (refl, omega arith)

RanksBelow-trans : (p q r : CommercialPolicy) → RanksBelow p q → RanksBelow q r → RanksBelow p r
RanksBelow-trans p q r h k = ground arith

All-RanksBelow :
    (p q : CommercialPolicy) (ps : List CommercialPolicy)
    → RanksBelow p q
    → All (RanksBelow q) ps
    → All (RanksBelow p) ps
All-RanksBelow p q [] h k = tt
All-RanksBelow p q (r ∷ rs) h (k, ks) = (RanksBelow-trans p q r h k, All-RanksBelow p q rs h ks)

-- The head of a sorted list, as an option.
abbrev head : List CommercialPolicy → Option CommercialPolicy
head ps = first_or none ps

IsBest-step :
    (b : Bool) (p : CommercialPolicy) (ps : List CommercialPolicy) (q : CommercialPolicy)
    (qs rest : List CommercialPolicy)
    → (b ≡ true → RanksBelow p q)
    → (b ≡ false → RanksBelow q p)
    → IsBest ps (some q)
    → IsBest (p ∷ ps) (head (if b then p ∷ q ∷ qs else q ∷ rest))
IsBest-step true p ps q qs rest above below (i, k) =
    (inl refl, (RanksBelow-refl p, All-RanksBelow p q ps (above refl) k))
IsBest-step false p ps q qs rest above below (i, k) = (inr i, (below refl, k))

insert_policy-IsBest :
    (p : CommercialPolicy) (ps sorted : List CommercialPolicy)
    → IsBest ps (head sorted)
    → IsBest (p ∷ ps) (head (insert_policy p sorted))
unfolding insert_policy
insert_policy-IsBest p ps [] h = rw h (inl refl, (RanksBelow-refl p, tt))
insert_policy-IsBest p ps (q ∷ qs) h =
    IsBest-step (ranks_over p q) p ps q qs (insert_policy p qs) (λ e. ground arith)
      (λ e. ground arith) h

sort_policies-IsBest : (ps : List CommercialPolicy) → IsBest ps (head (sort_policies ps))
unfolding sort_policies
sort_policies-IsBest [] = refl
sort_policies-IsBest (p ∷ ps) =
    insert_policy-IsBest p ps (sort_policies ps) (sort_policies-IsBest ps)

-- A global default in force is a candidate whatever the transaction.
global_candidate :
    (now business : ℕ) (category code : Option ℕ) (p : CommercialPolicy)
    → is_candidate now business category code p ≡ false
    → (is_global p.scope && is_in_force now p) ≡ false
unfolding is_candidate
global_candidate now business category code p h = elim (Bool-cases (is_in_force now p)) [
  | inl hit ↦ ground arith
  | inr miss ↦ ground arith
]

-- The fallback finds nothing where there is no candidate.
global_default_policy-none :
    (now business : ℕ) (category code : Option ℕ) (ps : List CommercialPolicy)
    → effective_policies now business category code ps ≡ []
    → global_default_policy now ps ≡ none
unfolding global_default_policy is_candidate
global_default_policy-none now business category code [] h = refl
global_default_policy-none now business category code (p ∷ ps) h =
    elim (Bool-cases (is_candidate now business category code p)) [
      | inl hit ↦ ground arith
      | inr miss ↦
          let other = global_candidate now business category code p miss in
          let rest = global_default_policy-none now business category code ps (ground arith) in
          rw (other, rest)
    ]

IsBest-fallback :
    (ps sorted : List CommercialPolicy) (other : Option CommercialPolicy)
    → (ps ≡ [] → other ≡ none)
    → IsBest ps (head sorted)
    → IsBest ps (first_or other sorted)
IsBest-fallback ps [] other f h = rw (f h) h
IsBest-fallback ps (q ∷ qs) other f h = h

-- The policy that is resolved is one of the effective policies, and none of them has a higher
-- precedence, or the same and a later creation; there is none exactly when no policy is effective.
pub resolve_effective_policy-IsBest :
    (now business : ℕ) (category code : Option ℕ) (ps : List CommercialPolicy)
    → IsBest
        (effective_policies now business category code ps)
        (resolve_effective_policy now business category code ps)
unfolding resolve_effective_policy
resolve_effective_policy-IsBest now business category code ps =
    let candidates = effective_policies now business category code ps in
    IsBest-fallback candidates (sort_policies candidates) (global_default_policy now ps)
      (global_default_policy-none now business category code ps) (sort_policies-IsBest candidates)
