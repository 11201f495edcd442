-- ===== src/Rulebook/Active.antt =====
-- The versions of a brain that are ACTIVE, before and after a request.
use fielded_online.Common.{
  ℕ, ◌≡◌, refl, ap, ◌∙◌, inl, inr, true, List, [], ◌∷◌, Option, none, some, All, select, ◌==◌,
  Bool-cases, arith,
}
use fielded_online.Common.Outcome.{ok}
use fielded_online.Status.Versions.{version_status_enum, active, superseded}
use mathlib.Core.Path.{subst}
use fielded_online.Rulebook.Service.{supersede_other}
use fielded_online.Rulebook.Rows.{
  Tables, Version, is_active_of, one_or_none, get_active, put_status,
}

-- Every version of the brain that is ACTIVE has the id.
abbrev pub IsOnlyActive : ℕ → ℕ → List Version → Type 0
IsOnlyActive brain i = All (λ w. is_active_of brain w ≡ true → w.id ≡ i)

pub none-IsOnlyActive :
    (brain i : ℕ) (xs : List Version)
    → select (is_active_of brain) xs ≡ []
    → IsOnlyActive brain i xs
none-IsOnlyActive brain i [] h = tt
none-IsOnlyActive brain i (x ∷ xs) h = elim (Bool-cases (is_active_of brain x)) [
  | inl hit ↦ absurd (ground arith)
  | inr miss ↦ (λ e. absurd cc, none-IsOnlyActive brain i xs (ground arith))
]

pub one-IsOnlyActive :
    (brain : ℕ) (c : Version) (xs : List Version)
    → select (is_active_of brain) xs ≡ c ∷ []
    → IsOnlyActive brain c.id xs
one-IsOnlyActive brain c [] h = tt
one-IsOnlyActive brain c (x ∷ xs) h = elim (Bool-cases (is_active_of brain x)) [
  | inl hit ↦ (
    λ e. let own : x ≡ c = ground arith in ap (λ w. w.id) own,
    none-IsOnlyActive brain c.id xs (ground arith),
  )
  | inr miss ↦ (λ e. absurd cc, one-IsOnlyActive brain c xs (ground arith))
]

pub activated-IsOnlyActive :
    (brain i : ℕ) (xs : List Version)
    → IsOnlyActive brain i xs
    → IsOnlyActive brain i (put_status i active xs)
unfolding put_status
activated-IsOnlyActive brain i [] h = tt
activated-IsOnlyActive brain i (x ∷ xs) (h, hs) =
    (λ e. ground arith, activated-IsOnlyActive brain i xs hs)

-- The one that is active gives way: none is left.
pub superseded-IsOnlyActive :
    (brain k i : ℕ) (xs : List Version)
    → IsOnlyActive brain k xs
    → IsOnlyActive brain i (put_status k superseded xs)
unfolding put_status
superseded-IsOnlyActive brain k i [] h = tt
superseded-IsOnlyActive brain k i (x ∷ xs) (h, hs) = (
  λ e. elim (Bool-cases (x.id == k)) [
    | inl hit ↦ absurd (ground arith)
    | inr miss ↦ absurd (ground (arith, h))
  ],
  superseded-IsOnlyActive brain k i xs hs,
)

one_or_none-IsOnlyActive :
    (brain : ℕ) (xs ys : List Version) (c : Option Version)
    → select (is_active_of brain) xs ≡ ys
    → one_or_none ys ≡ ok c
    → (k : ℕ) × IsOnlyActive brain k xs
one_or_none-IsOnlyActive brain xs [] c e h = (0, none-IsOnlyActive brain 0 xs e)
one_or_none-IsOnlyActive brain xs (y ∷ []) c e h = (y.id, one-IsOnlyActive brain y xs e)
one_or_none-IsOnlyActive brain xs (y ∷ z ∷ ys) c e h = cc

-- A brain whose active version can be read has one at most.
pub get_active-IsOnlyActive :
    (brain : ℕ) (xs : List Version) (c : Option Version)
    → get_active brain xs ≡ ok c
    → (k : ℕ) × IsOnlyActive brain k xs
get_active-IsOnlyActive brain xs c h =
    one_or_none-IsOnlyActive brain xs (select (is_active_of brain) xs) c refl h

supersede_one-IsOnlyActive :
    (brain i : ℕ) (s : Tables) (c : Version)
    → IsOnlyActive brain c.id s.versions
    → IsOnlyActive brain i (supersede_other i (some c) s).versions
supersede_one-IsOnlyActive brain i s c h = elim (Bool-cases (c.id == i)) [
  | inl hit ↦
      let own : c.id ≡ i = ground arith in
      rw (hit, supersede_other) (subst (λ k. IsOnlyActive brain k s.versions) own h)
  | inr miss ↦ rw (miss, supersede_other) (superseded-IsOnlyActive brain c.id i s.versions h)
]

-- Once the version that was read has given way, only the one to activate may be active.
pub supersede_other-IsOnlyActive :
    (brain i : ℕ) (s : Tables) (c : Option Version)
    → get_active brain s.versions ≡ ok c
    → IsOnlyActive brain i (supersede_other i c s).versions
supersede_other-IsOnlyActive brain i s c h = go (select (is_active_of brain) s.versions) c refl h
  where
    go :
        (ys : List Version) (c : Option Version)
        → select (is_active_of brain) s.versions ≡ ys
        → one_or_none ys ≡ ok c
        → IsOnlyActive brain i (supersede_other i c s).versions
    go [] none e h = none-IsOnlyActive brain i s.versions e
    go [] (some c) e h = cc
    go (y ∷ []) none e h = cc
    go (y ∷ []) (some c) e h =
        let own : y ≡ c = cc in
        let only = one-IsOnlyActive brain c s.versions (e ∙ ap (λ y. y ∷ []) own) in
        supersede_one-IsOnlyActive brain i s c only
    go (y ∷ z ∷ ys) c e h = cc
