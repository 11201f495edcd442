-- ===== src/Common/Outcome.antt =====
-- backend/app/exceptions.py: the exceptions that the services raise, and a state monad with them.
-- An action reads a state and returns a value or raises; the state that it leaves behind is the
-- session's at that moment. `request` is the transaction around a request
-- (backend/app/database.py, get_db_session): commit on return, roll back on an exception.
use mathlib.Core.Bool.{Bool, true, false}
use mathlib.Core.Option.{Option, none, some}
use mathlib.Core.Path.{◌≡◌, refl}
use mathlib.Core.Logic.{◌⊎◌, inl, inr}

-- `value_error` is Python's; `integrity_error` is the database's refusal of a row that breaks a
-- unique constraint; `unexpected` is any other exception, as a TypeError or MultipleResultsFound.
pub data AppError : Type 0 where
  domain_error not_found conflict authorization authentication validation state_transition :
      AppError
  value_error integrity_error unexpected : AppError

pub data Result {ℓ} (A : Type ℓ) : Type ℓ where
  ok : A → Result A
  err : AppError → Result A

abbrev pub Action : Type 0 → Type 0 → Type 0
Action S A = S → Result A × S

module _ {S A : Type 0} where
  abbrev pub pure : A → Action S A
  pure a s = (ok a, s)

  abbrev pub raise : AppError → Action S A
  raise e s = (err e, s)

  abbrev pub gets : (S → A) → Action S A
  gets f s = (ok (f s), s)

  abbrev pub or_raise : Option A → AppError → Action S A
  or_raise none e = raise e
  or_raise (some a) _ = pure a

abbrev pub continue : {S A B : Type 0} → (A → Action S B) → Result A → Action S B
continue f (ok a) s = f a s
continue f (err e) s = (err e, s)

infixl 5 ◌>>=◌ ◌>>◌
abbrev pub ◌>>=◌ : {S A B : Type 0} → Action S A → (A → Action S B) → Action S B
◌>>=◌ m f s = continue f (m s).0 (m s).1

abbrev pub ◌>>◌ : {S A B : Type 0} → Action S A → Action S B → Action S B
m >> k = m >>= λ _. k

module _ {S : Type 0} where
  -- `if test: raise`
  abbrev pub raise_if : Bool → AppError → Action S (Unit {0})
  raise_if true e = raise e
  raise_if false e = pure tt

  abbrev pub modify : (S → S) → Action S (Unit {0})
  modify f s = (ok tt, f s)

  -- An `if` with no `else`.
  abbrev pub when : Bool → Action S (Unit {0}) → Action S (Unit {0})
  when true m = m
  when false m = pure tt

-- Inversion of an action that returned.
module _ {S A B : Type 0} (f : A → Action S B) {b : B} {s' : S} where
  split_result :
      (r : Result A) (s₁ : S)
      → continue f r s₁ ≡ (ok b, s')
      → (a : A) × (r ≡ ok a) × (f a s₁ ≡ (ok b, s'))
  split_result (ok a) s₁ h = (a, refl, h)
  split_result (err e) s₁ h = cc

  pub >>=-eq-ok :
      (m : Action S A) (s : S)
      → (m >>= f) s ≡ (ok b, s')
      → (a : A) × (s₁ : S) × (m s ≡ (ok a, s₁)) × (f a s₁ ≡ (ok b, s'))
  >>=-eq-ok m s h = let (a, e, k) = split_result (m s).0 (m s).1 h in (a, (m s).1, cc e, k)

pub Result-cases :
    {A : Type 0} (r : Result A) → ((a : A) × (r ≡ ok a)) ⊎ ((e : AppError) × (r ≡ err e))
Result-cases (ok a) = inl (a, refl)
Result-cases (err e) = inr (e, refl)
