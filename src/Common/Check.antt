-- ===== src/Common/Check.antt =====
-- The read-only part of an operation: a chain of validations, each of which may raise.
use mathlib.Core.Bool.{Bool, true, false}
use mathlib.Core.Option.{Option, none, some}
use mathlib.Core.Path.{◌≡◌, refl}
use package.fielded_online.Common.Outcome.{AppError, Result, ok, err}

infixl 5 ◌>>=◌ ◌>>◌
abbrev pub ◌>>=◌ : {A B : Type 0} → Result A → (A → Result B) → Result B
ok a >>= f = f a
err e >>= f = err e

abbrev pub ◌>>◌ : {A B : Type 0} → Result A → Result B → Result B
m >> k = m >>= λ _. k

-- `if test: raise`
abbrev pub refuse : Bool → AppError → Result (Unit {0})
refuse true e = err e
refuse false e = ok tt

-- `if value is None: raise`
abbrev pub found_or : {A : Type 0} → Option A → AppError → Result A
found_or none e = err e
found_or (some a) e = ok a

-- A chain that answered: each of its parts did.
pub >>=-eq-ok :
    {A B : Type 0} (r : Result A) (f : A → Result B) (b : B)
    → (r >>= f) ≡ ok b
    → (a : A) × (r ≡ ok a) × (f a ≡ ok b)
>>=-eq-ok (ok a) f b h = (a, refl, h)
>>=-eq-ok (err e) f b h = cc

pub >>-eq-ok : {A B : Type 0} (r : Result A) (k : Result B) (b : B) → (r >> k) ≡ ok b → k ≡ ok b
>>-eq-ok (ok a) k b h = h
>>-eq-ok (err e) k b h = cc

pub refuse-eq-ok :
    {B : Type 0} (test : Bool) (e : AppError) (k : Result B) (b : B)
    → (refuse test e >> k) ≡ ok b
    → (test ≡ false) × (k ≡ ok b)
refuse-eq-ok true e k b h = cc
refuse-eq-ok false e k b h = (refl, h)

pub found_or-eq-ok :
    {A B : Type 0} (found : Option A) (e : AppError) (f : A → Result B) (b : B)
    → (found_or found e >>= f) ≡ ok b
    → (a : A) × (found ≡ some a) × (f a ≡ ok b)
found_or-eq-ok none e f b h = cc
found_or-eq-ok (some a) e f b h = (a, refl, h)
