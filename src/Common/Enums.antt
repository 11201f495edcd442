-- ===== src/Common/Enums.antt =====
-- Finite enumerations with a number for each member, so that Python's `==` and `in` on enum members
-- are Boolean tests.
use Prim.Native.Nat.{ℕ}
use mathlib.Core.Path.{◌≡◌}
use mathlib.Core.Bool.{Bool, false, ◌||◌}
use mathlib.Core.List.{List, [], ◌∷◌}
use package.fielded_online.Common.Tests.{◌==◌}

pub record Enum (A : Type 0) : Type 0 where
  pub index : A → ℕ
  pub index_injective : (a b : A) → index a ≡ index b → a ≡ b

module _ {A : Type 0} ⦃e : Enum A⦄ where
  abbrev pub same : A → A → Bool
  same a b = e.index a == e.index b

  -- `a in members`
  abbrev pub is_in : A → List A → Bool
  is_in a [] = false
  is_in a (x ∷ xs) = same a x || is_in a xs
