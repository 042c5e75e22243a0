-- ===== src/Base/Text.antt =====
-- Texts: concatenation under a name of its own, equality, and enumerations, which the program
-- compares and prints by their names.
use Prim.Native.String.{String, ◌++◌ as ◌append◌}
use mathlib.Core.Bool.{Bool, false, ◌||◌}
use mathlib.Core.List.{List, [], ◌∷◌}
use Prim.Native.Nat.{ℕ}
use uza_mobility_bn.Base.Tests.{◌==◌}

-- A template literal is a chain of these.
infixr 66 ◌<>◌
abbrev pub ◌<>◌ : String → String → String
a <> b = ◌append◌ a b

-- A Prisma enumeration: each value is its own name. Two values are compared by their places in
-- the declaration, which differ where the names do.
pub record Enum (A : Type 0) : Type 0 where
  pub name : A → String
  pub tag : A → ℕ

infix 50 ◌===◌
abbrev pub ◌===◌ : {A : Type 0} ⦃e : Enum A⦄ → A → A → Bool
◌===◌ ⦃e⦄ a b = e.tag a == e.tag b

abbrev pub name_of : {A : Type 0} ⦃e : Enum A⦄ → A → String
name_of ⦃e⦄ = e.name

-- `list.includes(a)`.
abbrev pub includes : {A : Type 0} ⦃e : Enum A⦄ → List A → A → Bool
includes ⦃e⦄ [] a = false
includes ⦃e⦄ (x ∷ xs) a = x === a || includes xs a
