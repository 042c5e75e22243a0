-- ===== src/Base/Alls.antt =====
-- Predicates over the members of a part of a list.
use Prim.Native.Nat.{ℕ, zero, suc}
use mathlib.Core.List.{List, [], ◌∷◌}
use uza_mobility_bn.Base.Lists.{All, take, skip}

module _ {A : Type 0} (P : A → Type 0) where
  pub All-skip : (n : ℕ) (xs : List A) → All P xs → All P (skip n xs)
  All-skip zero xs a = a
  All-skip (suc n) [] a = tt
  All-skip (suc n) (x ∷ xs) (h, a) = All-skip n xs a

  pub All-take : (n : ℕ) (xs : List A) → All P xs → All P (take n xs)
  All-take zero xs a = tt
  All-take (suc n) [] a = tt
  All-take (suc n) (x ∷ xs) (h, a) = (h, All-take n xs a)

  pub All-imp : {Q : A → Type 0} (xs : List A) → ((x : A) → Q x → P x) → All Q xs → All P xs
  All-imp [] f a = tt
  All-imp (x ∷ xs) f (h, a) = (f x h, All-imp xs f a)
