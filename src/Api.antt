-- ===== src/Api.antt =====
-- A request handler: it works on a state and returns or throws. What was written before a
-- throw stays written, except in a Prisma transaction; a handler whose transaction may throw makes
-- its tests before its writes here.
pub mod Reads
use uza_mobility_bn.Base.{String, Bool, true, false, Option, none, some, List, [], ◌∷◌}

-- The exceptions of NestJS that the services throw; `internal` is any other error.
pub data ApiError : Type 0 where
  bad_request not_found forbidden conflict internal : String → ApiError

pub data Result (A : Type 0) : Type 0 where
  ok : A → Result A
  err : ApiError → Result A

abbrev pub Action : Type 0 → Type 0 → Type 0
Action S A = S → Result A × S

infixl 5 ◌>>=◌ ◌>>◌
abbrev pub ◌>>=◌ : {S A B : Type 0} → Action S A → (A → Action S B) → Action S B
◌>>=◌ m f s = let (r, s') = m s in elim r [ ok a ↦ f a s' | err e ↦ (err e, s') ]

abbrev pub ◌>>◌ : {S A B : Type 0} → Action S A → Action S B → Action S B
m >> k = m >>= λ _. k

module _ {S : Type 0} where
  abbrev pub pure : {A : Type 0} → A → Action S A
  pure a s = (ok a, s)

  abbrev pub throw : {A : Type 0} → ApiError → Action S A
  throw e s = (err e, s)

  abbrev pub gets : {A : Type 0} → (S → A) → Action S A
  gets f s = (ok (f s), s)

  abbrev pub modify : (S → S) → Action S (Unit {0})
  modify f s = (ok tt, f s)

  -- `if (test) throw error;`
  abbrev pub throw_if : Bool → ApiError → Action S (Unit {0})
  throw_if true e s = (err e, s)
  throw_if false e s = (ok tt, s)

  -- `if (!found) throw error;`
  abbrev pub require : {A : Type 0} → Option A → ApiError → Action S A
  require none e s = (err e, s)
  require (some a) e s = (ok a, s)

  -- `for (const x of xs) await body(x);`
  unfoldable pub for_each : {A : Type 0} → (A → Action S (Unit {0})) → List A → Action S (Unit {0})
  for_each body [] s = (ok tt, s)
  for_each body (x ∷ xs) s = (body x >> for_each body xs) s
