-- ===== src/Tests/Tables.antt =====
-- Tables as lists of rows, and what the changes of a table do to its rows.
use uza_mobility_bn.Base.{
  ℕ, zero, suc, ◌+◌, ◌≡◌, refl, Bool, Option, none, some, List, [], ◌∷◌, ◌++◌, arith, length,
  get_elem?, if◌then◌else◌, ◌==◌,
}
use uza_mobility_bn.Db.{on_row}

module _ {R : Type 0} where
  -- The rows that pass a test, with their ids, where the list begins at the id `k`.
  abbrev pub matching : (ℕ → R → Bool) → ℕ → List R → List (ℕ × R)
  matching p k [] = []
  matching p k (r ∷ t) = let rest = matching p (suc k) t in if p k r then (k, r) ∷ rest else rest

  abbrev pub first : (ℕ → R → Bool) → ℕ → List R → Option (ℕ × R)
  first p k [] = none
  first p k (r ∷ t) = let rest = first p (suc k) t in if p k r then some (k, r) else rest

  -- The last row that passes: numbers that grow are in the order of creation.
  abbrev pub last : (R → Bool) → List R → Option R → Option R
  last p [] o = o
  last p (r ∷ t) o = last p t (if p r then some r else o)

  abbrev pub change : List R → ℕ → (R → R) → List R
  change [] i f = []
  change (r ∷ t) zero f = f r ∷ t
  change (r ∷ t) (suc i) f = r ∷ change t i f

  abbrev pub change_many : (ℕ → R → Bool) → (R → R) → ℕ → List R → List R
  change_many p f k [] = []
  change_many p f k (r ∷ t) = (if p k r then f r else r) ∷ change_many p f (suc k) t

  pub get_elem?-length : (t : List R) → get_elem? t (length t) ≡ none
  get_elem?-length [] = refl
  get_elem?-length (r ∷ t) = get_elem?-length t

  pub get_elem?-append :
      (t : List R) (r : R) (j : ℕ)
      → get_elem? (t ++ (r ∷ [])) j ≡ (if length t == j then some r else get_elem? t j)
  get_elem?-append [] r zero = refl
  get_elem?-append [] r (suc j) = ground arith
  get_elem?-append (x ∷ t) r zero = ground arith
  get_elem?-append (x ∷ t) r (suc j) = ground (arith, get_elem?-append t r j)

  pub get_elem?-change :
      (t : List R) (i : ℕ) (f : R → R) (j : ℕ)
      → get_elem? (change t i f) j ≡ (if i == j then on_row f (get_elem? t j) else get_elem? t j)
  get_elem?-change [] i f j = ground arith
  get_elem?-change (r ∷ t) zero f zero = refl
  get_elem?-change (r ∷ t) zero f (suc j) = ground arith
  get_elem?-change (r ∷ t) (suc i) f zero = ground arith
  get_elem?-change (r ∷ t) (suc i) f (suc j) = ground (arith, get_elem?-change t i f j)

  pub get_elem?-change_many :
      (p : ℕ → R → Bool) (f : R → R) (k : ℕ) (t : List R) (j : ℕ)
      → get_elem? (change_many p f k t) j
        ≡ on_row (λ r. if p (k + j) r then f r else r) (get_elem? t j)
  get_elem?-change_many p f k [] j = refl
  get_elem?-change_many p f k (r ∷ t) zero = ground arith
  get_elem?-change_many p f k (r ∷ t) (suc j) =
      let e : k + suc j ≡ suc k + j = omega arith in rw e (get_elem?-change_many p f (suc k) t j)
