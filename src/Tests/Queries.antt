-- ===== src/Tests/Queries.antt =====
-- What the searches of a table of the memory find.
use uza_mobility_bn.Base.{
  ℕ, zero, suc, ◌+◌, ◌<◌, ◌≡◌, refl, sym, ap, Bool, true, false, Option, none, some, List, [], ◌∷◌,
  arith, length, get_elem?, if◌then◌else◌, Bool-cases, inl, inr, All, Memᴰ,
}
use uza_mobility_bn.Db.{on_row}
use uza_mobility_bn.Tests.Tables.{matching, first, change_many, get_elem?-change_many}

module _ {R : Type 0} where
  first-some :
      (p : ℕ → R → Bool) (k : ℕ) (t : List R) (i : ℕ) (r : R)
      → first p k t ≡ some (i, r)
      → (j : ℕ) × (i ≡ k + j) × (get_elem? t j ≡ some r) × (p i r ≡ true)
  first-some p k [] i r e = absurd (ground (arith, e))
  first-some p k (x ∷ t) i r e = elim (Bool-cases (p k x)) [
    | inl h ↦ here (rw h at e) h
    | inr h ↦
        let (j, at_j, there, holds) = first-some p (suc k) t i r (rw h at e) in
        (suc j, omega arith, there, holds)
  ]
    where
      here :
          ◌≡◌ {A = Option (ℕ × R)} (some (k, x)) (some (i, r))
          → p k x ≡ true
          → (j : ℕ) × (i ≡ k + j) × (get_elem? (x ∷ t) j ≡ some r) × (p i r ≡ true)
      here e h =
          let id : i ≡ k = ground (arith, e) in
          let row : r ≡ x = ground (arith, e) in (0, omega arith, ap some (sym row), rw (id, row) h)

  first-none :
      (p : ℕ → R → Bool) (k : ℕ) (t : List R) (j : ℕ) (r : R)
      → first p k t ≡ none
      → get_elem? t j ≡ some r
      → p (k + j) r ≡ false
  first-none p k [] j r e found = absurd (ground (arith, found))
  first-none p k (x ∷ t) j r e found = elim (Bool-cases (p k x)) [
    | inl h ↦ absurd (ground (arith, e, h))
    | inr h ↦
        let e' : first p (suc k) t ≡ none = rw h at e in
        at_place j found (λ i found'. first-none p (suc k) t i r e' found') h
  ]
    where
      at_place :
          (j : ℕ)
          → get_elem? (x ∷ t) j ≡ some r
          → ((i : ℕ) → get_elem? t i ≡ some r → p (suc k + i) r ≡ false)
          → p k x ≡ false
          → p (k + j) r ≡ false
      at_place zero found later h =
          let id : k + 0 ≡ k = omega arith in
          let row : r ≡ x = ground (arith, found) in rw (id, row) h
      at_place (suc j) found later h =
          let id : k + suc j ≡ suc k + j = omega arith in rw id (later j found)

  -- What a listed row is: found at its id, and passing.
  pub Listed : (ℕ → R → Bool) → ℕ → List R → ℕ × R → Type 0
  Listed p k t e = (j : ℕ) × (e.0 ≡ k + j) × (get_elem? t j ≡ some e.1) × (p e.0 e.1 ≡ true)

  All-weaken :
      (p : ℕ → R → Bool) (k : ℕ) (x : R) (t : List R) (es : List (ℕ × R))
      → All (Listed p (suc k) t) es
      → All (Listed p k (x ∷ t)) es
  unfolding Listed
  All-weaken p k x t [] a = tt
  All-weaken p k x t (e ∷ es) ((j, at_j, there, holds), a) =
      ((suc j, omega arith, there, holds), All-weaken p k x t es a)

  pub matching_sound : (p : ℕ → R → Bool) (k : ℕ) (t : List R) → All (Listed p k t) (matching p k t)
  unfolding Listed
  matching_sound p k [] = tt
  matching_sound p k (x ∷ t) =
      let rest = All-weaken p k x t (matching p (suc k) t) (matching_sound p (suc k) t) in
      elim (Bool-cases (p k x)) [
        | inl h ↦ rw h ((0, omega arith, refl, h), rest)
        | inr h ↦ rw h rest
      ]

  pub All-found :
      (p : ℕ → R → Bool) (t : List R) (es : List (ℕ × R))
      → All (Listed p 0 t) es
      → All (λ e. (get_elem? t e.0 ≡ some e.1) × (p e.0 e.1 ≡ true)) es
  unfolding Listed
  All-found p t [] a = tt
  All-found p t (e ∷ es) ((j, at_j, there, holds), a) =
      let id : e.0 ≡ j = omega arith in ((rw id there, holds), All-found p t es a)

  matching-complete :
      (p : ℕ → R → Bool) (k : ℕ) (t : List R) (j : ℕ) (r : R)
      → get_elem? t j ≡ some r
      → p (k + j) r ≡ true
      → Memᴰ (k + j, r) (matching p k t)
  matching-complete p k [] j r found holds = absurd (ground (arith, found))
  matching-complete p k (x ∷ t) zero r found holds =
      let id : k + 0 ≡ k = omega arith in
      let row : r ≡ x = ground (arith, found) in
      let h : p k x ≡ true = rw (id, row) at holds in rw (h, id, row) (Memᴰ.head refl)
  matching-complete p k (x ∷ t) (suc j) r found holds =
      let id : k + suc j ≡ suc k + j = omega arith in
      let m = matching-complete p (suc k) t j r found (rw id at holds) in
      elim (Bool-cases (p k x)) [ inl h ↦ rw (h, id) (Memᴰ.tail m) | inr h ↦ rw (h, id) m ]

  pub length-Memᴰ : (es : List (ℕ × R)) (e : ℕ × R) → Memᴰ e es → 0 < length es
  length-Memᴰ [] e m = elim m [ ]
  length-Memᴰ (x ∷ es) e m = omega arith

  pub found_by_first :
      (p : ℕ → R → Bool) (t : List R) (i : ℕ) (r : R)
      → first p 0 t ≡ some (i, r)
      → (get_elem? t i ≡ some r) × (p i r ≡ true)
  found_by_first p t i r e =
      let (j, at_j, there, holds) = first-some p 0 t i r e in
      let id : i ≡ j = omega arith in (rw id there, holds)

  pub missed_by_first :
      (p : ℕ → R → Bool) (t : List R) (i : ℕ) (r : R)
      → first p 0 t ≡ none
      → get_elem? t i ≡ some r
      → p i r ≡ false
  missed_by_first p t i r e found =
      let id : 0 + i ≡ i = omega arith in rw id at (first-none p 0 t i r e found)

  pub listed_all :
      (p : ℕ → R → Bool) (t : List R) (i : ℕ) (r : R)
      → get_elem? t i ≡ some r
      → p i r ≡ true
      → Memᴰ (i, r) (matching p 0 t)
  listed_all p t i r found holds =
      let id : 0 + i ≡ i = omega arith in rw id at (matching-complete p 0 t i r found (rw id holds))

  pub change_all :
      (p : ℕ → R → Bool) (f : R → R) (t : List R) (j : ℕ)
      → get_elem? (change_many p f 0 t) j ≡ on_row (λ r. if p j r then f r else r) (get_elem? t j)
  change_all p f t j =
      let id : 0 + j ≡ j = omega arith in rw id at (get_elem?-change_many p f 0 t j)

module _ {A : Type 0} where
  -- A list in the opposite order, onto another list.
  abbrev pub onto : List A → List A → List A
  onto [] ys = ys
  onto (x ∷ xs) ys = onto xs (x ∷ ys)

  pub onto-length : (xs ys : List A) → length (onto xs ys) ≡ length xs + length ys
  onto-length [] ys = omega arith
  onto-length (x ∷ xs) ys = omega (arith, onto-length xs (x ∷ ys))

  pub onto-All : (Q : A → Type 0) (xs ys : List A) → All Q xs → All Q ys → All Q (onto xs ys)
  onto-All Q [] ys a b = b
  onto-All Q (x ∷ xs) ys (h, a) b = onto-All Q xs (x ∷ ys) a (h, b)
