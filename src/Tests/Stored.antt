-- ===== src/Tests/Stored.antt =====
-- Tables that remember where a row was deleted, over the lemmas on lists of rows.
use uza_mobility_bn.Base.{
  ℕ, ◌≡◌, refl, sym, subst, ◌∙◌, Bool, true, false, Option, none, some, List, [], ◌∷◌, ◌++◌, arith,
  length, get_elem?, if◌then◌else◌, ◌==◌, Bool-cases, Option-cases, inl, inr, All, Memᴰ, ap,
}
use uza_mobility_bn.Db.{on_row, unless}
use uza_mobility_bn.Tests.Tables.{
  matching, first, change, change_many, get_elem?-length, get_elem?-append, get_elem?-change,
}
use uza_mobility_bn.Tests.Queries.{found_by_first, missed_by_first, listed_all, change_all}

module _ {R : Type 0} where
  -- A list of rows, none of which is deleted.
  abbrev pub stored : List R → List (Option R)
  stored [] = []
  stored (r ∷ t) = some r ∷ stored t

  abbrev pub join : Option (Option R) → Option R
  join none = none
  join (some o) = o

  -- A test that no deleted row passes.
  abbrev pub lift : (ℕ → R → Bool) → ℕ → Option R → Bool
  lift p i none = false
  lift p i (some r) = p i r

  abbrev pub join_found : Option (ℕ × Option R) → Option (ℕ × R)
  join_found none = none
  join_found (some (i, none)) = none
  join_found (some (i, some r)) = some (i, r)

  abbrev pub pick : List (ℕ × Option R) → List (ℕ × R)
  pick [] = []
  pick ((i, none) ∷ es) = pick es
  pick ((i, some r) ∷ es) = (i, r) ∷ pick es

  join-if :
      (b : Bool) (x y : Option (Option R))
      → join (if b then x else y) ≡ (if b then join x else join y)
  join-if true x y = refl
  join-if false x y = refl

  pub stored-new_id : (t : List (Option R)) → join (get_elem? t (length t)) ≡ none
  stored-new_id t = rw (get_elem?-length t) refl

  pub stored-insert :
      (t : List (Option R)) (r : R) (j : ℕ)
      → join (get_elem? (t ++ (some r ∷ [])) j)
        ≡ (if length t == j then some r else join (get_elem? t j))
  stored-insert t r j = rw (get_elem?-append t (some r) j) (join-if (length t == j) _ _)

  join-on_row : (f : R → R) (o : Option (Option R)) → join (on_row (on_row f) o) ≡ on_row f (join o)
  join-on_row f none = refl
  join-on_row f (some o) = refl

  pub stored-update :
      (t : List (Option R)) (i : ℕ) (f : R → R) (j : ℕ)
      → join (get_elem? (change t i (on_row f)) j)
        ≡ (if i == j then on_row f (join (get_elem? t j)) else join (get_elem? t j))
  stored-update t i f j = elim (Bool-cases (i == j)) [
    | inl h ↦ rw (get_elem?-change t i (on_row f) j, h) (join-on_row f (get_elem? t j))
    | inr h ↦ rw (get_elem?-change t i (on_row f) j, h) refl
  ]

  on_many :
      (p : ℕ → R → Bool) (f : R → R) (j : ℕ) (o : Option (Option R))
      → join (on_row (λ x. if lift p j x then on_row f x else x) o)
        ≡ on_row (λ r. if p j r then f r else r) (join o)
  on_many p f j none = refl
  on_many p f j (some none) = refl
  on_many p f j (some (some r)) = elim (Bool-cases (p j r)) [
    | inl h ↦ rw h refl
    | inr h ↦ rw h refl
  ]

  off_many :
      (p : ℕ → R → Bool) (j : ℕ) (o : Option (Option R))
      → join (on_row (λ x. if lift p j x then none else x) o) ≡ unless (p j) (join o)
  off_many p j none = refl
  off_many p j (some none) = refl
  off_many p j (some (some r)) = elim (Bool-cases (p j r)) [ inl h ↦ rw h refl | inr h ↦ rw h refl ]

  pub stored-update_many :
      (t : List (Option R)) (p : ℕ → R → Bool) (f : R → R) (j : ℕ)
      → join (get_elem? (change_many (lift p) (on_row f) 0 t) j)
        ≡ on_row (λ r. if p j r then f r else r) (join (get_elem? t j))
  stored-update_many t p f j =
      ap join (change_all (lift p) (on_row f) t j) ∙ on_many p f j (get_elem? t j)

  pub stored-delete_many :
      (t : List (Option R)) (p : ℕ → R → Bool) (j : ℕ)
      → join (get_elem? (change_many (lift p) (λ _. none) 0 t) j)
        ≡ unless (p j) (join (get_elem? t j))
  stored-delete_many t p j =
      ap join (change_all (lift p) (λ _. none) t j) ∙ off_many p j (get_elem? t j)

  pub stored-first :
      (t : List (Option R)) (p : ℕ → R → Bool) (i : ℕ) (r : R)
      → join_found (first (lift p) 0 t) ≡ some (i, r)
      → (join (get_elem? t i) ≡ some r) × (p i r ≡ true)
  stored-first t p i r e = elim (Option-cases (first (lift p) 0 t)) [
    | inl n ↦ absurd (ground (arith, e, n))
    | inr ((k, none), f) ↦ absurd (ground (arith, e, f))
    | inr ((k, some x), f) ↦
        let (there, holds) = found_by_first (lift p) t k (some x) f in
        let same_id : k ≡ i = ground (arith, e, f) in
        let same_row : x ≡ r = ground (arith, e, f) in
        (
          rw (sym same_id, there, same_row) refl,
          subst (λ n. p n r ≡ true) same_id (subst (λ y. p k y ≡ true) same_row holds),
        )
  ]

  none_found :
      (t : List (Option R)) (p : ℕ → R → Bool)
      → join_found (first (lift p) 0 t) ≡ none
      → first (lift p) 0 t ≡ none
  none_found t p e = elim (Option-cases (first (lift p) 0 t)) [
    | inl n ↦ n
    | inr ((k, none), f) ↦
        let (_, holds) = found_by_first (lift p) t k none f in absurd (ground (arith, holds))
    | inr ((k, some x), f) ↦ absurd (ground (arith, e, f))
  ]

  pub stored-missed :
      (t : List (Option R)) (p : ℕ → R → Bool) (i : ℕ) (r : R)
      → join_found (first (lift p) 0 t) ≡ none
      → join (get_elem? t i) ≡ some r
      → p i r ≡ false
  stored-missed t p i r e there = elim (Option-cases (get_elem? t i)) [
    | inl n ↦ absurd (ground (arith, there, n))
    | inr (none, f) ↦ absurd (ground (arith, there, f))
    | inr (some x, f) ↦
        let same : x ≡ r = ground (arith, there, f) in
        let missed : first (lift p) 0 t ≡ none = none_found t p e in
        subst (λ y. p i y ≡ false) same (missed_by_first (lift p) t i (some x) missed f)
  ]

  pub stored_sound :
      (t : List (Option R)) (p : ℕ → R → Bool) (es : List (ℕ × Option R))
      → All (λ x. (get_elem? t x.0 ≡ some x.1) × (lift p x.0 x.1 ≡ true)) es
      → All (λ x. (join (get_elem? t x.0) ≡ some x.1) × (p x.0 x.1 ≡ true)) (pick es)
  stored_sound t p [] a = tt
  stored_sound t p ((i, none) ∷ es) (h, a) = stored_sound t p es a
  stored_sound t p ((i, some r) ∷ es) ((there, holds), a) =
      ((ap join there, holds), stored_sound t p es a)

  pick-Memᴰ :
      (i : ℕ) (r : R) (es : List (ℕ × Option R)) → Memᴰ (i, some r) es → Memᴰ (i, r) (pick es)
  pick-Memᴰ i r [] m = elim m [ ]
  pick-Memᴰ i r ((k, none) ∷ es) (Memᴰ.head e) = absurd (ground (arith, e))
  pick-Memᴰ i r ((k, none) ∷ es) (Memᴰ.tail m) = pick-Memᴰ i r es m
  pick-Memᴰ i r ((k, some x) ∷ es) (Memᴰ.head e) =
      let same_id : i ≡ k = ground (arith, e) in
      let same_row : r ≡ x = ground (arith, e) in rw (same_id, same_row) (Memᴰ.head refl)
  pick-Memᴰ i r ((k, some x) ∷ es) (Memᴰ.tail m) = Memᴰ.tail (pick-Memᴰ i r es m)

  pub stored-listed :
      (t : List (Option R)) (p : ℕ → R → Bool) (i : ℕ) (r : R)
      → join (get_elem? t i) ≡ some r
      → p i r ≡ true
      → Memᴰ (i, r) (pick (matching (lift p) 0 t))
  stored-listed t p i r there holds = elim (Option-cases (get_elem? t i)) [
    | inl n ↦ absurd (ground (arith, there, n))
    | inr (none, f) ↦ absurd (ground (arith, there, f))
    | inr (some x, f) ↦
        let same : some x ≡ some r = ground (arith, there, f) in
        pick-Memᴰ i r (matching (lift p) 0 t)
          (listed_all (lift p) t i (some r) (f ∙ ap some same) holds)
  ]
