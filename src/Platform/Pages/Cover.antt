-- ===== src/Platform/Pages/Cover.antt =====
-- The pages of a list hold each of its rows, once and in order.
use native.Mathlib.Nat.{suc-mul, mul_comm, lt-mul-div-succ}
use uza_mobility_bn.Base.{
  ℕ, zero, suc, ◌+◌, ◌-◌, ◌*◌, ◌/◌, ◌≤◌, ◌<◌, ◌≡◌, refl, sym, ◌∙◌, ap, subst, Bool, some, List, [],
  ◌∷◌, ◌++◌, arith, length, take, skip, inl, inr, Bool-cases, ◌==◌, ==_iff,
}
use uza_mobility_bn.Db.{Prisma, PrismaLaws}
use uza_mobility_bn.Platform.Pages.{total_pages, find_page}

module _ {A : Type 0} where
  take-nil : (n : ℕ) → take {A = A} n [] ≡ []
  take-nil zero = refl
  take-nil (suc n) = refl

  take_add : (m n : ℕ) (xs : List A) → take (m + n) xs ≡ take m xs ++ take n (skip m xs)
  take_add zero n xs = ap (λ k. take k xs) (omega arith)
  take_add (suc m) n [] = take-nil (suc m + n) ∙ sym (take-nil n)
  take_add (suc m) n (x ∷ xs) =
      let next : suc m + n ≡ suc (m + n) = omega arith in
      rw next (ap (λ ys. x ∷ ys) (take_add m n xs))

  take-all : (n : ℕ) (xs : List A) → length xs ≤ n → take n xs ≡ xs
  take-all zero [] h = refl
  take-all zero (x ∷ xs) h = absurd (omega (arith, h))
  take-all (suc n) [] h = refl
  take-all (suc n) (x ∷ xs) h = ap (λ ys. x ∷ ys) (take-all n xs (omega (arith, h)))

  take-length : (n : ℕ) (xs : List A) → length (take n xs) ≤ n
  take-length zero xs = omega arith
  take-length (suc n) [] = omega arith
  take-length (suc n) (x ∷ xs) = omega (arith, take-length n xs)

  -- The first pages, one after the other.
  abbrev pub joined : (ℕ → List A) → ℕ → List A
  joined pages zero = []
  joined pages (suc n) = joined pages n ++ pages (suc n)

  joined-take :
      (limit n : ℕ) (xs : List A)
      → joined (λ k. take limit (skip ((k - 1) * limit) xs)) n ≡ take (n * limit) xs
  joined-take limit zero xs = let none_yet : 0 * limit ≡ 0 = omega arith in rw none_yet refl
  joined-take limit (suc n) xs =
      let before : suc n - 1 ≡ n = omega arith in
      rw (suc-mul n limit, take_add (n * limit) limit xs, before, joined-take limit n xs) refl

enough_pages : (total limit : ℕ) → 0 < limit → total ≤ total_pages total limit * limit
unfolding total_pages
enough_pages total limit pos =
    let pages = (total + (limit - 1)) / limit in
    let above : total + (limit - 1) < limit * (pages + 1) =
      lt-mul-div-succ (total + (limit - 1)) pos in
    let spread : limit * (pages + 1) ≡ pages * limit + limit =
      mul_comm limit (pages + 1)
      ∙ (subst (λ k. k * limit ≡ pages * limit + limit) (omega arith) (suc-mul pages limit)) in
    let enough : total ≤ pages * limit = omega (arith, pos, above, spread) in
    elim (Bool-cases (pages == 0)) [
      | inr some_pages ↦ rw some_pages enough
      | inl no_page ↦
          let none_there : pages ≡ 0 = (==_iff pages 0).0 no_page in
          let few : total ≤ 0 * limit = subst (λ k. total ≤ k * limit) none_there enough in
          rw no_page (omega (arith, few))
    ]

module _ ⦃P : Prisma⦄ ⦃L : PrismaLaws⦄ {R : Type 0} where
  open P use {Table, find_newest, count}

  -- For every limit but zero, the pages from the first to the last, which the list's `totalPages` counts, hold one after the
  -- other exactly the rows that pass the test, in the data base's order, and no page is longer than the limit.
  pub pages_cover :
      (t : Table R) (where_ : ℕ → R → Bool) (default_limit limit : ℕ)
      → 0 < limit
      → let page = λ (k : ℕ).
        find_page t where_ default_limit (record { page = some k; limit = some limit }) in
        (joined (λ k. (page k).items) (page 1).total_pages ≡ find_newest t where_)
        × ((k : ℕ) → length (page k).items ≤ limit)
  unfolding find_page
  pages_cover t where_ default_limit limit pos =
      let rows = find_newest t where_ in
      let fits : length rows ≤ total_pages (count t where_) limit * limit =
        subst (λ k. k ≤ total_pages (count t where_) limit * limit)
          (sym (L.find_newest-length t where_)) (enough_pages (count t where_) limit pos) in
      (
        joined-take limit (total_pages (count t where_) limit) rows ∙ take-all _ rows fits,
        λ k. take-length limit (skip ((k - 1) * limit) rows),
      )
