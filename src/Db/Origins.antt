-- ===== src/Db/Origins.antt =====
-- Where a row of a changed table comes from.
use uza_mobility_bn.Base.{
  ℕ, ◌≡◌, refl, Option, none, some, arith, inl, inr, ◌⊎◌, ==_iff, ◌==◌, Bool-cases,
}
use uza_mobility_bn.Db.{Prisma, PrismaLaws, on_row}

module _ ⦃P : Prisma⦄ ⦃L : PrismaLaws⦄ {R : Type 0} where
  open P use {Table, find_unique, insert, update, new_id}
  open L use {find-insert, find-update}

  pub insert_origin :
      (t : Table R) (r a : R) (i : ℕ)
      → find_unique (insert t r) i ≡ some a
      → ((new_id t ≡ i) × (r ≡ a)) ⊎ (find_unique t i ≡ some a)
  insert_origin t r a i e = elim (Bool-cases (new_id t == i)) [
    | inl h ↦
        let found : some r ≡ some a = rw (find-insert t r i, h) at e in
        inl ((==_iff _ _).0 h, ground (arith, found))
    | inr h ↦ inr (rw (find-insert t r i, h) at e)
  ]

  on_row-some :
      (f : R → R) (o : Option R) (a : R) → on_row f o ≡ some a → (b : R) × (o ≡ some b) × (f b ≡ a)
  on_row-some f none a e = absurd (ground (arith, e))
  on_row-some f (some b) a e = (b, refl, ground (arith, e))

  pub update_origin :
      (t : Table R) (k : ℕ) (f : R → R) (a : R) (i : ℕ)
      → find_unique (update t k f) i ≡ some a
      → (b : R) × (find_unique t i ≡ some b) × ((f b ≡ a) ⊎ (b ≡ a))
  update_origin t k f a i e = elim (Bool-cases (k == i)) [
    | inl h ↦
        let (b, there, same) = on_row-some f _ a (rw (find-update t k f i, h) at e) in
        (b, there, inl same)
    | inr h ↦ (a, rw (find-update t k f i, h) at e, inr refl)
  ]
