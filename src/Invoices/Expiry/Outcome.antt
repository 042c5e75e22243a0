-- ===== src/Invoices/Expiry/Outcome.antt =====
-- The loop of `expire_due_invoices` closes exactly the invoices that are due.
use uza_mobility_bn.Base.{
  ℕ, ◌≡◌, refl, sym, ap, ◌∙◌, Option, none, some, Bool, true, arith, inl, inr, List, [], ◌∷◌,
  Option-cases, Bool-cases, ==_iff, ==_refl, ◌==◌, if◌then◌else◌, length, any, All, Memᴰ,
}
use uza_mobility_bn.Js.{Js}
use uza_mobility_bn.Db.{Prisma, PrismaLaws, on_row}
use uza_mobility_bn.Schema.Commerce.{InvoiceStatus}
use uza_mobility_bn.Schema.Rows.{Invoice}
use uza_mobility_bn.Schema.World.{World}
use uza_mobility_bn.Api.{ok, for_each}
use uza_mobility_bn.Payments.Submission.{invoice_with_status}
use uza_mobility_bn.Invoices.Expiry.{is_due, expire_one, expire_due_invoices}

module _ ⦃N : Js⦄ ⦃P : Prisma⦄ ⦃L : PrismaLaws⦄ where
  open P use {Table, find_unique, find_many, update}
  open L use {find-update, find_many-sound, find_many-complete}

  abbrev pub as_expired : Invoice → Invoice
  as_expired = invoice_with_status InvoiceStatus.expired

  abbrev listed : List (ℕ × Invoice) → ℕ → Bool
  listed es j = any (λ e. e.0 == j) es

  on_row-twice :
      (o : Option Invoice) → on_row as_expired (on_row as_expired o) ≡ on_row as_expired o
  on_row-twice none = refl
  on_row-twice (some r) = refl

  -- The loop never throws, and expires the rows of its list and no other.
  loop-find :
      (es : List (ℕ × Invoice)) (w : World) (j : ℕ)
      → let (r, w') = for_each expire_one es w in
        (r ≡ ok tt)
        × (find_unique w'.invoices j ≡ (
            if listed es j
            then on_row as_expired (find_unique w.invoices j)
            else find_unique w.invoices j))
  unfolding for_each expire_one
  loop-find [] w j = (refl, refl)
  loop-find ((i, invoice) ∷ es) w j =
      let after = (expire_one (i, invoice) w).1 in
      let (returned, rest) = loop-find es after j in
      (
        returned,
        ground (
          arith,
          rest,
          find-update w.invoices i as_expired j,
          on_row-twice (find_unique w.invoices j),
        ),
      )

  listed-Memᴰ :
      (es : List (ℕ × Invoice)) (j : ℕ) (r : Invoice) → Memᴰ (j, r) es → listed es j ≡ true
  listed-Memᴰ [] j r m = elim m [ ]
  listed-Memᴰ (x ∷ es) j r (Memᴰ.head e) =
      let same : j ≡ x.0 = ap (λ y. y.0) e in rw (sym same, ==_refl j)
  listed-Memᴰ (x ∷ es) j r (Memᴰ.tail m) = elim (Bool-cases (x.0 == j)) [
    | inl e ↦ rw e
    | inr e ↦ rw (e, listed-Memᴰ es j r m)
  ]

  All-listed :
      (es : List (ℕ × Invoice)) (t : Table Invoice) (p : ℕ → Invoice → Bool) (j : ℕ) (r : Invoice)
      → All (λ e. (find_unique t e.0 ≡ some e.1) × (p e.0 e.1 ≡ true)) es
      → find_unique t j ≡ some r
      → listed es j ≡ true
      → p j r ≡ true
  All-listed [] t p j r a found h = absurd (ground (arith, h))
  All-listed ((i, x) ∷ es) t p j r ((there, holds), a) found h = elim (Bool-cases (i == j)) [
    | inl e ↦ let same : i ≡ j = (==_iff _ _).0 e in ground (arith, found, there, holds)
    | inr e ↦ All-listed es t p j r a found (ground (arith, h, e))
  ]

  -- The query's list names a row exactly if the row is due.
  listed-is_due :
      (t : Table Invoice) (now j : ℕ) {r : Invoice}
      → find_unique t j ≡ some r
      → listed (find_many t (is_due now)) j ≡ is_due now j r
  listed-is_due t now j {r} e =
      let due = find_many t (is_due now) in
      elim (Bool-cases (is_due now j r)) [
        | inl d ↦ listed-Memᴰ due j r (find_many-complete t (is_due now) j r e d) ∙ sym d
        | inr d ↦ elim (Bool-cases (listed due j)) [
          | inr l ↦ l ∙ sym d
          | inl l ↦
              let holds : is_due now j r ≡ true =
                All-listed due t (is_due now) j r (find_many-sound t (is_due now)) e l in
              absurd (ground (arith, holds, d))
        ]
      ]

  -- The scheduled call returns the number of due invoices, and afterwards each invoice that was due
  -- is expired, while every other one is as it was.
  pub expire_exactly_due :
      (w : World) (j : ℕ)
      → let (r, w') = expire_due_invoices w in
        (r ≡ ok (length (find_many w.invoices (is_due w.now))))
        × (find_unique w'.invoices j
            ≡ on_row (λ x. if is_due w.now j x then as_expired x else x) (find_unique w.invoices j))
  unfolding expire_due_invoices
  expire_exactly_due w j =
      let (returned, rest) = loop-find (find_many w.invoices (is_due w.now)) w j in
      elim (Option-cases (find_unique w.invoices j)) [
        | inl e ↦ (ground (arith, returned), ground (arith, returned, rest, e))
        | inr (r, e) ↦ (
          ground (arith, returned),
          ground (arith, returned, rest, e, listed-is_due w.invoices w.now j e),
        )
      ]
