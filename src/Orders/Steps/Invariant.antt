-- ===== src/Orders/Steps/Invariant.antt =====
-- The invariants of the table of orders, through every history of calls.
use uza_mobility_bn.Base.{
  ℕ, ◌≡◌, ◌≢◌, refl, sym, ◌∙◌, Option, none, some, Bool, true, arith, inl, inr, ◌⊎◌, is_some, subst,
}
use uza_mobility_bn.Js.{Js}
use uza_mobility_bn.Db.{Prisma, PrismaLaws}
use uza_mobility_bn.Schema.Catalog.{SellerType}
use uza_mobility_bn.Schema.Commerce.{OrderStatus, order_status_enum}
use uza_mobility_bn.Schema.Rows.{Order}
use uza_mobility_bn.Schema.World.{World}
use uza_mobility_bn.Orders.Stages.{order_stages, index_of, get_next_order_status}
use uza_mobility_bn.Orders.Progress.{with_status}
use uza_mobility_bn.Orders.Steps.{
  RowStep, same, created, advanced, cancelled, shipped, OrderHistory, begin, call, elsewhere,
}
use uza_mobility_bn.Orders.Steps.Effects.{TableStep, call-TableStep}

abbrev pub is_stage : SellerType → OrderStatus → Bool
is_stage t s = is_some (index_of (order_stages t) s)

next-is_stage :
    (t : SellerType) (s : OrderStatus) {n : OrderStatus}
    → get_next_order_status t s ≡ some n
    → is_stage t n ≡ true
unfolding get_next_order_status
next-is_stage SellerType.uza_rwanda_stock s e = ground arith
next-is_stage _ s e = ground arith

first-is_stage : (t : SellerType) → is_stage t OrderStatus.payment_confirmed ≡ true
unfolding order_stages
first-is_stage SellerType.uza_rwanda_stock = refl
first-is_stage _ = refl

module _ ⦃N : Js⦄ where
  -- The status is a stage of the order's kind of seller, or the order is cancelled; and a
  -- delivered order has its delivery date.
  pub record IsValidOrder (order : Order) : Type 0 where
    pub on_track :
        (is_stage order.seller_type order.status ≡ true) ⊎ (order.status ≡ OrderStatus.cancelled)
    pub dated : order.status ≡ OrderStatus.delivered → is_some order.actual_delivery_date ≡ true

  abbrev IsValidRow : Option Order → Type 0
  IsValidRow none = Unit
  IsValidRow (some order) = IsValidOrder order

  module _ ⦃P : Prisma⦄ where
    open P use {Table, find_unique}

    RowStep-IsValidRow :
        {now : ℕ} {t : Table Order} {j : ℕ} {r r' : Option Order}
        → RowStep now t j r r'
        → IsValidRow r
        → IsValidRow r'
    unfolding with_status
    RowStep-IsValidRow (same row) v = v
    RowStep-IsValidRow (created order first new fresh) v = record {
      on_track = inl (rw first (first-is_stage order.seller_type));
      dated = ground arith;
    }
    RowStep-IsValidRow (advanced order next n) v = record {
      on_track = inl (next-is_stage order.seller_type order.status n);
      dated = ground arith;
    }
    RowStep-IsValidRow (cancelled order) v = record { on_track = inr refl; dated = ground arith }
    RowStep-IsValidRow (shipped order vin shipment_id) v = record {
      on_track = v.on_track;
      dated = v.dated;
    }

    abbrev pub AllValid : Table Order → Type 0
    AllValid t = (j : ℕ) (order : Order) → find_unique t j ≡ some order → IsValidOrder order

    row_of : (t : Table Order) (j : ℕ) → AllValid t → IsValidRow (find_unique t j)
    row_of t j v = go (find_unique t j) refl
      where
        go : (r : Option Order) → find_unique t j ≡ r → IsValidRow r
        go none e = tt
        go (some order) e = v j order e

    TableStep-AllValid :
        {now : ℕ} {t t' : Table Order} → TableStep now t t' → AllValid t → AllValid t'
    TableStep-AllValid {now} {t} {t'} step v j order e =
        subst IsValidRow e (RowStep-IsValidRow (step j) (row_of t j v))

    -- No two orders are of one invoice.
    abbrev pub OnePerInvoice : Table Order → Type 0
    OnePerInvoice t =
        (i j : ℕ) (o o' : Order)
        → find_unique t i ≡ some o
        → find_unique t j ≡ some o'
        → o.invoice_id ≡ o'.invoice_id
        → i ≡ j

    -- Where a row comes from: the same row with its invoice kept, or the one new row.
    Origin : Table Order → ℕ → Option Order → Order → Type 0
    Origin t j r o' =
        ((o : Order) × (r ≡ some o) × (o.invoice_id ≡ o'.invoice_id))
        ⊎ ((P.new_id t ≡ j)
            × ((i : ℕ) (o : Order) → find_unique t i ≡ some o → o.invoice_id ≢ o'.invoice_id))

    origin :
        {now : ℕ} {t : Table Order} {j : ℕ} {r r' : Option Order}
        → RowStep now t j r r'
        → (o' : Order) → r' ≡ some o'
        → Origin t j r o'
    unfolding Origin with_status
    origin (same row) o' e = inl (o', e, refl)
    origin (created order first new fresh) o' e =
        let moved : order.invoice_id ≡ o'.invoice_id = ground arith in
        inr (new, λ i o found same_invoice. fresh i o found (same_invoice ∙ sym moved))
    origin (advanced order next n) o' e = inl (order, refl, ground arith)
    origin (cancelled order) o' e = inl (order, refl, ground arith)
    origin (shipped order vin shipment_id) o' e = inl (order, refl, ground arith)

    TableStep-OnePerInvoice :
        {now : ℕ} {t t' : Table Order} → TableStep now t t' → OnePerInvoice t → OnePerInvoice t'
    unfolding Origin
    TableStep-OnePerInvoice {now} {t} {t'} step one i j o o' found found' same_invoice =
        join (origin (step i) o found) (origin (step j) o' found')
      where
        join : Origin t i (find_unique t i) o → Origin t j (find_unique t j) o' → i ≡ j
        join (inl (p, e, k)) (inl (q, f, l)) = one i j p q e f (k ∙ same_invoice ∙ sym l)
        join (inl (p, e, k)) (inr (new, fresh)) = absurd (fresh i p e (k ∙ same_invoice))
        join (inr (new, fresh)) (inl (q, f, l)) = absurd (fresh j q f (l ∙ sym same_invoice))
        join (inr (new, fresh)) (inr (new', fresh')) = sym new ∙ new'

    module _ ⦃L : PrismaLaws⦄ where
      -- Through every history of calls of the order service, in any order, with anything between
      -- them that leaves the orders alone: if at the start each order is valid and no two are of one
      -- invoice, so it is at the end.
      pub history_valid :
          (start : World) {w : World}
          → AllValid start.orders
          → OnePerInvoice start.orders
          → OrderHistory start w
          → AllValid w.orders × OnePerInvoice w.orders
      history_valid start v one begin = (v, one)
      history_valid start v one (call {w = before} h c) =
          let (v', one') = history_valid start v one h in
          let step = call-TableStep c before in
          (TableStep-AllValid step v', TableStep-OnePerInvoice step one')
      history_valid start v one (elsewhere h e) = rw e (history_valid start v one h)
