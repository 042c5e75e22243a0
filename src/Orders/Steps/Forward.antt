-- ===== src/Orders/Steps/Forward.antt =====
-- Orders only move forward: no order disappears, a cancelled one stays cancelled, and one that is
-- not cancelled never goes back to an earlier stage.
use uza_mobility_bn.Base.{
  ℕ, suc, ◌≤◌, ◌≡◌, ◌≢◌, refl, ◌∙◌, Option, some, arith, inl, inr, ◌⊎◌, get_or,
}
use uza_mobility_bn.Js.{Js}
use uza_mobility_bn.Db.{Prisma, PrismaLaws}
use uza_mobility_bn.Schema.Catalog.{SellerType}
use uza_mobility_bn.Schema.Commerce.{OrderStatus}
use uza_mobility_bn.Schema.Rows.{Order}
use uza_mobility_bn.Schema.World.{World}
use uza_mobility_bn.Orders.Stages.{order_stages, index_of, get_next_order_status}
use uza_mobility_bn.Orders.Progress.{with_status}
use uza_mobility_bn.Orders.Steps.{
  RowStep, same, created, advanced, cancelled, shipped, OrderHistory, begin, call, elsewhere,
}
use uza_mobility_bn.Orders.Steps.Effects.{call-TableStep}

-- The place of a status among the stages of a kind of seller.
abbrev pub rank : SellerType → OrderStatus → ℕ
rank t s = get_or (index_of (order_stages t) s) 0

next-rank :
    (t : SellerType) (s : OrderStatus) {n : OrderStatus}
    → get_next_order_status t s ≡ some n
    → rank t n ≡ suc (rank t s)
unfolding get_next_order_status
next-rank SellerType.uza_rwanda_stock s e = ground arith
next-rank _ s e = ground arith

next-ne_cancelled :
    (t : SellerType) (s : OrderStatus) {n : OrderStatus}
    → get_next_order_status t s ≡ some n
    → s ≢ OrderStatus.cancelled
unfolding get_next_order_status
next-ne_cancelled SellerType.uza_rwanda_stock s e c = ground arith
next-ne_cancelled _ s e c = ground arith

module _ ⦃N : Js⦄ where
  pub record Forward (o o' : Order) : Type 0 where
    pub same_seller : o'.seller_type ≡ o.seller_type
    pub same_invoice : o'.invoice_id ≡ o.invoice_id
    pub stays_cancelled : o.status ≡ OrderStatus.cancelled → o'.status ≡ OrderStatus.cancelled
    pub no_way_back :
        (o'.status ≡ OrderStatus.cancelled)
        ⊎ (rank o.seller_type o.status ≤ rank o'.seller_type o'.status)

  Forward-refl : (o : Order) → Forward o o
  Forward-refl o = record {
    same_seller = refl;
    same_invoice = refl;
    stays_cancelled = λ c. c;
    no_way_back = inr (omega arith);
  }

  Forward-trans : {o o' o'' : Order} → Forward o o' → Forward o' o'' → Forward o o''
  Forward-trans f g = record {
    same_seller = g.same_seller ∙ f.same_seller;
    same_invoice = g.same_invoice ∙ f.same_invoice;
    stays_cancelled = λ c. g.stays_cancelled (f.stays_cancelled c);
    no_way_back = elim g.no_way_back [
      | inl c ↦ inl c
      | inr le ↦ elim f.no_way_back [
        | inl c ↦ inl (g.stays_cancelled c)
        | inr le' ↦ inr (omega arith)
      ]
    ];
  }

  module _ ⦃P : Prisma⦄ where
    open P use {Table, find_unique}

    Onward : Order → Option Order → Type 0
    Onward o r' = (o' : Order) × (r' ≡ some o') × Forward o o'

    RowStep-Forward :
        {now : ℕ} {t : Table Order} {j : ℕ} {r r' : Option Order}
        → RowStep now t j r r'
        → (o : Order) → r ≡ some o
        → Onward o r'
    unfolding Onward with_status
    RowStep-Forward (same row) o e = (o, e, Forward-refl o)
    RowStep-Forward (created order first new fresh) o e = absurd (ground arith)
    RowStep-Forward {now} (advanced order next n) o e = (
      with_status next now order,
      refl,
      record {
        same_seller = ground arith;
        same_invoice = ground arith;
        stays_cancelled =
            λ c. absurd (ground (arith, next-ne_cancelled order.seller_type order.status n));
        no_way_back = inr (ground (arith, next-rank order.seller_type order.status n));
      },
    )
    RowStep-Forward (cancelled order) o e = (
      record order { status = OrderStatus.cancelled },
      refl,
      record {
        same_seller = ground arith;
        same_invoice = ground arith;
        stays_cancelled = λ c. refl;
        no_way_back = inl refl;
      },
    )
    RowStep-Forward (shipped order vin shipment_id) o e = (
      record order { vin = vin; shipment_id = shipment_id },
      refl,
      record {
        same_seller = ground arith;
        same_invoice = ground arith;
        stays_cancelled = ground arith;
        no_way_back = ground arith;
      },
    )

    module _ ⦃L : PrismaLaws⦄ where
      -- Through every history of calls, an order that was there is still there, for the same invoice
      -- and kind of seller; if it was cancelled it still is, and else it is cancelled or at a stage
      -- that is no earlier.
      pub history-Forward :
          (start : World) {w : World} (j : ℕ) (o : Order)
          → find_unique start.orders j ≡ some o
          → OrderHistory start w
          → (o' : Order) × (find_unique w.orders j ≡ some o') × Forward o o'
      unfolding Onward
      history-Forward start j o e begin = (o, e, Forward-refl o)
      history-Forward start j o e (call {w = before} h c) =
          let (o', e', f) = history-Forward start j o e h in
          let (o'', e'', g) = RowStep-Forward (call-TableStep c before j) o' e' in
          (o'', e'', Forward-trans f g)
      history-Forward start j o e (elsewhere h same_orders) =
          rw same_orders (history-Forward start j o e h)
