-- ===== src/Orders/Progress/Completion.antt =====
-- An order that is advanced often enough is delivered.
use uza_mobility_bn.Base.{
  ℕ, zero, suc, ◌+◌, ◌≡◌, refl, some, true, arith, ==_refl, length, get_elem?, get_elem?-some,
  is_some, ◌-◌,
}
use uza_mobility_bn.Js.{Js}
use uza_mobility_bn.Db.{Prisma, PrismaLaws}
use uza_mobility_bn.Schema.Catalog.{SellerType}
use uza_mobility_bn.Schema.Commerce.{OrderStatus}
use uza_mobility_bn.Schema.Rows.{Order}
use uza_mobility_bn.Schema.World.{World}
use uza_mobility_bn.Platform.Audit.{RequestAuditContext}
use uza_mobility_bn.Orders.Stages.{order_stages}
use uza_mobility_bn.Orders.Stages.Walk.{next-of_index}
use uza_mobility_bn.Orders.Progress.{UpdateOrderStatusDto, with_status, advance_order_status}
use uza_mobility_bn.Orders.Progress.Advance.{advance-eq_ok}

-- The last stage of every kind of seller is the delivery.
last-delivered :
    (t : SellerType) (k : ℕ)
    → suc k ≡ length (order_stages t)
    → get_elem? (order_stages t) k ≡ some OrderStatus.delivered
unfolding order_stages
last-delivered SellerType.uza_rwanda_stock k e = ground arith
last-delivered _ k e = ground arith

suc-sub-one : (m : ℕ) → suc (suc m) - 1 ≡ suc m
suc-sub-one m = omega arith

-- Every kind of seller has two stages or more, and the first one is the confirmed payment.
stages_long :
    (t : SellerType)
    → (m : ℕ) × (length (order_stages t) ≡ suc (suc m))
      × (get_elem? (order_stages t) 0 ≡ some OrderStatus.payment_confirmed)
unfolding order_stages
stages_long SellerType.uza_rwanda_stock = (2, refl, refl)
stages_long SellerType.local_seller = (3, refl, refl)
stages_long SellerType.uza_china_sourcing = (6, refl, refl)
stages_long SellerType.international_seller = (6, refl, refl)

module _ ⦃N : Js⦄ where
  IsDelivered : Order → Type 0
  IsDelivered o = (o.status ≡ OrderStatus.delivered) × (is_some o.actual_delivery_date ≡ true)

  -- Reaching the delivery writes the date.
  with_status-IsDelivered :
      (now : ℕ) (o : Order) {next : OrderStatus}
      → next ≡ OrderStatus.delivered
      → IsDelivered (with_status next now o)
  unfolding with_status IsDelivered
  with_status-IsDelivered now o e = ground arith

  module _ ⦃P : Prisma⦄ ⦃L : PrismaLaws⦄ where
    open P use {find_unique}
    open L use {find-update}

    module _ (order_id : ℕ) (dto : UpdateOrderStatusDto) (admin : ℕ)
        (ctx : RequestAuditContext) where
      -- One call after the other, as long as the count says.
      pub advance_times : ℕ → World → World
      advance_times zero w = w
      advance_times (suc n) w = advance_times n (advance_order_status order_id dto admin ctx w).1

      -- One advance leads from the k-th stage to the one behind it.
      advance_once :
          (k : ℕ) (w : World) {o : Order} {s : OrderStatus}
          → find_unique w.orders order_id ≡ some o
          → get_elem? (order_stages o.seller_type) k ≡ some o.status
          → get_elem? (order_stages o.seller_type) (suc k) ≡ some s
          → find_unique (advance_order_status order_id dto admin ctx w).1.orders order_id
            ≡ some (with_status s w.now o)
      advance_once k w {o} e at_k behind = rw (
        (advance-eq_ok order_id dto admin ctx w e (next-of_index o.seller_type k at_k behind)).1,
        find-update,
        ==_refl order_id,
        e,
      )

      -- With m + 1 stages left, m + 1 advances deliver the order.
      deliver_from :
          (m k : ℕ) (w : World) (o : Order)
          → find_unique w.orders order_id ≡ some o
          → get_elem? (order_stages o.seller_type) k ≡ some o.status
          → k + suc (suc m) ≡ length (order_stages o.seller_type)
          → (o' : Order) × (find_unique (advance_times (suc m) w).orders order_id ≡ some o')
            × (o'.status ≡ OrderStatus.delivered)
            × (is_some o'.actual_delivery_date ≡ true)
      unfolding advance_times with_status IsDelivered
      deliver_from zero k w o e at_k left =
          let behind = last-delivered o.seller_type (suc k) (omega arith) in
          let d = with_status-IsDelivered w.now o refl in
          (with_status OrderStatus.delivered w.now o, advance_once k w e at_k behind, d.0, d.1)
      deliver_from (suc m) k w o e at_k left =
          let (s, behind) = get_elem?-some (order_stages o.seller_type) (suc k) (omega arith) in
          deliver_from m (suc k) (advance_order_status order_id dto admin ctx w).1
            (with_status s w.now o) (advance_once k w e at_k behind) behind (omega arith)

      -- A new order is delivered after as many advances as its kind of seller has stages behind the
      -- first one, with the delivery date written.
      pub new_order_delivered :
          (w : World) (o : Order)
          → find_unique w.orders order_id ≡ some o
          → o.status ≡ OrderStatus.payment_confirmed
          → let w' = advance_times (length (order_stages o.seller_type) - 1) w in
            (o' : Order) × (find_unique w'.orders order_id ≡ some o')
            × (o'.status ≡ OrderStatus.delivered)
            × (is_some o'.actual_delivery_date ≡ true)
      new_order_delivered w o e first =
          let (m, long, head) = stages_long o.seller_type in
          rw long
            (rw (suc-sub-one m) (deliver_from m 0 w o e (rw first head) (rw long (omega arith))))
