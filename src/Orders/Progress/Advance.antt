-- ===== src/Orders/Progress/Advance.antt =====
-- What `advance_order_status` does, on every branch.
use uza_mobility_bn.Base.{ℕ, ◌≡◌, none, some, arith, Option-cases, inl, inr, if◌then◌else◌, ◌⊎◌}
use uza_mobility_bn.Base.Text.{◌===◌}
use uza_mobility_bn.Js.{Js}
use uza_mobility_bn.Db.{Prisma}
use uza_mobility_bn.Schema.Commerce.{OrderStatus, order_status_enum}
use uza_mobility_bn.Schema.Rows.{Order}
use uza_mobility_bn.Schema.World.{World}
use uza_mobility_bn.Api.{ApiError, ok, err, bad_request, not_found}
use uza_mobility_bn.Platform.Settings.{trimmed}
use uza_mobility_bn.Platform.Audit.{RequestAuditContext}
use uza_mobility_bn.Orders.Stages.{get_next_order_status}
use uza_mobility_bn.Orders.Stages.Walk.{next-open}
use uza_mobility_bn.Orders.Delivery.{record_delivery}
use uza_mobility_bn.Orders.Progress.{
  UpdateOrderStatusDto, set_stage, with_status, when_delivered, advance_order_status,
}

module _ ⦃N : Js⦄ ⦃P : Prisma⦄ where
  open P use {find_unique, update}

  record_delivery_ok : (id : ℕ) (w : World) → (record_delivery id w).0 ≡ ok tt
  unfolding record_delivery
  record_delivery_ok id w = ground arith

  when_delivered_ok : (s : OrderStatus) (id : ℕ) (w : World) → (when_delivered s id w).0 ≡ ok tt
  unfolding when_delivered
  when_delivered_ok s id w = ground (arith, record_delivery_ok id w)

  -- Recording a delivery writes no table but that of the metrics.
  record_delivery_frame :
      (id : ℕ) (w : World)
      → let w' = (record_delivery id w).1 in
        w' ≡ record w { sustainability_metrics = w'.sustainability_metrics }
  unfolding record_delivery
  record_delivery_frame id w = ground arith

  when_delivered_frame :
      (s : OrderStatus) (id : ℕ) (w : World)
      → let w' = (when_delivered s id w).1 in
        w' ≡ record w { sustainability_metrics = w'.sustainability_metrics }
  unfolding when_delivered
  when_delivered_frame s id w = ground (arith, record_delivery_frame id w)

  module _ (order_id : ℕ) (dto : UpdateOrderStatusDto) (admin : ℕ) (ctx : RequestAuditContext)
      (w : World) where
    pub advance-eq_ok :
        {order : Order} {next : OrderStatus}
        → find_unique w.orders order_id ≡ some order
        → get_next_order_status order.seller_type order.status ≡ some next
        → let (r, w') = advance_order_status order_id dto admin ctx w in
          (r ≡ ok (with_status next w.now order))
          × (w'.orders ≡ update w.orders order_id (with_status next w.now))
          × (w'.invoices ≡ w.invoices)
    unfolding advance_order_status
    advance-eq_ok {order} {next} e n =
        let w₁ =
          set_stage order_id next (trimmed dto.description) (trimmed dto.location) admin
            (with_status next w.now) w in
        ground (
          arith,
          next-open order.seller_type order.status n,
          when_delivered_ok next order_id w₁,
          when_delivered_frame next order_id w₁,
        )

    -- The order is not there, or there is no stage after the one that it is at.
    abbrev pub CannotAdvance : Type 0
    CannotAdvance =
        (find_unique w.orders order_id ≡ none)
        ⊎ ((order : Order) × (find_unique w.orders order_id ≡ some order)
            × (get_next_order_status order.seller_type order.status ≡ none))

    pub advance_refused :
        CannotAdvance
        → (e : ApiError) × (advance_order_status order_id dto admin ctx w ≡ (err e, w))
    unfolding advance_order_status
    advance_refused (inl e) = (not_found "Order not found", ground arith)
    advance_refused (inr (order, e, n)) = (
      if order.status === OrderStatus.cancelled
          then bad_request "Cancelled orders cannot be advanced"
          else bad_request "Order is already at final stage",
      ground arith,
    )

    -- Either the call is refused and changes nothing, or the order moves on by one stage.
    pub advance-cases :
        CannotAdvance
        ⊎ ((order : Order) × (next : OrderStatus) × (find_unique w.orders order_id ≡ some order)
            × (get_next_order_status order.seller_type order.status ≡ some next))
    advance-cases = elim (Option-cases (find_unique w.orders order_id)) [
      | inl e ↦ inl (inl e)
      | inr (order, e) ↦
          elim (Option-cases (get_next_order_status order.seller_type order.status)) [
            | inl n ↦ inl (inr (order, e, n))
            | inr (next, n) ↦ inr (order, next, e, n)
          ]
    ]

    abbrev pub AdvanceOutcome : Type 0
    AdvanceOutcome =
        (CannotAdvance
          × ((e : ApiError) × (advance_order_status order_id dto admin ctx w ≡ (err e, w))))
        ⊎ ((order : Order) × (next : OrderStatus) × (find_unique w.orders order_id ≡ some order)
            × (get_next_order_status order.seller_type order.status ≡ some next)
            × ((advance_order_status order_id dto admin ctx w).0
                ≡ ok (with_status next w.now order))
            × ((advance_order_status order_id dto admin ctx w).1.orders
                ≡ update w.orders order_id (with_status next w.now))
            × ((advance_order_status order_id dto admin ctx w).1.invoices ≡ w.invoices))

    -- Either the order is missing or has no next stage, and the call is refused and changes nothing;
    -- or the order moves to the stage behind its own, alone of all orders, and no invoice changes.
    pub advance_outcome : AdvanceOutcome
    advance_outcome = elim advance-cases [
      | inl c ↦ inl (c, advance_refused c)
      | inr (order, next, e, n) ↦
          let (r, orders, invoices) = advance-eq_ok e n in
          inr (order, next, e, n, r, orders, invoices)
    ]
