-- ===== src/Orders/Progress/Cancel.antt =====
-- What `cancel_order` does, on every branch.
use uza_mobility_bn.Base.{
  ℕ, ◌≡◌, none, some, true, false, arith, Option-cases, Bool-cases, inl, inr, ◌⊎◌,
}
use uza_mobility_bn.Base.Text.{◌===◌}
use uza_mobility_bn.Js.{Js}
use uza_mobility_bn.Db.{Prisma}
use uza_mobility_bn.Schema.Commerce.{OrderStatus, order_status_enum}
use uza_mobility_bn.Schema.Rows.{Order}
use uza_mobility_bn.Schema.World.{World}
use uza_mobility_bn.Api.{ApiError, ok, err, bad_request, not_found}
use uza_mobility_bn.Platform.Audit.{RequestAuditContext}
use uza_mobility_bn.Orders.Progress.{cancel_order}

module _ ⦃N : Js⦄ where
  abbrev pub as_cancelled : Order → Order
  as_cancelled order = record order { status = OrderStatus.cancelled }

  module _ ⦃P : Prisma⦄ where
    open P use {find_unique, update}

    module _ (order_id : ℕ) (admin : ℕ) (ctx : RequestAuditContext) (w : World) where
      pub cancel-eq_ok :
          {order : Order}
          → find_unique w.orders order_id ≡ some order
          → (order.status === OrderStatus.cancelled) ≡ false
          → let (r, w') = cancel_order order_id admin ctx w in
            (r ≡ ok (as_cancelled order)) × (w'.orders ≡ update w.orders order_id as_cancelled)
      unfolding cancel_order
      cancel-eq_ok {order} e open_order = ground arith

      abbrev pub CannotCancel : Type 0
      CannotCancel =
          (find_unique w.orders order_id ≡ none)
          ⊎ ((order : Order) × (find_unique w.orders order_id ≡ some order)
              × ((order.status === OrderStatus.cancelled) ≡ true))

      pub cancel_refused :
          CannotCancel → (e : ApiError) × (cancel_order order_id admin ctx w ≡ (err e, w))
      unfolding cancel_order
      cancel_refused (inl e) = (not_found "Order not found", ground arith)
      cancel_refused (inr (order, e, c)) = (bad_request "Order is already cancelled", ground arith)

      pub cancel-cases :
          CannotCancel
          ⊎ ((order : Order) × (find_unique w.orders order_id ≡ some order)
              × ((order.status === OrderStatus.cancelled) ≡ false))
      cancel-cases = elim (Option-cases (find_unique w.orders order_id)) [
        | inl e ↦ inl (inl e)
        | inr (order, e) ↦ elim (Bool-cases (order.status === OrderStatus.cancelled)) [
          | inl c ↦ inl (inr (order, e, c))
          | inr c ↦ inr (order, e, c)
        ]
      ]

      abbrev pub CancelOutcome : Type 0
      CancelOutcome =
          (CannotCancel × ((e : ApiError) × (cancel_order order_id admin ctx w ≡ (err e, w))))
          ⊎ ((order : Order) × (find_unique w.orders order_id ≡ some order)
              × ((order.status === OrderStatus.cancelled) ≡ false)
              × ((cancel_order order_id admin ctx w).0 ≡ ok (as_cancelled order))
              × ((cancel_order order_id admin ctx w).1.orders
                  ≡ update w.orders order_id as_cancelled))

      -- Either the order is missing or cancelled, and the call is refused and changes nothing; or it
      -- is cancelled, alone of all orders. A delivered order can be cancelled.
      pub cancel_outcome : CancelOutcome
      cancel_outcome = elim cancel-cases [
        | inl c ↦ inl (c, cancel_refused c)
        | inr (order, e, o) ↦ let (r, orders) = cancel-eq_ok e o in inr (order, e, o, r, orders)
      ]
