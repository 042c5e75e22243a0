-- ===== src/Orders/Progress.antt =====
-- src/modules/orders/orders.service.ts: `advanceOrderStatus` and `cancelOrder`.
pub mod Advance
pub mod Cancel
pub mod Completion
use uza_mobility_bn.Base.{ℕ, Option, none, some, String, List, [], ◌∷◌, ◌++◌, if◌then◌else◌}
use uza_mobility_bn.Base.Text.{◌<>◌, ◌===◌, name_of}
use uza_mobility_bn.Js.{Js}
use uza_mobility_bn.Db.{Prisma}
use uza_mobility_bn.Schema.Commerce.{OrderStatus, order_status_enum}
use uza_mobility_bn.Schema.Requests.{NotificationType}
use uza_mobility_bn.Schema.Rows.{Order, OrderTrackingEvent, Json}
use uza_mobility_bn.Schema.World.{World}
use uza_mobility_bn.Api.{
  Action, ok, bad_request, not_found, ◌>>=◌, ◌>>◌, pure, gets, modify, throw_if, require,
}
use uza_mobility_bn.Platform.Settings.{trimmed}
use uza_mobility_bn.Platform.Notifications.{Message, send}
use uza_mobility_bn.Platform.Audit.{RequestAuditContext, record_activity}
use uza_mobility_bn.Orders.Stages.{stage_label, stage_buyer_message, get_next_order_status}
use uza_mobility_bn.Orders.Delivery.{record_delivery}

pub record UpdateOrderStatusDto : Type 0 where
  pub description : Option String
  pub location : Option String

-- `parts.join('\n\n')`
pub join_paragraphs : List String → String
join_paragraphs [] = ""
join_paragraphs (p ∷ []) = p
join_paragraphs (p ∷ q ∷ ps) = p <> "\n\n" <> join_paragraphs (q ∷ ps)

abbrev labelled : String → Option String → List String
labelled label none = []
labelled label (some text) = (label <> text) ∷ []

module _ ⦃N : Js⦄ where
  -- The data of the two updates: a new status, with the delivery date once it is delivered.
  unfoldable pub with_status : OrderStatus → ℕ → Order → Order
  with_status next now order = record order {
    status = next;
    actual_delivery_date =
        if next === OrderStatus.delivered then some now else order.actual_delivery_date;
  }

  stage_event : ℕ → OrderStatus → Option String → Option String → ℕ → OrderTrackingEvent
  unfolding stage_label
  stage_event order_id stage description location performed_by = record {
    order_id = order_id;
    stage = stage;
    title = stage_label stage;
    description = description;
    location = location;
    performed_by = some performed_by;
  }

  order_update : ℕ → Order → OrderStatus → Option String → Option String → Message
  unfolding stage_label stage_buyer_message join_paragraphs
  order_update order_id order next note location = record {
    kind = NotificationType.order_status_updated;
    title = "Order update: " <> stage_label next;
    body = join_paragraphs (
        ("Your order "
            <> order.order_number
            <> " moved from "
            <> stage_label order.status
            <> " to "
            <> stage_label next
            <> ".")
          ∷ stage_buyer_message next
          ∷ labelled "Location: " location
        ++ labelled "Note from our team: " note
        ++ "You can track progress anytime in your UZA Mobility account." ∷ []);
    metadata =
        ("orderId", Json.id order_id)
        ∷ ("status", Json.text (name_of next))
        ∷ ("from", Json.text (name_of order.status))
        ∷ ("to", Json.text (name_of next))
        ∷ [];
  }

  module _ ⦃P : Prisma⦄ where
    open P use {find_unique, insert, update}

    unfoldable pub get_order_or_throw : ℕ → Action World Order
    get_order_or_throw order_id w =
        require (find_unique w.orders order_id) (not_found "Order not found") w

    -- The transaction of both operations: the new status, and a tracking event for it.
    unfoldable pub set_stage :
        ℕ → OrderStatus → Option String → Option String → ℕ → (Order → Order) → World → World
    unfolding stage_event
    set_stage order_id stage description location admin change w = record w {
      orders = update w.orders order_id change;
      tracking_events =
          insert w.tracking_events (stage_event order_id stage description location admin);
    }

    -- `if (next === DELIVERED) await recordDelivery(orderId);`
    when_delivered : OrderStatus → ℕ → Action World (Unit {0})
    when_delivered next order_id w =
        if next === OrderStatus.delivered then record_delivery order_id w else (ok tt, w)

    unfoldable pub advance_order_status :
        ℕ → UpdateOrderStatusDto → ℕ → RequestAuditContext → Action World Order
    unfolding get_order_or_throw set_stage when_delivered order_update send record_activity
    advance_order_status order_id dto admin ctx = do
      order ← get_order_or_throw order_id
      throw_if (order.status === OrderStatus.cancelled)
          (bad_request "Cancelled orders cannot be advanced")
      throw_if (order.status === OrderStatus.delivered)
          (bad_request "Order is already at final stage")
      next ←
          require (get_next_order_status order.seller_type order.status)
            (bad_request "Order is already at final stage")
      now ← gets (λ w. w.now)
      let note = trimmed dto.description
      let location = trimmed dto.location
      modify (set_stage order_id next note location admin (with_status next now))
      when_delivered next order_id
      send order.user_id (order_update order_id order next note location)
      record_activity admin "orders:status-updated" "Order" none ctx (
          some (
            ("email", Json.nullable ctx.actor_email)
            ∷ ("orderNumber", Json.text order.order_number)
            ∷ ("from", Json.text (name_of order.status))
            ∷ ("to", Json.text (name_of next))
            ∷ []))
      pure (with_status next now order)

    unfoldable pub cancel_order : ℕ → ℕ → RequestAuditContext → Action World Order
    unfolding get_order_or_throw set_stage record_activity
    cancel_order order_id admin ctx = do
      order ← get_order_or_throw order_id
      throw_if (order.status === OrderStatus.cancelled) (bad_request "Order is already cancelled")
      let change = λ (o : Order). record o { status = OrderStatus.cancelled }
      modify (
          set_stage order_id OrderStatus.cancelled (some "Order cancelled by administrator") none
            admin change)
      record_activity admin "orders:cancelled" "Order" none ctx (
          some (
            ("email", Json.nullable ctx.actor_email)
            ∷ ("orderNumber", Json.text order.order_number)
            ∷ []))
      pure (change order)
