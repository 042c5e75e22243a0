-- ===== src/Orders/Buyer.antt =====
-- src/modules/orders/orders.service.ts, `findTrackingForUser`: a buyer reads only an own order.
use uza_mobility_bn.Base.{ℕ, String, List, not, ◌==◌}
use uza_mobility_bn.Js.{Js}
use uza_mobility_bn.Db.{Prisma}
use uza_mobility_bn.Schema.Catalog.{SellerType}
use uza_mobility_bn.Schema.Commerce.{OrderStatus}
use uza_mobility_bn.Schema.Rows.{OrderTrackingEvent}
use uza_mobility_bn.Schema.World.{World}
use uza_mobility_bn.Api.{Action, forbidden, ◌>>=◌, ◌>>◌, pure, gets, throw_if}
use uza_mobility_bn.Orders.Stages.{order_stages}
use uza_mobility_bn.Orders.Progress.{get_order_or_throw}

pub record OrderTracking : Type 0 where
  pub id : ℕ
  pub order_number : String
  pub status : OrderStatus
  pub seller_type : SellerType
  pub stages : List OrderStatus
  pub events : List (ℕ × OrderTrackingEvent)

module _ ⦃N : Js⦄ ⦃P : Prisma⦄ where
  open P use {find_many}

  unfoldable pub find_tracking_for_user : ℕ → ℕ → Action World OrderTracking
  unfolding get_order_or_throw order_stages
  find_tracking_for_user user_id order_id = do
    order ← get_order_or_throw order_id
    throw_if (not (order.user_id == user_id)) (forbidden "You do not have access to this order")
    events ← gets (λ w. find_many w.tracking_events (λ _ event. event.order_id == order_id))
    pure (record {
      id = order_id;
      order_number = order.order_number;
      status = order.status;
      seller_type = order.seller_type;
      stages = order_stages order.seller_type;
      events = events;
    })
