-- ===== src/Orders/Stages.antt =====
-- src/modules/orders/order-stages.ts: the stages for each kind of seller, and their texts.
pub mod Walk
use uza_mobility_bn.Base.{
  ℕ, suc, ◌+◌, ◌-◌, Option, none, some, String, List, [], ◌∷◌, if◌then◌else◌, leb, length,
  get_elem?,
}
use uza_mobility_bn.Base.Text.{◌===◌}
use uza_mobility_bn.Schema.Catalog.{SellerType}
use uza_mobility_bn.Schema.Commerce.{OrderStatus, order_status_enum}

-- `ORDER_STAGES`
unfoldable pub order_stages : SellerType → List OrderStatus
order_stages SellerType.uza_rwanda_stock =
    OrderStatus.payment_confirmed ∷ OrderStatus.vehicle_reserved ∷ OrderStatus.ready_for_handover
    ∷ OrderStatus.delivered ∷ []
order_stages SellerType.local_seller =
    OrderStatus.payment_confirmed ∷ OrderStatus.vehicle_reserved ∷ OrderStatus.processing
    ∷ OrderStatus.ready_for_handover ∷ OrderStatus.delivered ∷ []
order_stages SellerType.uza_china_sourcing =
    OrderStatus.payment_confirmed ∷ OrderStatus.vehicle_reserved ∷ OrderStatus.processing
    ∷ OrderStatus.in_transit ∷ OrderStatus.arrived ∷ OrderStatus.clearance
    ∷ OrderStatus.ready_for_handover ∷ OrderStatus.delivered ∷ []
order_stages SellerType.international_seller =
    OrderStatus.payment_confirmed ∷ OrderStatus.vehicle_reserved ∷ OrderStatus.processing
    ∷ OrderStatus.in_transit ∷ OrderStatus.arrived ∷ OrderStatus.clearance
    ∷ OrderStatus.ready_for_handover ∷ OrderStatus.delivered ∷ []

-- `STAGE_LABELS`
unfoldable pub stage_label : OrderStatus → String
stage_label OrderStatus.invoice_issued = "Invoice Issued"
stage_label OrderStatus.payment_submitted = "Payment Submitted"
stage_label OrderStatus.payment_confirmed = "Payment Confirmed"
stage_label OrderStatus.vehicle_reserved = "Vehicle Reserved"
stage_label OrderStatus.processing = "Processing"
stage_label OrderStatus.in_transit = "In Transit"
stage_label OrderStatus.arrived = "Arrived"
stage_label OrderStatus.clearance = "Customs Clearance"
stage_label OrderStatus.ready_for_handover = "Ready for Handover"
stage_label OrderStatus.delivered = "Delivered"
stage_label OrderStatus.cancelled = "Cancelled"

-- `STAGE_BUYER_MESSAGES`
unfoldable pub stage_buyer_message : OrderStatus → String
stage_buyer_message OrderStatus.invoice_issued =
    "Your invoice has been issued. Please complete payment when ready."
stage_buyer_message OrderStatus.payment_submitted =
    "We received your payment submission and are verifying it."
stage_buyer_message OrderStatus.payment_confirmed =
    "Your payment has been verified. Your order is now being processed."
stage_buyer_message OrderStatus.vehicle_reserved =
    "Your vehicle has been reserved for you and is secured for this order."
stage_buyer_message OrderStatus.processing =
    "Our team is preparing your vehicle for the next fulfillment steps."
stage_buyer_message OrderStatus.in_transit =
    "Your vehicle is in transit. We will update you when it reaches port."
stage_buyer_message OrderStatus.arrived =
    "Your vehicle has arrived at port. Clearance and handover steps will follow."
stage_buyer_message OrderStatus.clearance = "Your vehicle is going through customs clearance."
stage_buyer_message OrderStatus.ready_for_handover =
    "Your vehicle is ready for handover. Our team will coordinate pickup or delivery with you."
stage_buyer_message OrderStatus.delivered =
    "Your vehicle has been delivered. Thank you for choosing UZA Mobility."
stage_buyer_message OrderStatus.cancelled = "This order has been cancelled."

-- `stages.indexOf(status)`; `none` is -1.
abbrev pub index_of : List OrderStatus → OrderStatus → Option ℕ
index_of [] s = none
index_of (x ∷ xs) s =
    let rest : Option ℕ = elim (index_of xs s) [ none ↦ none | some i ↦ some (suc i) ] in
    if x === s then some 0 else rest

unfoldable pub get_next_order_status : SellerType → OrderStatus → Option OrderStatus
unfolding order_stages
get_next_order_status seller_type current =
    let stages = order_stages seller_type in
    elim (index_of stages current) [
      | none ↦ none
      | some index ↦ if leb (length stages - 1) index then none else get_elem? stages (index + 1)
    ]
