-- ===== src/Orders/Creation.antt =====
-- src/modules/orders/orders.service.ts, `createFromInvoice`: at most one order for an invoice.
pub mod Outcome
use uza_mobility_bn.Base.{ℕ, Option, none, some, String, [], ◌∷◌, ◌==◌, get_or}
use uza_mobility_bn.Base.Text.{◌<>◌}
use uza_mobility_bn.Js.{Js}
use uza_mobility_bn.Db.{Prisma}
use uza_mobility_bn.Schema.Commerce.{OrderStatus}
use uza_mobility_bn.Schema.Requests.{NotificationType}
use uza_mobility_bn.Schema.Rows.{Invoice, Listing, Order, OrderTrackingEvent, Json}
use uza_mobility_bn.Schema.World.{World}
use uza_mobility_bn.Api.{Action, bad_request, ◌>>=◌, ◌>>◌, pure, gets, modify, require}
use uza_mobility_bn.Platform.Reference.{generate_reference_number, uzm_ord}
use uza_mobility_bn.Platform.Notifications.{Message, send}
use uza_mobility_bn.Orders.Stages.{stage_label}

module _ ⦃N : Js⦄ where
  unfoldable pub new_order : String → Invoice → ℕ → ℕ → Listing → Order
  new_order order_number invoice invoice_id listing_id listing = record {
    order_number = order_number;
    user_id = invoice.user_id;
    listing_id = listing_id;
    invoice_id = invoice_id;
    status = OrderStatus.payment_confirmed;
    seller_type = get_or invoice.vehicle.seller_type listing.seller_type;
    vin = none;
    shipment_id = none;
    delivery_country = "RW";
    actual_delivery_date = none;
  }

  created_event : ℕ → OrderTrackingEvent
  unfolding stage_label
  created_event order_id = record {
    order_id = order_id;
    stage = OrderStatus.payment_confirmed;
    title = stage_label OrderStatus.payment_confirmed;
    description = some "Your payment has been verified. Your order is now being processed.";
    location = none;
    performed_by = none;
  }

  order_created : String → ℕ → Message
  order_created order_number order_id = record {
    kind = NotificationType.order_status_updated;
    title = "Order created";
    body = "Order " <> order_number <> " has been created. We will keep you updated.";
    metadata = ("orderId", Json.id order_id) ∷ [];
  }

  module _ ⦃P : Prisma⦄ where
    open P use {find_unique, find_first, new_id, insert}

    -- `order.findUnique({ where: { invoiceId } })`
    abbrev pub order_of_invoice : ℕ → World → Option (ℕ × Order)
    order_of_invoice invoice_id w = find_first w.orders (λ _ order. order.invoice_id == invoice_id)

    -- An invoice, with its listing if it has one.
    abbrev pub invoice_listing : World → Option Invoice → Option (Invoice × ℕ × Listing)
    invoice_listing w none = none
    invoice_listing w (some invoice) = elim invoice.listing_id [
      | none ↦ none
      | some listing_id ↦ elim (find_unique w.listings listing_id) [
        | none ↦ none
        | some listing ↦ some (invoice, listing_id, listing)
      ]
    ]

    -- The transaction: the order, and its first tracking event.
    insert_order : Order → World → World
    unfolding created_event
    insert_order order w = record w {
      orders = insert w.orders order;
      tracking_events = insert w.tracking_events (created_event (new_id w.orders));
    }

    -- The part after the first check, when the invoice has no order yet.
    create_new : ℕ → Action World ℕ
    unfolding insert_order new_order order_created send
    create_new invoice_id = do
      found ← gets (λ w. invoice_listing w (find_unique w.invoices invoice_id))
      (invoice, listing_id, listing) ←
          require found (bad_request "Order requires an invoice linked to a listing")
      order_number ← gets (λ w. generate_reference_number w uzm_ord)
      order_id ← gets (λ w. new_id w.orders)
      modify (insert_order (new_order order_number invoice invoice_id listing_id listing))
      send invoice.user_id (order_created order_number order_id)
      pure order_id

    -- Returns the order's id.
    unfoldable pub create_from_invoice : ℕ → Action World ℕ
    unfolding create_new
    create_from_invoice invoice_id w = elim (order_of_invoice invoice_id w) [
      | some (order_id, _) ↦ pure order_id w
      | none ↦ create_new invoice_id w
    ]
