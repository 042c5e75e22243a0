-- ===== src/Invoices/Cancellation.antt =====
-- src/modules/invoices/invoices.service.ts: `cancelInvoiceByBuyer`, `cancelInvoice` and
-- `executeInvoiceCancellation`.
pub mod Outcome
use uza_mobility_bn.Base.{
  ℕ, Bool, true, false, Option, none, some, String, [], ◌∷◌, ◌==◌, ◌||◌, not, ltb, if◌then◌else◌,
}
use uza_mobility_bn.Base.Text.{◌<>◌, ◌===◌, includes, name_of}
use uza_mobility_bn.Js.{Js}
use uza_mobility_bn.Db.{Prisma}
use uza_mobility_bn.Schema.Catalog.{ListingStatus, listing_status_enum}
use uza_mobility_bn.Schema.Commerce.{InvoiceStatus, invoice_status_enum}
use uza_mobility_bn.Schema.Requests.{NotificationType}
use uza_mobility_bn.Schema.Rows.{Invoice, Listing, Payment, Json}
use uza_mobility_bn.Schema.World.{World}
use uza_mobility_bn.Api.{
  Action, bad_request, not_found, forbidden, ◌>>=◌, ◌>>◌, pure, gets, modify, throw_if, require,
}
use uza_mobility_bn.Platform.Settings.{filled}
use uza_mobility_bn.Platform.Notifications.{Message, send, send_to_role_names}
use uza_mobility_bn.Platform.Audit.{RequestAuditContext, record_activity}
use uza_mobility_bn.Payments.Submission.{invoice_with_status}
use uza_mobility_bn.Invoices.Statuses.{buyer_cancellable_invoice_statuses}

abbrev pub with_listing_status : ListingStatus → Listing → Listing
with_listing_status status listing = record listing { status = status }

module _ ⦃N : Js⦄ where
  vehicle_label : Option String → Option String → String
  vehicle_label (some brand) (some model) = brand <> " " <> model
  vehicle_label _ _ = "a vehicle"

  reservation_cancelled : ℕ → Invoice → Message
  reservation_cancelled invoice_id invoice = record {
    kind = NotificationType.system_alert;
    title = "Reservation cancelled";
    body =
        "Invoice " <> invoice.invoice_number
        <> " was cancelled. The vehicle is available to reserve again if still listed.";
    metadata =
        ("invoiceId", Json.id invoice_id) ∷ ("listingId", Json.nullable_id invoice.listing_id) ∷ [];
  }

  buyer_cancelled : ℕ → Invoice → ℕ → Message
  unfolding vehicle_label
  buyer_cancelled invoice_id invoice buyer = record {
    kind = NotificationType.system_alert;
    title = "Buyer cancelled reservation";
    body =
        invoice.buyer.buyer_name
        <> " cancelled invoice "
        <> invoice.invoice_number
        <> " for "
        <> vehicle_label (filled invoice.vehicle.vehicle_brand)
            (filled invoice.vehicle.vehicle_model)
        <> ".";
    metadata =
        ("invoiceId", Json.id invoice_id)
        ∷ ("userId", Json.id buyer)
        ∷ ("listingId", Json.nullable_id invoice.listing_id)
        ∷ [];
  }

  module _ ⦃P : Prisma⦄ where
    open P use {Table, find_unique, count, update}

    release_found : ℕ → Option Listing → Table Listing → Table Listing
    release_found listing_id none t = t
    release_found listing_id (some listing) t =
        if listing.status === ListingStatus.reserved
        then update t listing_id (with_listing_status ListingStatus.published)
        else t

    -- A reserved listing is on offer again.
    unfoldable pub release_listing : Option ℕ → Table Listing → Table Listing
    unfolding release_found
    release_listing none t = t
    release_listing (some listing_id) t = release_found listing_id (find_unique t listing_id) t

    -- The transaction that closes an invoice, as cancelled or as expired.
    abbrev pub close_invoice : InvoiceStatus → ℕ → Option ℕ → World → World
    close_invoice status invoice_id listing_id w = record w {
      invoices = update w.invoices invoice_id (invoice_with_status status);
      listings = release_listing listing_id w.listings;
    }

    unfoldable pub execute_invoice_cancellation : ℕ → Option ℕ → Action World (Option Invoice)
    execute_invoice_cancellation invoice_id listing_id = do
      modify (close_invoice InvoiceStatus.cancelled invoice_id listing_id)
      gets (λ w. find_unique w.invoices invoice_id)

    abbrev pub is_payment_of : ℕ → ℕ → Payment → Bool
    is_payment_of invoice_id _ payment = payment.invoice_id == invoice_id

    unfoldable pub cancel_invoice_by_buyer :
        ℕ → ℕ → RequestAuditContext → Action World (Option Invoice)
    unfolding execute_invoice_cancellation reservation_cancelled buyer_cancelled send
        send_to_role_names record_activity
    cancel_invoice_by_buyer user_id invoice_id ctx = do
      found ← gets (λ w. find_unique w.invoices invoice_id)
      invoice ← require found (not_found "Invoice not found")
      throw_if (not (invoice.user_id == user_id)) (forbidden "You do not own this invoice")
      throw_if (not (includes buyer_cancellable_invoice_statuses invoice.status))
          (bad_request "This reservation can only be cancelled before payment proof is submitted")
      payments ← gets (λ w. count w.payments (is_payment_of invoice_id))
      throw_if (ltb 0 payments) (bad_request "Cannot cancel after a payment has been submitted")
      updated ← execute_invoice_cancellation invoice_id invoice.listing_id
      send user_id (reservation_cancelled invoice_id invoice)
      send_to_role_names ("FINANCE_ADMIN" ∷ "SUPER_ADMIN" ∷ [])
          (buyer_cancelled invoice_id invoice user_id)
      record_activity user_id "invoices:buyer-cancelled" "Invoice" (some invoice_id) ctx (
          some (
            ("email", Json.nullable ctx.actor_email)
            ∷ ("invoiceNumber", Json.text invoice.invoice_number)
            ∷ []))
      pure updated

    abbrev pub is_closed : InvoiceStatus → Bool
    is_closed s =
        s === InvoiceStatus.cancelled
        || s === InvoiceStatus.payment_confirmed
        || s === InvoiceStatus.fully_paid

    unfoldable pub cancel_invoice : ℕ → ℕ → RequestAuditContext → Action World (Option Invoice)
    unfolding execute_invoice_cancellation record_activity
    cancel_invoice admin invoice_id ctx = do
      found ← gets (λ w. find_unique w.invoices invoice_id)
      invoice ← require found (not_found "Invoice not found")
      throw_if (is_closed invoice.status)
          (bad_request ("Cannot cancel invoice in status " <> name_of invoice.status))
      updated ← execute_invoice_cancellation invoice_id invoice.listing_id
      record_activity admin "invoices:cancelled" "Invoice" none ctx (
          some (
            ("email", Json.nullable ctx.actor_email)
            ∷ ("invoiceNumber", Json.text invoice.invoice_number)
            ∷ []))
      pure updated
