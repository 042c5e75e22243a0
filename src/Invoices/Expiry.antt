-- ===== src/Invoices/Expiry.antt =====
-- src/modules/invoices/invoices.service.ts, `expireDueInvoices`, which a scheduler calls.
pub mod Outcome
use uza_mobility_bn.Base.{
  ℕ, Bool, true, false, Option, none, some, String, List, [], ◌∷◌, ◌&&◌, ltb, length,
}
use uza_mobility_bn.Base.Text.{◌<>◌, includes}
use uza_mobility_bn.Js.{Js}
use uza_mobility_bn.Db.{Prisma}
use uza_mobility_bn.Schema.Commerce.{InvoiceStatus, invoice_status_enum}
use uza_mobility_bn.Schema.Requests.{NotificationType}
use uza_mobility_bn.Schema.Rows.{Invoice, Json}
use uza_mobility_bn.Schema.World.{World}
use uza_mobility_bn.Api.{Action, ◌>>=◌, ◌>>◌, pure, gets, modify, for_each}
use uza_mobility_bn.Platform.Notifications.{Message, send}
use uza_mobility_bn.Invoices.Statuses.{buyer_cancellable_invoice_statuses}
use uza_mobility_bn.Invoices.Cancellation.{close_invoice}

-- `{ lt: now }`, which no null passes
abbrev before : Option ℕ → ℕ → Bool
before none now = false
before (some date) now = ltb date now

module _ ⦃N : Js⦄ where
  -- The filter of the query: sent or awaiting payment, and past its last day.
  abbrev pub is_due : ℕ → ℕ → Invoice → Bool
  is_due now _ invoice =
      includes (InvoiceStatus.sent ∷ InvoiceStatus.awaiting_payment ∷ []) invoice.status
      && before invoice.valid_until now

  invoice_expired : ℕ → Invoice → Message
  invoice_expired invoice_id invoice = record {
    kind = NotificationType.system_alert;
    title = "Invoice expired";
    body =
        "Invoice " <> invoice.invoice_number
        <> " has expired. The vehicle is available again if still listed.";
    metadata = ("invoiceId", Json.id invoice_id) ∷ [];
  }

  module _ ⦃P : Prisma⦄ where
    open P use {find_many}

    -- The body of the loop.
    unfoldable pub expire_one : ℕ × Invoice → Action World (Unit {0})
    unfolding invoice_expired send
    expire_one (invoice_id, invoice) = do
      modify (close_invoice InvoiceStatus.expired invoice_id invoice.listing_id)
      send invoice.user_id (invoice_expired invoice_id invoice)

    unfoldable pub expire_due_invoices : Action World ℕ
    expire_due_invoices = do
      expired ← gets (λ w. find_many w.invoices (is_due w.now))
      for_each expire_one expired
      pure (length expired)
