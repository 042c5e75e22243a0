-- ===== src/Payments/Submission.antt =====
-- src/modules/payments/payments.service.ts, `submitPayment`.
pub mod Outcome
use uza_mobility_bn.Base.{ℕ, Option, none, some, String, List, [], ◌∷◌, ◌==◌, not, get_or}
use uza_mobility_bn.Base.Text.{◌<>◌, includes, name_of}
use uza_mobility_bn.Js.{Js}
use uza_mobility_bn.Db.{Prisma}
use uza_mobility_bn.Schema.Commerce.{
  InvoiceStatus, invoice_status_enum, PaymentStatus, payment_status_enum,
}
use uza_mobility_bn.Schema.Requests.{NotificationType}
use uza_mobility_bn.Schema.Rows.{Invoice, Payment, PaymentProof, Json}
use uza_mobility_bn.Schema.World.{World}
use uza_mobility_bn.Api.{
  Action, bad_request, not_found, forbidden, ◌>>=◌, ◌>>◌, pure, gets, modify, throw_if, require,
}
use uza_mobility_bn.Platform.Settings.{get_frozen_rate}
use uza_mobility_bn.Platform.Notifications.{Message, send_to_role_names}
use uza_mobility_bn.Platform.Audit.{RequestAuditContext, record_activity}
use uza_mobility_bn.Platform.Uploads.{file_type_of}

-- `PAYABLE_INVOICE_STATUSES`
abbrev pub payable_invoice_statuses : List InvoiceStatus
payable_invoice_statuses =
    InvoiceStatus.sent ∷ InvoiceStatus.awaiting_payment ∷ InvoiceStatus.partially_paid ∷ []

module _ ⦃N : Js⦄ where
  open N use {Num, to_lower, before_query, last_path_part}

  pub record SubmitPaymentPayload : Type 0 where
    pub invoice_id : ℕ
    pub amount_paid : Num
    pub bank_name : Option String
    pub transfer_reference : Option String
    pub payment_date : Option ℕ
    pub sender_name : Option String
    pub notes : Option String
    pub proof_urls : List String

  infer_file_type : String → String
  unfolding file_type_of
  infer_file_type url = file_type_of (to_lower (before_query url))

  proof_of : ℕ → String → PaymentProof
  unfolding infer_file_type
  proof_of payment_id url = record {
    owner_id = payment_id;
    file_url = url;
    file_type = infer_file_type url;
    file_name = last_path_part url;
  }

  unfoldable pub new_payment : SubmitPaymentPayload → Invoice → Num → ℕ → Payment
  new_payment dto invoice rate now = record {
    invoice_id = dto.invoice_id;
    amount_paid = dto.amount_paid;
    currency = "RWF";
    bank_name = dto.bank_name;
    transfer_reference = some (get_or dto.transfer_reference invoice.payment_reference);
    payment_date = some (get_or dto.payment_date now);
    sender_name = dto.sender_name;
    notes = dto.notes;
    exchange_rate_used = some rate;
    status = PaymentStatus.under_verification;
    verified_by = none;
    verified_at = none;
    rejection_reason = none;
  }

  proof_submitted : SubmitPaymentPayload → Invoice → ℕ → Message
  proof_submitted dto invoice payment_id = record {
    kind = NotificationType.system_alert;
    title = "Payment proof submitted";
    body = "Payment submitted for invoice " <> invoice.invoice_number <> ".";
    metadata =
        ("invoiceId", Json.id dto.invoice_id)
        ∷ ("paymentId", Json.id payment_id)
        ∷ ("amountPaid", Json.amount dto.amount_paid)
        ∷ ("currency", Json.text "RWF")
        ∷ [];
  }

  abbrev pub invoice_with_status : InvoiceStatus → Invoice → Invoice
  invoice_with_status status invoice = record invoice { status = status }

  module _ ⦃P : Prisma⦄ where
    open P use {Table, find_unique, new_id, insert, update}

    -- `paymentProof.createMany`
    pub add_proofs : ℕ → List String → Table PaymentProof → Table PaymentProof
    unfolding proof_of
    add_proofs payment_id [] t = t
    add_proofs payment_id (url ∷ urls) t =
        add_proofs payment_id urls (insert t (proof_of payment_id url))

    -- The transaction: the payment, its proofs, and the invoice's status.
    abbrev store_payment : Payment → List String → World → World
    store_payment payment urls w = record w {
      payments = insert w.payments payment;
      payment_proofs = add_proofs (new_id w.payments) urls w.payment_proofs;
      invoices =
          update w.invoices payment.invoice_id
            (invoice_with_status InvoiceStatus.payment_submitted);
    }

    -- Returns the new payment's id.
    unfoldable pub submit_payment : ℕ → SubmitPaymentPayload → RequestAuditContext → Action World ℕ
    unfolding new_payment proof_submitted send_to_role_names record_activity
    submit_payment user_id dto ctx = do
      found ← gets (λ w. find_unique w.invoices dto.invoice_id)
      invoice ← require found (not_found "Invoice not found")
      throw_if (not (invoice.user_id == user_id)) (forbidden "You do not own this invoice")
      throw_if (not (includes payable_invoice_statuses invoice.status))
          (bad_request ("Cannot submit payment for invoice in status " <> name_of invoice.status))
      rate ← gets (λ w. get_frozen_rate w)
      now ← gets (λ w. w.now)
      payment_id ← gets (λ w. new_id w.payments)
      modify (store_payment (new_payment dto invoice rate now) dto.proof_urls)
      send_to_role_names ("FINANCE_ADMIN" ∷ "SUPER_ADMIN" ∷ [])
          (proof_submitted dto invoice payment_id)
      record_activity user_id "payments:submitted" "Payment" none ctx (
          some (
            ("email", Json.nullable ctx.actor_email)
            ∷ ("invoiceNumber", Json.text invoice.invoice_number)
            ∷ ("paymentId", Json.id payment_id)
            ∷ ("currency", Json.text "RWF")
            ∷ []))
      pure payment_id
