-- ===== src/Payments/Verification.antt =====
-- src/modules/payments/payments.service.ts: `confirmPayment`, `rejectPayment`, `markPartial`.
pub mod Outcome
pub mod Rejection
pub mod Orders
use uza_mobility_bn.Base.{ℕ, Option, none, some, String, [], ◌∷◌, not}
use uza_mobility_bn.Base.Text.{◌<>◌, ◌===◌, name_of}
use uza_mobility_bn.Js.{Js}
use uza_mobility_bn.Db.{Prisma}
use uza_mobility_bn.Schema.Commerce.{InvoiceStatus, PaymentStatus, payment_status_enum}
use uza_mobility_bn.Schema.Requests.{NotificationType}
use uza_mobility_bn.Schema.Rows.{Invoice, Payment, Json}
use uza_mobility_bn.Schema.World.{World}
use uza_mobility_bn.Api.{
  Action, bad_request, not_found, internal, ◌>>=◌, ◌>>◌, pure, gets, modify, throw_if, require,
}
use uza_mobility_bn.Platform.Notifications.{Message, send}
use uza_mobility_bn.Platform.Audit.{RequestAuditContext, record_activity}
use uza_mobility_bn.Orders.Creation.{create_from_invoice}
use uza_mobility_bn.Payments.Transitions.{can_payment_transition}
use uza_mobility_bn.Payments.Submission.{invoice_with_status}

module _ ⦃N : Js⦄ where
  open N use {Num}

  pub record MarkPartialPaymentDto : Type 0 where
    pub amount_received : Option Num
    pub notes : Option String

  abbrev pub verified : PaymentStatus → ℕ → ℕ → Payment → Payment
  verified status admin now payment = record payment {
    status = status;
    verified_by = some admin;
    verified_at = some now;
  }

  abbrev pub rejected_for : String → ℕ → ℕ → Payment → Payment
  rejected_for reason admin now payment = record payment {
    status = PaymentStatus.rejected;
    rejection_reason = some reason;
    verified_by = some admin;
    verified_at = some now;
  }

  payment_confirmed : ℕ → Payment → Invoice → Message
  payment_confirmed payment_id payment invoice = record {
    kind = NotificationType.payment_confirmed;
    title = "Payment confirmed";
    body = "Your payment for invoice " <> invoice.invoice_number <> " has been confirmed.";
    metadata = ("invoiceId", Json.id payment.invoice_id) ∷ ("paymentId", Json.id payment_id) ∷ [];
  }

  payment_rejected : ℕ → Payment → Invoice → String → Message
  payment_rejected payment_id payment invoice reason = record {
    kind = NotificationType.payment_rejected;
    title = "Payment not verified";
    body = "Your payment for invoice " <> invoice.invoice_number <> " was rejected: " <> reason;
    metadata =
        ("invoiceId", Json.id payment.invoice_id)
        ∷ ("paymentId", Json.id payment_id)
        ∷ ("reason", Json.text reason)
        ∷ [];
  }

  optional_amount : Option Num → Json Num
  optional_amount none = Json.nullable none
  optional_amount (some amount) = Json.amount amount

  module _ ⦃P : Prisma⦄ where
    open P use {Table, find_unique, update}

    -- A payment with its invoice, which a foreign key ties to it.
    unfoldable pub get_payment_or_throw : ℕ → Action World (Payment × Invoice)
    get_payment_or_throw payment_id = do
      found ← gets (λ w. find_unique w.payments payment_id)
      payment ← require found (not_found "Payment not found")
      joined ← gets (λ w. find_unique w.invoices payment.invoice_id)
      invoice ← require joined (internal "the foreign key of the invoice")
      pure (payment, invoice)

    unfoldable pub assert_payment_transition :
        PaymentStatus → PaymentStatus → Action World (Unit {0})
    unfolding can_payment_transition
    assert_payment_transition from to =
        throw_if (not (can_payment_transition from to))
          (bad_request ("Cannot transition payment from " <> name_of from <> " to " <> name_of to))

    -- The transactions: a change of the payment and a status of the invoice.
    abbrev set_payment : ℕ → (Payment → Payment) → ℕ → InvoiceStatus → World → World
    set_payment payment_id change invoice_id status w = record w {
      payments = update w.payments payment_id change;
      invoices = update w.invoices invoice_id (invoice_with_status status);
    }

    unfoldable pub confirm_payment : ℕ → ℕ → RequestAuditContext → Action World (Payment × Invoice)
    unfolding get_payment_or_throw assert_payment_transition payment_confirmed send record_activity
    confirm_payment payment_id admin ctx = do
      (payment, invoice) ← get_payment_or_throw payment_id
      assert_payment_transition payment.status PaymentStatus.confirmed
      now ← gets (λ w. w.now)
      modify (
          set_payment payment_id (verified PaymentStatus.confirmed admin now) payment.invoice_id
            InvoiceStatus.payment_confirmed)
      create_from_invoice payment.invoice_id
      send invoice.user_id (payment_confirmed payment_id payment invoice)
      record_activity admin "payments:confirmed" "Payment" none ctx (
          some (
            ("email", Json.nullable ctx.actor_email)
            ∷ ("invoiceId", Json.id payment.invoice_id)
            ∷ ("amountPaid", Json.amount payment.amount_paid)
            ∷ []))
      get_payment_or_throw payment_id

    unfoldable pub reject_payment :
        ℕ → ℕ → String → RequestAuditContext → Action World (Payment × Invoice)
    unfolding get_payment_or_throw assert_payment_transition payment_rejected send record_activity
    reject_payment payment_id admin reason ctx = do
      (payment, invoice) ← get_payment_or_throw payment_id
      assert_payment_transition payment.status PaymentStatus.rejected
      now ← gets (λ w. w.now)
      modify (
          set_payment payment_id (rejected_for reason admin now) payment.invoice_id
            InvoiceStatus.awaiting_payment)
      send invoice.user_id (payment_rejected payment_id payment invoice reason)
      record_activity admin "payments:rejected" "Payment" none ctx (
          some (
            ("email", Json.nullable ctx.actor_email)
            ∷ ("invoiceId", Json.id payment.invoice_id)
            ∷ ("reason", Json.text reason)
            ∷ []))
      get_payment_or_throw payment_id

    unfoldable pub mark_partial :
        ℕ → ℕ → MarkPartialPaymentDto → RequestAuditContext → Action World (Payment × Invoice)
    unfolding get_payment_or_throw optional_amount record_activity
    mark_partial payment_id admin dto ctx = do
      (payment, invoice) ← get_payment_or_throw payment_id
      throw_if (not (payment.status === PaymentStatus.under_verification))
          (bad_request "Only payments under verification can be marked partial")
      modify (λ w. record w {
        invoices =
            update w.invoices payment.invoice_id (invoice_with_status InvoiceStatus.partially_paid);
      })
      record_activity admin "payments:partial" "Payment" none ctx (
          some (
            ("email", Json.nullable ctx.actor_email)
            ∷ ("invoiceId", Json.id payment.invoice_id)
            ∷ ("amountReceived", optional_amount dto.amount_received)
            ∷ ("notes", Json.nullable dto.notes)
            ∷ []))
      get_payment_or_throw payment_id
