-- ===== src/Payments/Verification/Outcome.antt =====
-- What the finance team's calls do to the payment and to its invoice, on every branch.
use uza_mobility_bn.Base.{ℕ, ◌≡◌, ◌≢◌, some, arith, ==_refl, String}
use uza_mobility_bn.Base.Text.{◌<>◌, name_of}
use uza_mobility_bn.Js.{Js}
use uza_mobility_bn.Db.{Prisma, PrismaLaws}
use uza_mobility_bn.Schema.Commerce.{InvoiceStatus, PaymentStatus, payment_status_enum}
use uza_mobility_bn.Schema.Rows.{Invoice, Payment}
use uza_mobility_bn.Schema.World.{World}
use uza_mobility_bn.Api.{ApiError, ok, err, bad_request}
use uza_mobility_bn.Platform.Audit.{RequestAuditContext}
use uza_mobility_bn.Orders.Creation.{create_from_invoice}
use uza_mobility_bn.Orders.Creation.Outcome.{create_frame}
use uza_mobility_bn.Payments.Submission.{invoice_with_status}
use uza_mobility_bn.Payments.Verification.{
  MarkPartialPaymentDto, verified, rejected_for, confirm_payment, reject_payment, mark_partial,
  set_payment,
}

module _ ⦃N : Js⦄ ⦃P : Prisma⦄ ⦃L : PrismaLaws⦄ where
  open P use {find_unique, update}
  open L use {find-update}

  -- The data base between the first transaction of a confirmation and the creation of the order.
  abbrev pub confirmed_world : ℕ → ℕ → World → Payment → World
  confirmed_world payment_id admin w payment =
      set_payment payment_id (verified PaymentStatus.confirmed admin w.now) payment.invoice_id
        InvoiceStatus.payment_confirmed w

  module _ (payment_id admin : ℕ) (ctx : RequestAuditContext) (w : World) {payment : Payment}
      {invoice : Invoice} (paid : find_unique w.payments payment_id ≡ some payment)
      (joined : find_unique w.invoices payment.invoice_id ≡ some invoice) where
    -- Rejecting a payment under verification marks it as rejected, with the reason, and moves its
    -- invoice to the status of awaiting payment, whatever status the invoice had; no other payment or
    -- invoice changes, and no order.
    pub reject-eq_ok :
        (reason : String)
        → payment.status ≡ PaymentStatus.under_verification
        → let payment' = rejected_for reason admin w.now payment in
          let invoice' = invoice_with_status InvoiceStatus.awaiting_payment invoice in
          let (r, w') = reject_payment payment_id admin reason ctx w in
          (r ≡ ok (payment', invoice'))
          × (w'.payments ≡ update w.payments payment_id (rejected_for reason admin w.now))
          × (w'.invoices
              ≡ update w.invoices payment.invoice_id
                  (invoice_with_status InvoiceStatus.awaiting_payment))
          × (w'.orders ≡ w.orders)
    unfolding reject_payment
    reject-eq_ok reason open_payment = ground (
      arith,
      ==_refl payment_id,
      ==_refl payment.invoice_id,
      find-update w.payments payment_id (rejected_for reason admin w.now) payment_id,
      find-update w.invoices payment.invoice_id (invoice_with_status InvoiceStatus.awaiting_payment)
          payment.invoice_id,
    )

    -- A partial payment is noted on the invoice alone.
    pub partial-eq_ok :
        (dto : MarkPartialPaymentDto)
        → payment.status ≡ PaymentStatus.under_verification
        → let (r, w') = mark_partial payment_id admin dto ctx w in
          (r ≡ ok (payment, invoice_with_status InvoiceStatus.partially_paid invoice))
          × (w'.payments ≡ w.payments)
          × (w'.invoices
              ≡ update w.invoices payment.invoice_id
                  (invoice_with_status InvoiceStatus.partially_paid))
          × (w'.orders ≡ w.orders)
    unfolding mark_partial
    partial-eq_ok dto open_payment = ground (
      arith,
      ==_refl payment.invoice_id,
      find-update w.invoices payment.invoice_id (invoice_with_status InvoiceStatus.partially_paid)
          payment.invoice_id,
    )

    pub confirm-eq_ok :
        {order_id : ℕ}
        → payment.status ≡ PaymentStatus.under_verification
        → (create_from_invoice payment.invoice_id (confirmed_world payment_id admin w payment)).0
          ≡ ok order_id
        → let payment' = verified PaymentStatus.confirmed admin w.now payment in
          let invoice' = invoice_with_status InvoiceStatus.payment_confirmed invoice in
          let (r, w') = confirm_payment payment_id admin ctx w in
          (r ≡ ok (payment', invoice'))
          × (w'.payments ≡ (confirmed_world payment_id admin w payment).payments)
          × (w'.invoices ≡ (confirmed_world payment_id admin w payment).invoices)
          × (w'.orders
              ≡ (create_from_invoice payment.invoice_id
                  (confirmed_world payment_id admin w payment)).1.orders)
    unfolding confirm_payment
    confirm-eq_ok open_payment made = ground (
      arith,
      ==_refl payment_id,
      ==_refl payment.invoice_id,
      create_frame payment.invoice_id (confirmed_world payment_id admin w payment),
      find-update w.payments payment_id (verified PaymentStatus.confirmed admin w.now) payment_id,
      find-update w.invoices payment.invoice_id
          (invoice_with_status InvoiceStatus.payment_confirmed) payment.invoice_id,
    )

    -- Where no order can be made, the call throws, but what it has written stays.
    pub confirm-eq_err :
        {e : ApiError}
        → payment.status ≡ PaymentStatus.under_verification
        → (create_from_invoice payment.invoice_id (confirmed_world payment_id admin w payment)).0
          ≡ err e
        → let (r, w') = confirm_payment payment_id admin ctx w in
          (r ≡ err e)
          × (w'.payments ≡ (confirmed_world payment_id admin w payment).payments)
          × (w'.invoices ≡ (confirmed_world payment_id admin w payment).invoices)
    unfolding confirm_payment
    confirm-eq_err open_payment failed =
        ground (arith, create_frame payment.invoice_id (confirmed_world payment_id admin w payment))

    -- If a payment is not under verification, then confirming it, rejecting it and marking it as partial
    -- are each refused as a bad request, and write nothing.
    pub not_open_refused :
        payment.status ≢ PaymentStatus.under_verification
        → (reason : String) (dto : MarkPartialPaymentDto)
        → ((e : String) × (confirm_payment payment_id admin ctx w ≡ (err (bad_request e), w)))
          × ((e : String) × (reject_payment payment_id admin reason ctx w
                ≡ (err (bad_request e), w)))
          × ((e : String) × (mark_partial payment_id admin dto ctx w ≡ (err (bad_request e), w)))
    unfolding confirm_payment reject_payment mark_partial
    not_open_refused closed reason dto = (
      (
        "Cannot transition payment from " <> name_of payment.status <> " to " <> "CONFIRMED",
        ground arith,
      ),
      (
        "Cannot transition payment from " <> name_of payment.status <> " to " <> "REJECTED",
        ground arith,
      ),
      ("Only payments under verification can be marked partial", ground arith),
    )
