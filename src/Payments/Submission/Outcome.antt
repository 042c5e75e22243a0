-- ===== src/Payments/Submission/Outcome.antt =====
-- What `submit_payment` does, on every branch.
use uza_mobility_bn.Base.{ℕ, ◌≡◌, none, some, true, false, ◌⊎◌, ◌==◌}
use uza_mobility_bn.Base.Text.{includes}
use uza_mobility_bn.Js.{Js}
use uza_mobility_bn.Db.{Prisma}
use uza_mobility_bn.Schema.Commerce.{InvoiceStatus, PaymentStatus, invoice_status_enum}
use uza_mobility_bn.Schema.Rows.{Invoice, Payment}
use uza_mobility_bn.Schema.World.{World}
use uza_mobility_bn.Api.{ApiError, ok, err}
use uza_mobility_bn.Platform.Settings.{get_frozen_rate}
use uza_mobility_bn.Platform.Audit.{RequestAuditContext}
use uza_mobility_bn.Payments.Submission.{
  SubmitPaymentPayload, payable_invoice_statuses, submit_payment,
}

module _ ⦃N : Js⦄ ⦃P : Prisma⦄ where
  open P use {find_unique, insert, update, new_id}

  abbrev pub SubmitOutcome : ℕ → SubmitPaymentPayload → RequestAuditContext → World → Type 0
  SubmitOutcome user_id dto ctx w =
      let call = submit_payment user_id dto ctx in
      ((e : ApiError) × (call w ≡ (err e, w))
        × ((find_unique w.invoices dto.invoice_id ≡ none)
            ⊎ ((invoice : Invoice) × (find_unique w.invoices dto.invoice_id ≡ some invoice)
                × (((invoice.user_id == user_id) ≡ false)
                    ⊎ (includes payable_invoice_statuses invoice.status ≡ false)))))
      ⊎ ((invoice : Invoice) × (find_unique w.invoices dto.invoice_id ≡ some invoice)
          × (invoice.user_id ≡ user_id)
          × (includes payable_invoice_statuses invoice.status ≡ true)
          × ((call w).0 ≡ ok (new_id w.payments))
          × ((payment : Payment) × ((call w).1.payments ≡ insert w.payments payment)
              × (payment.status ≡ PaymentStatus.under_verification)
              × (payment.invoice_id ≡ dto.invoice_id)
              × (payment.amount_paid ≡ dto.amount_paid)
              × (payment.currency ≡ "RWF")
              × (payment.exchange_rate_used ≡ some (get_frozen_rate w))
              × (payment.verified_by ≡ none)
              × (payment.verified_at ≡ none)
              × (payment.rejection_reason ≡ none))
          × ((call w).1.invoices
              ≡ update w.invoices dto.invoice_id
                  (λ i. record i { status = InvoiceStatus.payment_submitted }))
          × ((call w).1.orders ≡ w.orders))
