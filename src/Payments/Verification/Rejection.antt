-- ===== src/Payments/Verification/Rejection.antt =====
-- What `reject_payment` does, on every branch.
use uza_mobility_bn.Base.{
  ℕ, ◌≡◌, ◌≢◌, refl, none, some, String, arith, inl, inr, ◌⊎◌, Option-cases, Bool-cases, ◌==◌,
  if◌then◌else◌, subst, ==_iff,
}
use uza_mobility_bn.Base.Text.{◌===◌}
use uza_mobility_bn.Js.{Js}
use uza_mobility_bn.Db.{Prisma, PrismaLaws}
use uza_mobility_bn.Schema.Commerce.{InvoiceStatus, PaymentStatus, payment_status_enum}
use uza_mobility_bn.Schema.Rows.{Invoice, Payment}
use uza_mobility_bn.Schema.World.{World}
use uza_mobility_bn.Api.{ApiError, ok, err, bad_request, not_found, internal}
use uza_mobility_bn.Platform.Audit.{RequestAuditContext}
use uza_mobility_bn.Payments.Verification.{reject_payment}
use uza_mobility_bn.Payments.Verification.Outcome.{reject-eq_ok, not_open_refused}

module _ ⦃N : Js⦄ ⦃P : Prisma⦄ where
  open P use {Table, find_unique, update}

  -- The second table has a new row under one id, and is else as the first.
  abbrev pub ReplacedAt : {R : Type 0} → Table R → Table R → ℕ → R → Type 0
  ReplacedAt t t' id r = (j : ℕ) → find_unique t' j ≡ (if id == j then some r else find_unique t j)

  module _ (payment_id admin : ℕ) (reason : String) (ctx : RequestAuditContext) (w : World) where
    abbrev pub RejectOutcome : Type 0
    RejectOutcome =
        let call = reject_payment payment_id admin reason ctx in
        let w' = (call w).1 in
        ((e : ApiError) × (call w ≡ (err e, w))
          × ((find_unique w.payments payment_id ≡ none)
              ⊎ ((payment : Payment) × (find_unique w.payments payment_id ≡ some payment)
                  × ((find_unique w.invoices payment.invoice_id ≡ none)
                      ⊎ (payment.status ≢ PaymentStatus.under_verification)))))
        ⊎ ((payment : Payment) × (find_unique w.payments payment_id ≡ some payment)
            × (payment.status ≡ PaymentStatus.under_verification)
            × ((invoice : Invoice) × (find_unique w.invoices payment.invoice_id ≡ some invoice)
                × (let payment' = record payment {
                  status = PaymentStatus.rejected;
                  rejection_reason = some reason;
                  verified_by = some admin;
                  verified_at = some w.now;
                } in
                    let invoice' = record invoice { status = InvoiceStatus.awaiting_payment } in
                    ((call w).0 ≡ ok (payment', invoice'))
                    × ReplacedAt w.payments w'.payments payment_id payment'
                    × ReplacedAt w.invoices w'.invoices payment.invoice_id invoice'
                    × (w'.orders ≡ w.orders))))

  module _ ⦃L : PrismaLaws⦄ where
    open L use {find-update}

    updated-ReplacedAt :
        {R : Type 0} (t t' : Table R) (id : ℕ) (r : R) (f : R → R)
        → find_unique t id ≡ some r
        → t' ≡ update t id f
        → ReplacedAt t t' id (f r)
    updated-ReplacedAt t t' id r f found written j = elim (Bool-cases (id == j)) [
      | inl here ↦
          let at_j : find_unique t j ≡ some r =
            subst (λ k. find_unique t k ≡ some r) ((==_iff id j).0 here) found in
          rw (written, find-update, here, at_j) refl
      | inr other ↦ rw (written, find-update, other) refl
    ]

    -- A rejection throws and writes nothing, and then there is no such payment, or its invoice is not
    -- there, or it is not under verification; or the payment is under verification, and then it is
    -- rejected, with the reason, the administrator and the time, its invoice awaits payment, whatever
    -- status the invoice had, both are returned, and no other payment or invoice changes, and no order.
    pub reject_payment-cases :
        (payment_id admin : ℕ) (reason : String) (ctx : RequestAuditContext) (w : World)
        → RejectOutcome payment_id admin reason ctx w
    unfolding reject_payment
    reject_payment-cases payment_id admin reason ctx w =
        elim (Option-cases (find_unique w.payments payment_id)) [
          | inl n ↦ inl (not_found "Payment not found", ground (arith, n), inl n)
          | inr (payment, paid) ↦ elim (Option-cases (find_unique w.invoices payment.invoice_id)) [
            | inl n ↦ inl (
              internal "the foreign key of the invoice",
              ground (arith, paid, n),
              inr (payment, paid, inl n),
            )
            | inr (invoice, joined) ↦
                elim (Bool-cases (payment.status === PaymentStatus.under_verification)) [
                  | inr c ↦
                      let closed : payment.status ≢ PaymentStatus.under_verification =
                        λ e. absurd (ground (arith, c, e)) in
                      let (_, (e, refused), _) =
                        not_open_refused payment_id admin ctx w paid joined closed reason
                          (record { amount_received = none; notes = none }) in
                      inl (bad_request e, refused, inr (payment, paid, inr closed))
                  | inl c ↦
                      let open_payment : payment.status ≡ PaymentStatus.under_verification =
                        ground (arith, c) in
                      let (r, p, i, o) =
                        reject-eq_ok payment_id admin ctx w paid joined reason open_payment in
                      inr (
                        payment,
                        paid,
                        open_payment,
                        (
                          invoice,
                          joined,
                          (
                            r,
                            updated-ReplacedAt w.payments _ payment_id payment _ paid p,
                            updated-ReplacedAt w.invoices _ payment.invoice_id invoice _ joined i,
                            o,
                          ),
                        ),
                      )
                ]
          ]
        ]
