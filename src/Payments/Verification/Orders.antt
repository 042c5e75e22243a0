-- ===== src/Payments/Verification/Orders.antt =====
-- A confirmed payment and the order of its invoice.
use uza_mobility_bn.Base.{ℕ, ◌≡◌, refl, none, some, arith, ◌==◌, ==_refl, ==_iff, inl, inr}
use uza_mobility_bn.Js.{Js}
use uza_mobility_bn.Db.{Prisma, PrismaLaws}
use uza_mobility_bn.Schema.Commerce.{InvoiceStatus, PaymentStatus}
use uza_mobility_bn.Schema.Rows.{Invoice, Payment, Order, Listing}
use uza_mobility_bn.Schema.World.{World}
use uza_mobility_bn.Api.{ok, err, bad_request}
use uza_mobility_bn.Platform.Audit.{RequestAuditContext}
use uza_mobility_bn.Orders.Creation.{new_order, order_of_invoice}
use uza_mobility_bn.Orders.Creation.Outcome.{
  create-cases, create-eq_existing, create-eq_refused, create-eq_new, order_number_now,
}
use uza_mobility_bn.Payments.Submission.{invoice_with_status}
use uza_mobility_bn.Payments.Verification.{verified, confirm_payment}
use uza_mobility_bn.Payments.Verification.Outcome.{confirmed_world, confirm-eq_ok, confirm-eq_err}

module _ ⦃N : Js⦄ ⦃P : Prisma⦄ ⦃L : PrismaLaws⦄ where
  open P use {find_unique, find_first, new_id}
  open L use {find-update, find-insert, find_first-some}

  module _ (payment_id admin : ℕ) (ctx : RequestAuditContext) (w : World) {payment : Payment}
      {invoice : Invoice} (paid : find_unique w.payments payment_id ≡ some payment)
      (joined : find_unique w.invoices payment.invoice_id ≡ some invoice)
      (open_payment : payment.status ≡ PaymentStatus.under_verification) where
    abbrev after : World
    after = confirmed_world payment_id admin w payment

    -- The invoice as the creation of the order finds it.
    found_invoice :
        find_unique after.invoices payment.invoice_id
        ≡ some (invoice_with_status InvoiceStatus.payment_confirmed invoice)
    found_invoice = rw (find-update, ==_refl payment.invoice_id, joined)

    -- Confirming a payment under verification, of an invoice whose listing is there, returns the payment
    -- and the invoice as confirmed, and afterwards there is an order for that invoice.
    pub confirm_makes_order :
        {listing_id : ℕ} {listing : Listing}
        → invoice.listing_id ≡ some listing_id
        → find_unique w.listings listing_id ≡ some listing
        → let (r, w') = confirm_payment payment_id admin ctx w in
          (r
            ≡ ok (
              verified PaymentStatus.confirmed admin w.now payment,
              invoice_with_status InvoiceStatus.payment_confirmed invoice,
            ))
          × ((order_id : ℕ) × (order : Order) × (find_unique w'.orders order_id ≡ some order)
              × (order.invoice_id ≡ payment.invoice_id))
    unfolding new_order
    confirm_makes_order {listing_id} {listing} linked listed =
        elim (create-cases payment.invoice_id after) [
          | inl (order_id, order, e) ↦
              let made = create-eq_existing payment.invoice_id after e in
              let (r, _, _, orders) =
                confirm-eq_ok payment_id admin ctx w paid joined {order_id = order_id} open_payment
                  (rw made) in
              let (there, same_invoice) =
                find_first-some w.orders (λ _ o. o.invoice_id == payment.invoice_id) order_id order
                  e in
              (r, (order_id, order, rw (orders, made) there, (==_iff _ _).0 same_invoice))
          | inr (inl (e, n)) ↦ absurd (ground (arith, found_invoice))
          | inr (inr (inv, l, lst, e, n)) ↦
              let (made, orders, _, _) = create-eq_new payment.invoice_id after e n in
              let (r, _, _, orders') =
                confirm-eq_ok payment_id admin ctx w paid joined {order_id = new_id w.orders}
                  open_payment made in
              (
                r,
                (
                  new_id w.orders,
                  new_order (order_number_now payment.invoice_id after) inv payment.invoice_id l
                      lst,
                  rw (orders', orders, find-insert, ==_refl (new_id w.orders)),
                  refl,
                ),
              )
        ]

    -- Confirming a payment under verification, of an invoice without a listing and without an order,
    -- throws, and yet the payment and the invoice stay confirmed.
    pub confirm_without_listing :
        invoice.listing_id ≡ none
        → order_of_invoice payment.invoice_id w ≡ none
        → let (r, w') = confirm_payment payment_id admin ctx w in
          (r ≡ err (bad_request "Order requires an invoice linked to a listing"))
          × (find_unique w'.payments payment_id
              ≡ some (verified PaymentStatus.confirmed admin w.now payment))
          × (find_unique w'.invoices payment.invoice_id
              ≡ some (invoice_with_status InvoiceStatus.payment_confirmed invoice))
    confirm_without_listing unlinked no_order =
        let refused =
          create-eq_refused payment.invoice_id after no_order (rw (found_invoice, unlinked)) in
        let (r, payments, invoices) =
          confirm-eq_err payment_id admin ctx w paid joined
            {e = bad_request "Order requires an invoice linked to a listing"} open_payment
            (rw refused) in
        (r, rw (payments, find-update, ==_refl payment_id, paid), rw (invoices, found_invoice))
