-- ===== src/Tests/Payments.antt =====
-- The theorems on payments at concrete data.
use uza_mobility_bn.Base.{
  ◌⊎◌, true, ℕ, ◌≡◌, ◌≢◌, refl, some, none, List, [], ◌∷◌, String, arith, Memᴰ,
}
use uza_mobility_bn.Base.Text.{◌===◌}
use uza_mobility_bn.Schema.Catalog.{ListingStatus}
use uza_mobility_bn.Schema.Commerce.{InvoiceStatus, PaymentStatus, payment_status_enum}
use uza_mobility_bn.Schema.Rows.{Order}
use uza_mobility_bn.Schema.World.{World}
use uza_mobility_bn.Api.{ok, err, bad_request}
use uza_mobility_bn.Payments.Submission.{SubmitPaymentPayload}
use uza_mobility_bn.Payments.Verification.{
  MarkPartialPaymentDto, verified, confirm_payment, reject_payment, mark_partial,
}
use uza_mobility_bn.Payments.Verification.Outcome.{not_open_refused}
use uza_mobility_bn.Payments.Verification.Rejection.{RejectOutcome, reject_payment-cases}
use uza_mobility_bn.Payments.Verification.Orders.{confirm_makes_order, confirm_without_listing}
use uza_mobility_bn.Payments.Listing.{PaymentRow, filter_superseded_rejected_payments}
use uza_mobility_bn.Payments.Listing.Shown.{filter_shows}
use uza_mobility_bn.Tests.Natural.{natural, natural_laws}
use uza_mobility_bn.Tests.Memory.{memory, memory_laws}
use uza_mobility_bn.Tests.Data.{world, invoice_of, payment_of, car, context}

-- A payment of an invoice for the listing, and one of an invoice for none.
abbrev submitted : World
submitted =
    world ListingStatus.published (invoice_of (some 0) InvoiceStatus.payment_submitted ∷ [])
      (payment_of PaymentStatus.under_verification ∷ []) [] []

abbrev fleet : World
fleet =
    world ListingStatus.published (invoice_of none InvoiceStatus.payment_submitted ∷ [])
      (payment_of PaymentStatus.under_verification ∷ []) [] []

-- The payment has been confirmed.
abbrev settled : World
settled =
    world ListingStatus.published (invoice_of (some 0) InvoiceStatus.payment_confirmed ∷ [])
      (payment_of PaymentStatus.confirmed ∷ []) [] []

abbrev payload : SubmitPaymentPayload
payload = record {
  invoice_id = 0;
  amount_paid = 29000000;
  bank_name = none;
  transfer_reference = none;
  payment_date = none;
  sender_name = none;
  notes = none;
  proof_urls = "proof.pdf" ∷ [];
}

abbrev part : MarkPartialPaymentDto
part = record { amount_received = none; notes = none }

confirm_makes_order_example :
    let (r, w') = confirm_payment 0 7 context submitted in
    (r
      ≡ ok (
        verified PaymentStatus.confirmed 7 1000 (payment_of PaymentStatus.under_verification),
        invoice_of (some 0) InvoiceStatus.payment_confirmed,
      ))
    × ((order_id : ℕ) × (order : Order) × (memory.find_unique w'.orders order_id ≡ some order)
        × (order.invoice_id ≡ 0))
confirm_makes_order_example =
    confirm_makes_order 0 7 context submitted
      {payment = payment_of PaymentStatus.under_verification}
      {invoice = invoice_of (some 0) InvoiceStatus.payment_submitted} refl refl refl
      {listing_id = 0} {listing = car ListingStatus.published} refl refl

confirm_without_listing_example :
    let (r, w') = confirm_payment 0 7 context fleet in
    (r ≡ err (bad_request "Order requires an invoice linked to a listing"))
    × (memory.find_unique w'.payments 0
        ≡ some
            (verified PaymentStatus.confirmed 7 1000 (payment_of PaymentStatus.under_verification)))
    × (memory.find_unique w'.invoices 0 ≡ some (invoice_of none InvoiceStatus.payment_confirmed))
confirm_without_listing_example =
    confirm_without_listing 0 7 context fleet
      {payment = payment_of PaymentStatus.under_verification}
      {invoice = invoice_of none InvoiceStatus.payment_submitted} refl refl refl refl refl

reject_payment-cases_example : RejectOutcome 0 7 "No trace of it" context submitted
reject_payment-cases_example = reject_payment-cases 0 7 "No trace of it" context submitted

confirmed-apart : PaymentStatus.confirmed ≢ PaymentStatus.under_verification
confirmed-apart e = absurd (ground (arith, e))

not_open_refused_example :
    ((e : String) × (confirm_payment 0 7 context settled ≡ (err (bad_request e), settled)))
    × ((e : String) × (reject_payment 0 7 "Late" context settled ≡ (err (bad_request e), settled)))
    × ((e : String) × (mark_partial 0 7 part context settled ≡ (err (bad_request e), settled)))
not_open_refused_example =
    not_open_refused 0 7 context settled {payment = payment_of PaymentStatus.confirmed}
      {invoice = invoice_of (some 0) InvoiceStatus.payment_confirmed} refl refl confirmed-apart
      "Late" part

abbrev replaced : PaymentRow
replaced = record { id = 1; invoice_id = 0; status = PaymentStatus.rejected }

abbrev rows : List PaymentRow
rows = record { id = 2; invoice_id = 0; status = PaymentStatus.under_verification } ∷ replaced ∷ []

filter_shows_example :
    (((replaced.status === PaymentStatus.rejected) ≡ true)
      ⊎ Memᴰ replaced (filter_superseded_rejected_payments rows))
    × ((q : PaymentRow) × (Memᴰ q (filter_superseded_rejected_payments rows)) × (q.invoice_id ≡ 0))
filter_shows_example = filter_shows rows replaced (Memᴰ.tail (Memᴰ.head refl))
