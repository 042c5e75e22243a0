-- ===== src/Tests/Invoices.antt =====
-- The theorems on invoices at concrete data.
use uza_mobility_bn.Base.{
  ℕ, ◌≡◌, refl, sym, ◌∙◌, some, none, [], ◌∷◌, arith, get_elem?, length, if◌then◌else◌, zero, suc,
}
use uza_mobility_bn.Db.{on_row}
use uza_mobility_bn.Schema.Catalog.{ListingStatus}
use uza_mobility_bn.Schema.Commerce.{InvoiceStatus, PaymentStatus}
use uza_mobility_bn.Schema.Rows.{Invoice}
use uza_mobility_bn.Schema.World.{World}
use uza_mobility_bn.Api.{ApiError, ok, err}
use uza_mobility_bn.Invoices.Request.{RequestInvoiceDto, is_active_for, request_invoice}
use uza_mobility_bn.Invoices.Request.Outcome.{
  OneActive, RequestOutcome, request_outcome, request_keeps_OneActive,
}
use uza_mobility_bn.Invoices.Cancellation.{cancel_invoice_by_buyer}
use uza_mobility_bn.Invoices.Cancellation.Outcome.{
  released, buyer_cancel_frees, buyer_cancel_after_payment,
}
use uza_mobility_bn.Invoices.Expiry.{is_due, expire_due_invoices}
use uza_mobility_bn.Invoices.Expiry.Outcome.{as_expired, expire_exactly_due}
use uza_mobility_bn.Invoices.Calls.{begin, call, request, buyer_cancel, run_invoice_call}
use uza_mobility_bn.Invoices.Calls.Keeps.{invoices_keep_OneActive}
use uza_mobility_bn.Tests.Natural.{natural, natural_laws}
use uza_mobility_bn.Tests.Stored.{stored, join}
use uza_mobility_bn.Tests.Memory.{memory, memory_laws}
use uza_mobility_bn.Tests.Data.{world, invoice_of, payment_of, car, context}

abbrev dto : RequestInvoiceDto
dto = record { listing_id = 0; invoice_type = none; buyer_address = none; notes = none }

abbrev open_world : World
open_world = world ListingStatus.published [] [] [] []

-- An open invoice, which holds a reserved listing.
abbrev held : World
held = world ListingStatus.reserved (invoice_of (some 0) InvoiceStatus.sent ∷ []) [] [] []

-- The same invoice, with a payment.
abbrev paying : World
paying =
    world ListingStatus.reserved (invoice_of (some 0) InvoiceStatus.sent ∷ [])
      (payment_of PaymentStatus.under_verification ∷ []) [] []

no_invoices-OneActive : OneActive []
no_invoices-OneActive i j a b l e f u la lb x y = absurd (ground (arith, e))

only_first :
    (r : Invoice) (i : ℕ) {a : Invoice} → join (get_elem? (stored (r ∷ [])) i) ≡ some a → i ≡ 0
only_first r zero e = refl
only_first r (suc i) e = absurd (ground (arith, e))

held-OneActive : OneActive (held.invoices)
held-OneActive i j a b l e f u la lb x y =
    only_first (invoice_of (some 0) InvoiceStatus.sent) i e
    ∙ sym (only_first (invoice_of (some 0) InvoiceStatus.sent) j f)

request_outcome_example : RequestOutcome 0 dto context open_world
request_outcome_example = request_outcome 0 dto context open_world

request_keeps_OneActive_example : OneActive (request_invoice 0 dto context open_world).1.invoices
request_keeps_OneActive_example =
    request_keeps_OneActive 0 dto context open_world no_invoices-OneActive

buyer_cancel_frees_example :
    let w' = (cancel_invoice_by_buyer 0 0 context held).1 in
    (memory.find_first w'.invoices (is_active_for 0 0) ≡ none)
    × (memory.find_unique w'.listings 0 ≡ some (released (car ListingStatus.reserved)))
buyer_cancel_frees_example =
    buyer_cancel_frees 0 0 context held {invoice = invoice_of (some 0) InvoiceStatus.sent} refl
      {listing_id = 0} {listing = car ListingStatus.reserved} held-OneActive refl refl refl refl
      refl

buyer_cancel_after_payment_example :
    (e : ApiError) × (cancel_invoice_by_buyer 0 0 context paying ≡ (err e, paying))
buyer_cancel_after_payment_example =
    buyer_cancel_after_payment 0 0 context paying {invoice = invoice_of (some 0) InvoiceStatus.sent}
      refl {payment_id = 0} {payment = payment_of PaymentStatus.under_verification} refl refl

expire_exactly_due_example :
    let (r, w') = expire_due_invoices held in
    (r ≡ ok (length (memory.find_many held.invoices (is_due 1000))))
    × (memory.find_unique w'.invoices 0
        ≡ on_row
            (λ x. if is_due 1000 0 x then as_expired x else x)
            (some (invoice_of (some 0) InvoiceStatus.sent)))
expire_exactly_due_example = expire_exactly_due held 0

invoices_keep_OneActive_example :
    OneActive
      (run_invoice_call
        (request 0 dto context)
        (run_invoice_call (buyer_cancel 0 0 context) held)).invoices
invoices_keep_OneActive_example =
    invoices_keep_OneActive held held-OneActive
      (call (call begin (buyer_cancel 0 0 context)) (request 0 dto context))
