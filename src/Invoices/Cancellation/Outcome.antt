-- ===== src/Invoices/Cancellation/Outcome.antt =====
-- What the cancellation of an invoice does to the invoice and to its listing.
use uza_mobility_bn.Base.{
  ℕ, ◌≡◌, sym, none, some, Bool, true, false, arith, inl, inr, Option-cases, Bool-cases, ==_iff,
  ==_refl, ◌==◌, if◌then◌else◌, ◌<◌,
}
use uza_mobility_bn.Base.Text.{includes, ◌===◌}
use uza_mobility_bn.Js.{Js}
use uza_mobility_bn.Db.{Prisma, PrismaLaws, on_row}
use uza_mobility_bn.Schema.Catalog.{ListingStatus, listing_status_enum}
use uza_mobility_bn.Schema.Commerce.{InvoiceStatus, invoice_status_enum}
use uza_mobility_bn.Schema.Rows.{Listing, Invoice, Payment}
use uza_mobility_bn.Schema.World.{World}
use uza_mobility_bn.Api.{ApiError, ok, err}
use uza_mobility_bn.Platform.Audit.{RequestAuditContext}
use uza_mobility_bn.Payments.Submission.{invoice_with_status}
use uza_mobility_bn.Invoices.Statuses.{buyer_cancellable_invoice_statuses, active_invoice_statuses}
use uza_mobility_bn.Invoices.Request.{is_active_for}
use uza_mobility_bn.Invoices.Request.Outcome.{OneActive}
use uza_mobility_bn.Invoices.Cancellation.{
  with_listing_status, release_listing, is_payment_of, is_closed, cancel_invoice_by_buyer,
  cancel_invoice,
}

module _ ⦃N : Js⦄ ⦃P : Prisma⦄ ⦃L : PrismaLaws⦄ where
  open P use {Table, find_unique, find_first, update, count}
  open L use {find-update, find_first-some, count-pos}

  abbrev pub released : Listing → Listing
  released listing =
      if listing.status === ListingStatus.reserved
      then with_listing_status ListingStatus.published listing
      else listing

  -- Only the invoice's listing changes, and only from reserved to published.
  pub find-release :
      (listing_id : ℕ) (t : Table Listing) (j : ℕ)
      → find_unique (release_listing (some listing_id) t) j
        ≡ (if listing_id == j then on_row released (find_unique t j) else find_unique t j)
  unfolding release_listing
  find-release listing_id t j = elim (Bool-cases (listing_id == j)) [
    | inl h ↦
        let same : listing_id ≡ j = (==_iff _ _).0 h in
        elim (Option-cases (find_unique t j)) [
          | inl e ↦
              ground
                (arith, find-update t listing_id (with_listing_status ListingStatus.published) j)
          | inr (listing, e) ↦
              ground
                (arith, find-update t listing_id (with_listing_status ListingStatus.published) j)
        ]
    | inr h ↦ elim (Option-cases (find_unique t listing_id)) [
      | inl e ↦
          ground (arith, find-update t listing_id (with_listing_status ListingStatus.published) j)
      | inr (listing, e) ↦
          ground (arith, find-update t listing_id (with_listing_status ListingStatus.published) j)
    ]
  ]

  none_active_left :
      (t : Table Invoice) (invoice_id listing_id : ℕ) {invoice : Invoice}
      → OneActive t
      → find_unique t invoice_id ≡ some invoice
      → invoice.listing_id ≡ some listing_id
      → includes active_invoice_statuses invoice.status ≡ true
      → find_first
          (update t invoice_id (invoice_with_status InvoiceStatus.cancelled))
          (is_active_for invoice.user_id listing_id)
        ≡ none
  none_active_left t invoice_id listing_id {invoice} one found linked active =
      elim (Option-cases (find_first after test)) [
        | inl e ↦ e
        | inr ((i, r), e) ↦
            let (there, matches) = find_first-some after test i r e in
            elim (Bool-cases (invoice_id == i)) [
              | inl h ↦
                  let same : invoice_id ≡ i = (==_iff _ _).0 h in
                  absurd (
                    ground (
                      arith,
                      find-update t invoice_id (invoice_with_status InvoiceStatus.cancelled) i,
                    ))
              | inr h ↦
                  let kept : find_unique t i ≡ some r =
                    rw (find-update t invoice_id (invoice_with_status InvoiceStatus.cancelled) i, h)
                      at there in
                  let same : i ≡ invoice_id =
                    one i invoice_id r invoice listing_id kept found (ground arith) (ground arith)
                      linked (ground arith) active in
                  absurd (ground arith)
            ]
      ]
    where
      after : Table Invoice
      after = update t invoice_id (invoice_with_status InvoiceStatus.cancelled)

      test : ℕ → Invoice → Bool
      test = is_active_for invoice.user_id listing_id

  module _ (user_id invoice_id : ℕ) (ctx : RequestAuditContext) (w : World) {invoice : Invoice}
      (found : find_unique w.invoices invoice_id ≡ some invoice) where
    pub buyer_cancel-eq_ok :
        invoice.user_id ≡ user_id
        → includes buyer_cancellable_invoice_statuses invoice.status ≡ true
        → count w.payments (is_payment_of invoice_id) ≡ 0
        → let (r, w') = cancel_invoice_by_buyer user_id invoice_id ctx w in
          (r ≡ ok (some (invoice_with_status InvoiceStatus.cancelled invoice)))
          × (w'.invoices
              ≡ update w.invoices invoice_id (invoice_with_status InvoiceStatus.cancelled))
          × (w'.listings ≡ release_listing invoice.listing_id w.listings)
          × (w'.payments ≡ w.payments)
    unfolding cancel_invoice_by_buyer
    buyer_cancel-eq_ok own open_invoice unpaid = ground (
      arith,
      ==_refl invoice_id,
      ==_refl user_id,
      find-update w.invoices invoice_id (invoice_with_status InvoiceStatus.cancelled) invoice_id,
    )

    -- As soon as there is a payment of the invoice, whatever its status, the buyer cannot cancel
    -- it, and the attempt writes nothing.
    pub buyer_cancel_after_payment :
        {payment_id : ℕ} {payment : Payment}
        → find_unique w.payments payment_id ≡ some payment
        → payment.invoice_id ≡ invoice_id
        → (e : ApiError) × (cancel_invoice_by_buyer user_id invoice_id ctx w ≡ (err e, w))
    unfolding cancel_invoice_by_buyer
    buyer_cancel_after_payment {payment_id} {payment} paid same =
        elim (Bool-cases (invoice.user_id == user_id)) [
          | inr h ↦ (ApiError.forbidden "You do not own this invoice", ground arith)
          | inl h ↦ elim (Bool-cases (includes buyer_cancellable_invoice_statuses invoice.status)) [
            | inr c ↦ (
              ApiError.bad_request
                  "This reservation can only be cancelled before payment proof is submitted",
              ground arith,
            )
            | inl c ↦
                let several : 0 < count w.payments (is_payment_of invoice_id) =
                  count-pos w.payments (is_payment_of invoice_id) payment_id payment paid
                    (rw (same, ==_refl invoice_id)) in
                (
                  ApiError.bad_request "Cannot cancel after a payment has been submitted",
                  ground arith,
                )
          ]
        ]

    -- The finance team cancels any invoice but a cancelled or a paid one.
    pub admin_cancel-eq_ok :
        is_closed invoice.status ≡ false
        → let (r, w') = cancel_invoice user_id invoice_id ctx w in
          (r ≡ ok (some (invoice_with_status InvoiceStatus.cancelled invoice)))
          × (w'.invoices
              ≡ update w.invoices invoice_id (invoice_with_status InvoiceStatus.cancelled))
          × (w'.listings ≡ release_listing invoice.listing_id w.listings)
    unfolding cancel_invoice
    admin_cancel-eq_ok open_invoice = ground (
      arith,
      ==_refl invoice_id,
      find-update w.invoices invoice_id (invoice_with_status InvoiceStatus.cancelled) invoice_id,
    )

    -- If no buyer has two active invoices for one listing, and the buyer cancels their own invoice for a
    -- listing, which is sent or awaits payment and has no payment, then a search for an active invoice
    -- of theirs for the listing finds none, and the listing, if it was reserved, is published again.
    pub buyer_cancel_frees :
        {listing_id : ℕ} {listing : Listing}
        → OneActive w.invoices
        → invoice.user_id ≡ user_id
        → invoice.listing_id ≡ some listing_id
        → find_unique w.listings listing_id ≡ some listing
        → includes buyer_cancellable_invoice_statuses invoice.status ≡ true
        → count w.payments (is_payment_of invoice_id) ≡ 0
        → let w' = (cancel_invoice_by_buyer user_id invoice_id ctx w).1 in
          (find_first w'.invoices (is_active_for user_id listing_id) ≡ none)
          × (find_unique w'.listings listing_id ≡ some (released listing))
    buyer_cancel_frees {listing_id} {listing} one own linked listed open_invoice unpaid =
        let (_, invoices, listings, _) = buyer_cancel-eq_ok own open_invoice unpaid in
        (
          rw (invoices, sym own)
              (none_active_left w.invoices invoice_id listing_id one found linked
                (ground (arith, open_invoice))),
          rw (listings, linked, find-release, ==_refl listing_id, listed),
        )
