-- ===== src/Orders/Creation/Outcome.antt =====
-- What `create_from_invoice` does, on every branch.
use uza_mobility_bn.Base.{ℕ, ◌≡◌, none, some, arith, Option-cases, inl, inr, ◌⊎◌, String}
use uza_mobility_bn.Js.{Js}
use uza_mobility_bn.Db.{Prisma}
use uza_mobility_bn.Schema.Rows.{Order, Invoice, Listing}
use uza_mobility_bn.Schema.World.{World}
use uza_mobility_bn.Api.{ok, err, bad_request}
use uza_mobility_bn.Platform.Reference.{generate_reference_number, uzm_ord}
use uza_mobility_bn.Orders.Creation.{
  create_from_invoice, order_of_invoice, invoice_listing, new_order,
}

module _ ⦃N : Js⦄ ⦃P : Prisma⦄ where
  open P use {find_unique, insert, new_id}

  module _ (invoice_id : ℕ) (w : World) where
    -- The order's number, as the call finds the data base.
    abbrev pub order_number_now : String
    order_number_now = generate_reference_number w uzm_ord

    pub create-eq_existing :
        {order_id : ℕ} {order : Order}
        → order_of_invoice invoice_id w ≡ some (order_id, order)
        → create_from_invoice invoice_id w ≡ (ok order_id, w)
    unfolding create_from_invoice
    create-eq_existing e = ground arith

    pub create-eq_refused :
        order_of_invoice invoice_id w ≡ none
        → invoice_listing w (find_unique w.invoices invoice_id) ≡ none
        → create_from_invoice invoice_id w
          ≡ (err (bad_request "Order requires an invoice linked to a listing"), w)
    unfolding create_from_invoice
    create-eq_refused e n = ground arith

    pub create-eq_new :
        {invoice : Invoice} {listing_id : ℕ} {listing : Listing}
        → order_of_invoice invoice_id w ≡ none
        → invoice_listing w (find_unique w.invoices invoice_id)
          ≡ some (invoice, listing_id, listing)
        → let (r, w') = create_from_invoice invoice_id w in
          (r ≡ ok (new_id w.orders))
          × (w'.orders
              ≡ insert w.orders (new_order order_number_now invoice invoice_id listing_id listing))
          × (w'.invoices ≡ w.invoices)
          × (w'.payments ≡ w.payments)
    unfolding create_from_invoice
    create-eq_new e n = ground arith

    pub create-cases :
        ((order_id : ℕ) × (order : Order) × (order_of_invoice invoice_id w
            ≡ some (order_id, order)))
        ⊎ ((order_of_invoice invoice_id w ≡ none)
            × (invoice_listing w (find_unique w.invoices invoice_id) ≡ none))
        ⊎ ((invoice : Invoice) × (listing_id : ℕ) × (listing : Listing) × (order_of_invoice
                invoice_id w
              ≡ none)
            × (invoice_listing w (find_unique w.invoices invoice_id)
                ≡ some (invoice, listing_id, listing)))
    create-cases = elim (Option-cases (order_of_invoice invoice_id w)) [
      | inr ((order_id, order), e) ↦ inl (order_id, order, e)
      | inl e ↦ elim (Option-cases (invoice_listing w (find_unique w.invoices invoice_id))) [
        | inl n ↦ inr (inl (e, n))
        | inr ((invoice, listing_id, listing), s) ↦ inr (inr (invoice, listing_id, listing, e, s))
      ]
    ]

    -- An order is created beside the payments, the invoices and the listings, which stay.
    pub create_frame :
        let w' = (create_from_invoice invoice_id w).1 in
        (w'.payments ≡ w.payments)
        × (w'.invoices ≡ w.invoices)
        × (w'.listings ≡ w.listings)
        × (w'.bookings ≡ w.bookings)
    unfolding create_from_invoice
    create_frame = ground arith
