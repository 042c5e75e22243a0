-- ===== src/Invoices/Request/Outcome.antt =====
-- What `request_invoice` does, and that a buyer holds at most one active invoice for a listing.
use uza_mobility_bn.Base.{
  ℕ, ◌≡◌, ◌≢◌, refl, sym, ◌∙◌, none, some, Bool, true, arith, inl, inr, ◌⊎◌, Option-cases,
  Bool-cases,
}
use uza_mobility_bn.Base.Text.{includes}
use uza_mobility_bn.Js.{Js}
use uza_mobility_bn.Db.{Prisma, PrismaLaws}
use uza_mobility_bn.Db.Origins.{insert_origin}
use uza_mobility_bn.Schema.Catalog.{listing_status_enum}
use uza_mobility_bn.Schema.Commerce.{invoice_status_enum}
use uza_mobility_bn.Schema.Rows.{User, BuyerProfile, Listing, ListingPricing, Invoice}
use uza_mobility_bn.Schema.World.{World}
use uza_mobility_bn.Api.{ApiError, ok, err}
use uza_mobility_bn.Platform.Audit.{RequestAuditContext}
use uza_mobility_bn.Platform.Settings.{get_company_payment_details}
use uza_mobility_bn.Invoices.Statuses.{active_invoice_statuses}
use uza_mobility_bn.Invoices.Snapshot.{with_payment_accounts_fallback}
use uza_mobility_bn.Invoices.Request.{
  RequestInvoiceDto, published_listing, is_active_for, account_open, requested_invoice,
  request_invoice,
}

module _ ⦃N : Js⦄ ⦃P : Prisma⦄ where
  open P use {Table, find_unique, find_first, insert, new_id}

  module _ (user_id : ℕ) (dto : RequestInvoiceDto) (ctx : RequestAuditContext) (w : World) where
    -- Everything that the request asks for is there.
    pub record IsAccepted (user : User) (profile : BuyerProfile) (listing : Listing)
        (pricing : ListingPricing) : Type 0 where
      pub found_user : find_unique w.users user_id ≡ some user
      pub open_account : account_open (some user) ≡ true
      pub has_profile : user.buyer_profile ≡ some profile
      pub on_offer : published_listing dto.listing_id w ≡ some listing
      pub priced : find_unique w.listing_pricing dto.listing_id ≡ some pricing
      pub none_active : find_first w.invoices (is_active_for user_id dto.listing_id) ≡ none

    pub request-eq_ok :
        {user : User} {profile : BuyerProfile} {listing : Listing} {pricing : ListingPricing}
        → IsAccepted user profile listing pricing
        → let invoice = requested_invoice user_id dto user profile listing pricing w in
          let (r, w') = request_invoice user_id dto ctx w in
          (r
            ≡ ok (
              new_id w.invoices,
              with_payment_accounts_fallback invoice (get_company_payment_details w),
            ))
          × (w'.invoices ≡ insert w.invoices invoice)
          × (w'.listings ≡ w.listings)
          × (w'.orders ≡ w.orders)
    unfolding request_invoice
    request-eq_ok h =
        ground
          (arith, h.found_user, h.open_account, h.has_profile, h.on_offer, h.priced, h.none_active)

    abbrev pub Refused : Type 0
    Refused = (e : ApiError) × (request_invoice user_id dto ctx w ≡ (err e, w))

    abbrev pub Accepted : Type 0
    Accepted =
        (user : User) × (profile : BuyerProfile) × (listing : Listing) × (pricing : ListingPricing)
        × IsAccepted user profile listing pricing

    offer-cases :
        {user : User} {profile : BuyerProfile}
        → find_unique w.users user_id ≡ some user
        → account_open (some user) ≡ true
        → user.buyer_profile ≡ some profile
        → Refused ⊎ Accepted
    unfolding request_invoice
    offer-cases {user} {profile} e o p = elim (Option-cases (published_listing dto.listing_id w)) [
      | inl l ↦ inl (ApiError.not_found "Published listing not found", ground arith)
      | inr (listing, l) ↦ elim (Option-cases (find_unique w.listing_pricing dto.listing_id)) [
        | inl c ↦
            inl (ApiError.bad_request "Listing has no pricing — cannot issue invoice", ground arith)
        | inr (pricing, c) ↦
            elim (Option-cases (find_first w.invoices (is_active_for user_id dto.listing_id))) [
              | inr (_, a) ↦ inl (
                ApiError.bad_request
                    "You already have an active invoice for this vehicle. Complete or cancel it before requesting another.",
                ground arith,
              )
              | inl a ↦ inr (
                user,
                profile,
                listing,
                pricing,
                record {
                  found_user = e;
                  open_account = o;
                  has_profile = p;
                  on_offer = l;
                  priced = c;
                  none_active = a;
                },
              )
            ]
      ]
    ]

    -- A request is refused with nothing written, or everything that it asks for is there.
    pub request-cases : Refused ⊎ Accepted
    unfolding request_invoice
    request-cases = elim (Option-cases (find_unique w.users user_id)) [
      | inl e ↦ inl (ApiError.forbidden "Account is not active", ground arith)
      | inr (user, e) ↦ elim (Bool-cases (account_open (some user))) [
        | inr closed ↦ inl (ApiError.forbidden "Account is not active", ground arith)
        | inl opened ↦ elim (Option-cases user.buyer_profile) [
          | inl p ↦ inl (
            ApiError.bad_request "Complete your buyer profile before requesting an invoice",
            ground arith,
          )
          | inr (profile, p) ↦ offer-cases e opened p
        ]
      ]
    ]

    abbrev pub RequestOutcome : Type 0
    RequestOutcome =
        Refused
        ⊎ ((user : User) × (profile : BuyerProfile) × (listing : Listing)
            × (pricing : ListingPricing) × IsAccepted user profile listing pricing
            × ((request_invoice user_id dto ctx w).0
                ≡ ok (
                  new_id w.invoices,
                  with_payment_accounts_fallback
                      (requested_invoice user_id dto user profile listing pricing w)
                      (get_company_payment_details w),
                ))
            × ((request_invoice user_id dto ctx w).1.invoices
                ≡ insert w.invoices (requested_invoice user_id dto user profile listing pricing w))
            × ((request_invoice user_id dto ctx w).1.listings ≡ w.listings)
            × ((request_invoice user_id dto ctx w).1.orders ≡ w.orders))

    -- Either the request is refused with nothing written; or the account is open, the buyer has a
    -- profile, the listing is published and priced, no invoice of theirs for it is active, and the
    -- call adds one invoice and returns it under its id, and leaves listings and orders alone.
    pub request_outcome : RequestOutcome
    request_outcome = elim request-cases [
      | inl r ↦ inl r
      | inr (user, profile, listing, pricing, h) ↦
          let (r, invoices, listings, orders) = request-eq_ok h in
          inr (user, profile, listing, pricing, h, r, invoices, listings, orders)
    ]

  abbrev pub is_active : Invoice → Bool
  is_active invoice = includes active_invoice_statuses invoice.status

  -- No buyer has two active invoices for one listing.
  abbrev pub OneActive : Table Invoice → Type 0
  OneActive t =
      (i j : ℕ) (a b : Invoice) (listing_id : ℕ)
      → find_unique t i ≡ some a
      → find_unique t j ≡ some b
      → a.user_id ≡ b.user_id
      → a.listing_id ≡ some listing_id
      → b.listing_id ≡ some listing_id
      → is_active a ≡ true
      → is_active b ≡ true
      → i ≡ j

  module _ ⦃L : PrismaLaws⦄ where
    open L use {find_first-none}

    -- Where the search found nothing, no active row is of that buyer and listing.
    no_other :
        (t : Table Invoice) (user_id listing_id : ℕ)
        → find_first t (is_active_for user_id listing_id) ≡ none
        → (i : ℕ) (a : Invoice) → find_unique t i ≡ some a
        → a.user_id ≡ user_id
        → a.listing_id ≡ some listing_id
        → is_active a ≢ true
    no_other t user_id listing_id n i a found user listing active =
        absurd (ground (arith, find_first-none t (is_active_for user_id listing_id) i a n found))

    abbrev Origin : Table Invoice → Invoice → Invoice → ℕ → Type 0
    Origin t r x k = ((new_id t ≡ k) × (r ≡ x)) ⊎ (find_unique t k ≡ some x)

    insert-OneActive :
        (t : Table Invoice) (r : Invoice) (listing_id : ℕ)
        → OneActive t
        → r.listing_id ≡ some listing_id
        → find_first t (is_active_for r.user_id listing_id) ≡ none
        → OneActive (insert t r)
    insert-OneActive t r listing_id one linked n i j a b l found_a found_b user la lb active_a
          active_b =
        join (insert_origin t r a i found_a) (insert_origin t r b j found_b)
      where
        join : Origin t r a i → Origin t r b j → i ≡ j
        join (inl (p, _)) (inl (q, _)) = sym p ∙ q
        join (inr p) (inr q) = one i j a b l p q user la lb active_a active_b
        join (inl (p, e)) (inr q) = absurd (
            no_other t r.user_id listing_id n j b q (ground (arith, e)) (ground (arith, e))
              active_b)
        join (inr p) (inl (q, e)) = absurd (
            no_other t r.user_id listing_id n i a p (ground (arith, e)) (ground (arith, e))
              active_a)

    -- A request, accepted or refused, leaves each buyer with at most one active invoice for a
    -- listing, if that was so before.
    pub request_keeps_OneActive :
        (user_id : ℕ) (dto : RequestInvoiceDto) (ctx : RequestAuditContext) (w : World)
        → OneActive w.invoices
        → OneActive (request_invoice user_id dto ctx w).1.invoices
    unfolding requested_invoice
    request_keeps_OneActive user_id dto ctx w one = elim (request-cases user_id dto ctx w) [
      | inl (e, same) ↦ rw same one
      | inr (user, profile, listing, pricing, h) ↦
          let (_, written, _, _) = request-eq_ok user_id dto ctx w h in
          rw written (
            insert-OneActive w.invoices
              (requested_invoice user_id dto user profile listing pricing w) dto.listing_id one refl
              h.none_active)
    ]
