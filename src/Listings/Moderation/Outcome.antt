-- ===== src/Listings/Moderation/Outcome.antt =====
-- What each call of the moderators does, on every branch.
use uza_mobility_bn.Base.{
  ℕ, ◌≡◌, String, some, true, arith, inl, inr, ◌⊎◌, Option-cases, Bool-cases,
}
use uza_mobility_bn.Base.Text.{◌<>◌, name_of}
use uza_mobility_bn.Js.{Js}
use uza_mobility_bn.Db.{Prisma}
use uza_mobility_bn.Schema.Catalog.{ListingStatus, listing_status_enum}
use uza_mobility_bn.Schema.Rows.{Listing}
use uza_mobility_bn.Schema.World.{World}
use uza_mobility_bn.Api.{ApiError, Action, ok, err, bad_request, not_found, internal}
use uza_mobility_bn.Platform.Audit.{RequestAuditContext}
use uza_mobility_bn.Listings.Transitions.{can_transition}
use uza_mobility_bn.Listings.Moderation.{
  moved_to, published_at_time, turned_down, kept_listing, transition_listing, admin_publish,
  admin_reject,
}

module _ ⦃N : Js⦄ ⦃P : Prisma⦄ where
  open P use {find_unique, update}

  module _ (listing_id : ℕ) (w : World) where
    -- The call throws and writes nothing, or moves the listing by an allowed transition to a status,
    -- by a change of that row alone, and returns it.
    abbrev pub MovesTo : ListingStatus → (Listing → Listing) → Action World Listing → Type 0
    MovesTo to change call =
        ((e : ApiError) × (call w ≡ (err e, w)))
        ⊎ ((listing : Listing) × (kept_listing listing_id w ≡ some listing)
            × (can_transition listing.status to ≡ true)
            × ((call w).0 ≡ ok (change listing))
            × ((call w).1.listings ≡ update w.listings listing_id change))

    pub transition-cases :
        (to : ListingStatus) (admin : ℕ) (action : String) (ctx : RequestAuditContext)
        → MovesTo to (moved_to to) (transition_listing listing_id to admin action ctx)
    unfolding transition_listing
    transition-cases to admin action ctx = elim (Option-cases (kept_listing listing_id w)) [
      | inl e ↦ inl (not_found "Listing not found", ground arith)
      | inr (listing, e) ↦ elim (Option-cases (find_unique w.sellers listing.seller_id)) [
        | inl s ↦ inl (internal "the foreign key of the seller", ground arith)
        | inr (seller, s) ↦ elim (Bool-cases (can_transition listing.status to)) [
          | inr c ↦ inl (
            bad_request (
                "Cannot transition listing from "
                <> name_of listing.status
                <> " to "
                <> name_of to),
            ground arith,
          )
          | inl c ↦ inr (listing, e, c, ground arith, ground arith)
        ]
      ]
    ]

    pub publish-cases :
        (admin : ℕ) (ctx : RequestAuditContext)
        → MovesTo ListingStatus.published
            (published_at_time w.now)
            (admin_publish listing_id admin ctx)
    unfolding admin_publish
    publish-cases admin ctx = elim (Option-cases (kept_listing listing_id w)) [
      | inl e ↦ inl (not_found "Listing not found", ground arith)
      | inr (listing, e) ↦ elim (Option-cases (find_unique w.sellers listing.seller_id)) [
        | inl s ↦ inl (internal "the foreign key of the seller", ground arith)
        | inr (seller, s) ↦
            elim (Bool-cases (can_transition listing.status ListingStatus.published)) [
              | inr c ↦ inl (
                bad_request (
                    "Cannot transition listing from "
                    <> name_of listing.status
                    <> " to "
                    <> "PUBLISHED"),
                ground arith,
              )
              | inl c ↦ inr (listing, e, c, ground arith, ground arith)
            ]
      ]
    ]

    pub reject_listing-cases :
        (admin : ℕ) (reason : String) (ctx : RequestAuditContext)
        → MovesTo ListingStatus.rejected
            (turned_down reason)
            (admin_reject listing_id admin reason ctx)
    unfolding admin_reject
    reject_listing-cases admin reason ctx = elim (Option-cases (kept_listing listing_id w)) [
      | inl e ↦ inl (not_found "Listing not found", ground arith)
      | inr (listing, e) ↦ elim (Option-cases (find_unique w.sellers listing.seller_id)) [
        | inl s ↦ inl (internal "the foreign key of the seller", ground arith)
        | inr (seller, s) ↦
            elim (Bool-cases (can_transition listing.status ListingStatus.rejected)) [
              | inr c ↦ inl (
                bad_request (
                    "Cannot transition listing from "
                    <> name_of listing.status
                    <> " to "
                    <> "REJECTED"),
                ground arith,
              )
              | inl c ↦ inr (listing, e, c, ground arith, ground arith)
            ]
      ]
    ]
