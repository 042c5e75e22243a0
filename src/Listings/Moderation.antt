-- ===== src/Listings/Moderation.antt =====
-- src/modules/listings/listings.service.ts: `adminApprove`, `adminPublish`, `adminUnpublish`,
-- `adminReject` and `transitionListing`.
pub mod Outcome
pub mod Paths
use uza_mobility_bn.Base.{
  ℕ, Bool, true, false, Option, none, some, String, [], ◌∷◌, not, is_some, if◌then◌else◌,
}
use uza_mobility_bn.Base.Text.{◌<>◌, ◌===◌, name_of}
use uza_mobility_bn.Js.{Js}
use uza_mobility_bn.Db.{Prisma}
use uza_mobility_bn.Schema.Catalog.{ListingStatus, listing_status_enum}
use uza_mobility_bn.Schema.Requests.{NotificationType}
use uza_mobility_bn.Schema.Rows.{Listing, Seller, Json}
use uza_mobility_bn.Schema.World.{World}
use uza_mobility_bn.Api.{
  Action, bad_request, not_found, internal, ◌>>=◌, ◌>>◌, pure, gets, modify, throw_if, require,
}
use uza_mobility_bn.Platform.Notifications.{Message, send}
use uza_mobility_bn.Platform.Audit.{RequestAuditContext, record_activity}
use uza_mobility_bn.Listings.Transitions.{can_transition}

-- The data of the updates.
abbrev pub moved_to : ListingStatus → Listing → Listing
moved_to status listing = record listing { status = status }

abbrev pub published_at_time : ℕ → Listing → Listing
published_at_time now listing = record listing {
  status = ListingStatus.published;
  published_at = some now;
}

abbrev pub turned_down : String → Listing → Listing
turned_down reason listing = record listing {
  status = ListingStatus.rejected;
  admin_notes = some reason;
}

module _ ⦃N : Js⦄ where
  abbrev listing_message :
      NotificationType → String → String → ℕ → Listing → String × Json N.Num → Message
  listing_message kind title body listing_id listing extra = record {
    kind = kind;
    title = title;
    body = body;
    metadata = ("listingId", Json.id listing_id) ∷ ("slug", Json.text listing.slug) ∷ extra ∷ [];
  }

  module _ ⦃P : Prisma⦄ where
    open P use {find_unique, update}

    -- `listing.findFirst({ where: { id, deletedAt: null } })`
    abbrev pub kept_listing : ℕ → World → Option Listing
    kept_listing listing_id w = elim (find_unique w.listings listing_id) [
      | none ↦ none
      | some listing ↦ if is_some listing.deleted_at then none else some listing
    ]

    -- A listing with its seller, which a foreign key ties to it.
    unfoldable pub get_listing_or_throw : ℕ → Action World (Listing × Seller)
    get_listing_or_throw listing_id = do
      found ← gets (λ w. kept_listing listing_id w)
      listing ← require found (not_found "Listing not found")
      joined ← gets (λ w. find_unique w.sellers listing.seller_id)
      seller ← require joined (internal "the foreign key of the seller")
      pure (listing, seller)

    unfoldable pub assert_transition : ListingStatus → ListingStatus → Action World (Unit {0})
    assert_transition from to =
        throw_if (not (can_transition from to))
          (bad_request ("Cannot transition listing from " <> name_of from <> " to " <> name_of to))

    abbrev update_listing : ℕ → (Listing → Listing) → World → World
    update_listing listing_id change w = record w { listings = update w.listings listing_id change }

    abbrev when : Bool → Action World (Unit {0}) → Action World (Unit {0})
    when true act = act
    when false act = pure tt

    unfoldable pub transition_listing :
        ℕ → ListingStatus → ℕ → String → RequestAuditContext → Action World Listing
    unfolding get_listing_or_throw assert_transition send record_activity
    transition_listing listing_id to admin action ctx = do
      (listing, seller) ← get_listing_or_throw listing_id
      assert_transition listing.status to
      modify (update_listing listing_id (moved_to to))
      record_activity admin action "Listing" none ctx (
          some (
            ("email", Json.nullable ctx.actor_email)
            ∷ ("slug", Json.text listing.slug)
            ∷ ("status", Json.text (name_of to))
            ∷ []))
      when (to === ListingStatus.approved) (
          send seller.user_id (
            listing_message NotificationType.listing_approved "Your listing has been approved"
              (listing.listing_title <> " was approved and can be published by our team.")
              listing_id listing ("status", Json.text (name_of to))))
      pure (moved_to to listing)

    unfoldable pub admin_approve : ℕ → ℕ → RequestAuditContext → Action World Listing
    unfolding transition_listing
    admin_approve listing_id admin ctx =
        transition_listing listing_id ListingStatus.approved admin "listings:approved" ctx

    unfoldable pub admin_unpublish : ℕ → ℕ → RequestAuditContext → Action World Listing
    unfolding transition_listing
    admin_unpublish listing_id admin ctx =
        transition_listing listing_id ListingStatus.suspended admin "listings:unpublished" ctx

    unfoldable pub admin_publish : ℕ → ℕ → RequestAuditContext → Action World Listing
    unfolding get_listing_or_throw assert_transition send record_activity
    admin_publish listing_id admin ctx = do
      (listing, seller) ← get_listing_or_throw listing_id
      assert_transition listing.status ListingStatus.published
      now ← gets (λ w. w.now)
      modify (update_listing listing_id (published_at_time now))
      record_activity admin "listings:published" "Listing" none ctx
          (some (("email", Json.nullable ctx.actor_email) ∷ ("slug", Json.text listing.slug) ∷ []))
      send seller.user_id (
          listing_message NotificationType.listing_approved "Your listing is now live"
            (listing.listing_title <> " has been published on UZA Mobility.") listing_id listing
            ("status", Json.text (name_of ListingStatus.published)))
      pure (published_at_time now listing)

    unfoldable pub admin_reject : ℕ → ℕ → String → RequestAuditContext → Action World Listing
    unfolding get_listing_or_throw assert_transition send record_activity
    admin_reject listing_id admin reason ctx = do
      (listing, seller) ← get_listing_or_throw listing_id
      assert_transition listing.status ListingStatus.rejected
      modify (update_listing listing_id (turned_down reason))
      record_activity admin "listings:rejected" "Listing" none ctx (
          some (
            ("email", Json.nullable ctx.actor_email)
            ∷ ("slug", Json.text listing.slug)
            ∷ ("reason", Json.text reason)
            ∷ []))
      send seller.user_id (
          listing_message NotificationType.listing_rejected "Your listing needs changes"
            (listing.listing_title <> " was not approved. Reason: " <> reason) listing_id listing
            ("reason", Json.text reason))
      pure (turned_down reason listing)
