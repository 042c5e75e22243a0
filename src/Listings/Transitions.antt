-- ===== src/Listings/Transitions.antt =====
-- src/modules/listings/listing-transitions.ts.
use uza_mobility_bn.Base.{Bool, List, [], ◌∷◌, ◌&&◌, ◌||◌}
use uza_mobility_bn.Base.Text.{◌===◌, includes}
use uza_mobility_bn.Schema.Catalog.{ListingStatus, listing_status_enum}

-- `ALLOWED_TRANSITIONS`
abbrev pub allowed_transitions : ListingStatus → List ListingStatus
allowed_transitions ListingStatus.draft = ListingStatus.pending_review ∷ []
allowed_transitions ListingStatus.pending_review =
    ListingStatus.approved ∷ ListingStatus.rejected ∷ []
allowed_transitions ListingStatus.approved = ListingStatus.published ∷ ListingStatus.rejected ∷ []
allowed_transitions ListingStatus.published =
    ListingStatus.reserved ∷ ListingStatus.sold ∷ ListingStatus.suspended ∷ ListingStatus.expired
    ∷ ListingStatus.archived ∷ []
allowed_transitions ListingStatus.reserved = ListingStatus.published ∷ ListingStatus.sold ∷ []
allowed_transitions ListingStatus.rejected = ListingStatus.draft ∷ []
allowed_transitions ListingStatus.suspended = ListingStatus.published ∷ []
allowed_transitions ListingStatus.sold = ListingStatus.archived ∷ []
allowed_transitions ListingStatus.expired = ListingStatus.draft ∷ []
allowed_transitions ListingStatus.archived = []

abbrev pub can_transition : ListingStatus → ListingStatus → Bool
can_transition from to = includes (allowed_transitions from) to

-- The test of `assertAdminManualStatusChange`: an administrator may also put a rejected listing back
-- under review.
unfoldable pub admin_may_change : ListingStatus → ListingStatus → Bool
admin_may_change from to =
    from === to
    || can_transition from to
    || from === ListingStatus.rejected && to === ListingStatus.pending_review
