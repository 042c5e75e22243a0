-- ===== src/Parts/Review.antt =====
-- src/modules/parts/parts.service.ts: `adminApprove`, `adminReject`, `adminSetActive`.
use uza_mobility_bn.Base.{ℕ, Bool, true, false, Option, none, some, String, [], ◌∷◌, not, ◌&&◌}
use uza_mobility_bn.Base.Text.{◌<>◌, ◌===◌, name_of}
use uza_mobility_bn.Js.{Js}
use uza_mobility_bn.Db.{Prisma}
use uza_mobility_bn.Schema.Market.{PartStatus, part_status_enum}
use uza_mobility_bn.Schema.Requests.{NotificationType}
use uza_mobility_bn.Schema.Rows.{Json, Seller}
use uza_mobility_bn.Schema.MarketRows.{Part}
use uza_mobility_bn.Schema.World.{World}
use uza_mobility_bn.Api.{Action, bad_request, ◌>>=◌, ◌>>◌, pure, gets, modify, throw_if}
use uza_mobility_bn.Platform.Notifications.{Message, send}
use uza_mobility_bn.Parts.Writes.{get_part_or_throw}
use uza_mobility_bn.Parts.Rows.{PartView, to_public_part, as_shown}

module _ ⦃N : Js⦄ where
  abbrev pub as_approved_part : Part → Part
  as_approved_part part = record part {
    status = PartStatus.approved;
    is_active = true;
    admin_notes = none;
  }

  abbrev pub as_rejected_part : String → Part → Part
  as_rejected_part reason part = record part {
    status = PartStatus.rejected;
    is_active = false;
    admin_notes = some reason;
  }

  part_message : NotificationType → String → String → ℕ → Part → Message
  part_message kind title body part_id part = record {
    kind = kind;
    title = title;
    body = body;
    metadata = ("partId", Json.id part_id) ∷ ("slug", Json.text part.slug) ∷ [];
  }

  module _ ⦃P : Prisma⦄ where
    open P use {find_unique, update}

    abbrev pub seller_of_part : Option ℕ → World → Option Seller
    seller_of_part none w = none
    seller_of_part (some seller_id) w = find_unique w.sellers seller_id

    unfoldable pub notify_seller : Option Seller → Message → Action World (Unit {0})
    unfolding send
    notify_seller none m = pure tt
    notify_seller (some seller) m = send seller.user_id m

    unfoldable pub admin_approve_part : ℕ → Action World PartView
    unfolding notify_seller part_message to_public_part
    admin_approve_part part_id = do
      part ← get_part_or_throw part_id
      throw_if (not (part.status === PartStatus.pending_review))
          (bad_request ("Cannot approve part in status " <> name_of part.status))
      modify (λ w. record w { parts = update w.parts part_id as_approved_part })
      seller ← gets (seller_of_part part.seller_id)
      notify_seller seller (
          part_message NotificationType.listing_approved "Your part listing is approved"
            (part.name <> " is now visible in the marketplace.") part_id part)
      pure (to_public_part (as_approved_part part))

    unfoldable pub admin_reject_part : ℕ → String → Action World PartView
    unfolding notify_seller part_message to_public_part
    admin_reject_part part_id reason = do
      part ← get_part_or_throw part_id
      throw_if (not (part.status === PartStatus.pending_review))
          (bad_request ("Cannot reject part in status " <> name_of part.status))
      modify (λ w. record w { parts = update w.parts part_id (as_rejected_part reason) })
      seller ← gets (seller_of_part part.seller_id)
      notify_seller seller (
          part_message NotificationType.listing_rejected "Part listing rejected" reason part_id
            part)
      pure (to_public_part (as_rejected_part reason part))

    unfoldable pub admin_set_active : ℕ → Bool → Action World PartView
    unfolding to_public_part
    admin_set_active part_id is_active = do
      part ← get_part_or_throw part_id
      throw_if (is_active && not (part.status === PartStatus.approved))
          (bad_request "Only approved parts can be activated for public browse")
      modify (λ w. record w { parts = update w.parts part_id (as_shown is_active) })
      pure (to_public_part (as_shown is_active part))
