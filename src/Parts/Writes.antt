-- ===== src/Parts/Writes.antt =====
-- src/modules/parts/parts.service.ts: `createForSeller`, `updateOwn`, `deleteOwn`, `adminCreate`,
-- `adminUpdate`, `adminDelete`, `getOwnedPart`, `appendPartPhotos`.
use uza_mobility_bn.Base.{
  ℕ, false, Option, none, some, String, List, [], ◌∷◌, not, ◌||◌, ◌==◌, if◌then◌else◌,
}
use uza_mobility_bn.Base.Text.{◌===◌}
use uza_mobility_bn.Js.{Js}
use uza_mobility_bn.Db.{Prisma}
use uza_mobility_bn.Schema.Market.{PartStatus, part_status_enum}
use uza_mobility_bn.Schema.MarketRows.{Part, PartPhoto}
use uza_mobility_bn.Schema.World.{World}
use uza_mobility_bn.Api.{
  Action, bad_request, not_found, forbidden, ◌>>=◌, ◌>>◌, pure, gets, modify, throw_if, require,
}
use uza_mobility_bn.Platform.Notifications.{send_to_role_names}
use uza_mobility_bn.Platform.Slug.Tables.{unique_slug, resolve_slug}
use uza_mobility_bn.Sellers.Profiles.{seller_of_user, assert_seller_can_trade, get_seller_or_throw}
use uza_mobility_bn.Parts.Rows.{
  part_photos_of, CreatePartPayload, UpdatePartPayload, new_part, as_resubmitted, as_edited,
  as_shown, PartView, to_public_part, to_seller_part, part_submitted, is_photo_of_part,
}

module _ ⦃N : Js⦄ where
  module _ ⦃P : Prisma⦄ where
    open P use {Table, find_unique, insert, update, delete_many, new_id, count}

    add_part_photos : Table PartPhoto → List PartPhoto → Table PartPhoto
    add_part_photos t [] = t
    add_part_photos t (photo ∷ photos) = add_part_photos (insert t photo) photos

    unfoldable pub append_part_photos : ℕ → ℕ → List String → World → World
    unfolding add_part_photos
    append_part_photos part_id before urls w = record w {
      part_photos = add_part_photos w.part_photos (part_photos_of part_id before 0 urls);
    }

    -- The creation that the seller's and the administrator's call share.
    unfoldable pub create_part : Option ℕ → CreatePartPayload → Action World (ℕ × Part)
    unfolding resolve_slug append_part_photos send_to_role_names part_submitted
    create_part seller_id dto = do
      candidate ← gets (λ w. unique_slug w.parts (λ r. r.slug) (λ id. false) dto.name)
      slug ← resolve_slug candidate
      part_id ← gets (λ w. new_id w.parts)
      modify (λ w. record w { parts = insert w.parts (new_part seller_id slug dto) })
      modify (append_part_photos part_id 0 dto.photo_urls)
      send_to_role_names ("SUPER_ADMIN" ∷ [])
          (part_submitted "Part submitted for review" part_id dto.name slug)
      pure (part_id, new_part seller_id slug dto)

    unfoldable pub create_for_seller : ℕ → CreatePartPayload → Action World PartView
    unfolding assert_seller_can_trade create_part to_seller_part
    create_for_seller user_id dto = do
      (seller_id, _) ← assert_seller_can_trade user_id
      (_, part) ← create_part (some seller_id) dto
      pure (to_seller_part part)

    -- `if (dto.sellerId) …`
    unfoldable pub check_seller : Option ℕ → Action World (Unit {0})
    check_seller none = pure tt
    check_seller (some seller_id) = do _ ← get_seller_or_throw seller_id; pure tt

    unfoldable pub admin_create_part : Option ℕ → CreatePartPayload → Action World PartView
    unfolding check_seller create_part to_public_part
    admin_create_part seller_id dto = do
      check_seller seller_id
      (_, part) ← create_part seller_id dto
      pure (to_public_part part)

    abbrev pub part_of : ℕ → ℕ → World → Option Part
    part_of seller_id part_id w = elim (find_unique w.parts part_id) [
      | none ↦ none
      | some part ↦ elim part.seller_id [
        | none ↦ none
        | some id ↦ if id == seller_id then some part else none
      ]
    ]

    unfoldable pub get_owned_part : ℕ → ℕ → Action World Part
    get_owned_part user_id part_id = do
      profile ← gets (seller_of_user user_id)
      (seller_id, _) ← require profile (forbidden "Seller profile is required")
      found ← gets (part_of seller_id part_id)
      require found (not_found "Part not found")

    unfoldable pub announce_resubmission : List String → ℕ → Part → Action World (Unit {0})
    unfolding append_part_photos send_to_role_names part_submitted
    announce_resubmission [] part_id part =
        send_to_role_names ("SUPER_ADMIN" ∷ [])
          (part_submitted "Part resubmitted for review" part_id part.name part.slug)
    announce_resubmission (url ∷ urls) part_id part = do
      before ← gets (λ w. count w.part_photos (is_photo_of_part part_id))
      modify (append_part_photos part_id before (url ∷ urls))

    -- A call that adds photos returns without the notification.
    unfoldable pub update_own : ℕ → ℕ → UpdatePartPayload → Action World PartView
    unfolding assert_seller_can_trade get_owned_part announce_resubmission as_resubmitted
        to_seller_part
    update_own user_id part_id dto = do
      _ ← assert_seller_can_trade user_id
      part ← get_owned_part user_id part_id
      throw_if
          (not (part.status === PartStatus.pending_review || part.status === PartStatus.rejected))
          (bad_request "Only pending or rejected parts can be edited")
      modify (λ w. record w { parts = update w.parts part_id (as_resubmitted dto) })
      announce_resubmission dto.photo_urls part_id (as_resubmitted dto part)
      pure (to_seller_part (as_resubmitted dto part))

    unfoldable pub delete_own : ℕ → ℕ → Action World (Unit {0})
    unfolding assert_seller_can_trade get_owned_part
    delete_own user_id part_id = do
      _ ← assert_seller_can_trade user_id
      _ ← get_owned_part user_id part_id
      modify (λ w. record w { parts = update w.parts part_id (as_shown false) })

    abbrev pub get_part_or_throw : ℕ → Action World Part
    get_part_or_throw part_id = do
      found ← gets (λ w. find_unique w.parts part_id)
      require found (not_found "Part not found")

    unfoldable pub admin_update_part : ℕ → UpdatePartPayload → Option ℕ → Action World PartView
    unfolding check_seller append_part_photos as_edited to_public_part
    admin_update_part part_id dto seller_id = do
      part ← get_part_or_throw part_id
      check_seller seller_id
      modify (λ w. record w { parts = update w.parts part_id (as_edited dto seller_id) })
      before ← gets (λ w. count w.part_photos (is_photo_of_part part_id))
      modify (append_part_photos part_id before dto.photo_urls)
      pure (to_public_part (as_edited dto seller_id part))

    -- The foreign key of the photos deletes with the part.
    unfoldable pub admin_delete_part : ℕ → Action World String
    admin_delete_part part_id = do
      _ ← get_part_or_throw part_id
      modify (λ w. record w {
        parts = delete_many w.parts (λ id _. id == part_id);
        part_photos = delete_many w.part_photos (is_photo_of_part part_id);
      })
      pure "Part deleted"
