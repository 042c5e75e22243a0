-- ===== src/Sellers/Moderation.antt =====
-- src/modules/sellers/sellers.service.ts: `verifySeller`, `suspendSeller`, `reactivateSeller`.
use uza_mobility_bn.Base.{ℕ, Bool, true, false, Option, none, some, String, [], ◌∷◌, not, is_some}
use uza_mobility_bn.Base.Text.{◌===◌}
use uza_mobility_bn.Js.{Js}
use uza_mobility_bn.Db.{Prisma}
use uza_mobility_bn.Schema.Market.{SellerStatus, seller_status_enum}
use uza_mobility_bn.Schema.Rows.{Seller, Json}
use uza_mobility_bn.Schema.World.{World}
use uza_mobility_bn.Api.{Action, bad_request, ◌>>=◌, ◌>>◌, pure, gets, modify, throw_if}
use uza_mobility_bn.Platform.Audit.{RequestAuditContext, record_activity}
use uza_mobility_bn.Platform.Roles.{with_role}
use uza_mobility_bn.Sellers.Profiles.{assert_marketplace_seller_moderation, get_seller_or_throw}
use text.Mathlib.Text.{◌==◌ as str_eq}

abbrev pub as_verified : ℕ → Seller → Seller
as_verified now seller = record seller {
  status = SellerStatus.active;
  is_verified = true;
  verified_at = some now;
}

abbrev pub as_suspended : Seller → Seller
as_suspended seller = record seller { status = SellerStatus.suspended; is_verified = false }

abbrev pub as_reactivated : Bool → Seller → Seller
as_reactivated is_verified seller = record seller {
  status = SellerStatus.active;
  is_verified = is_verified;
}

module _ ⦃N : Js⦄ ⦃P : Prisma⦄ where
  open P use {find_first, update}

  -- The role `SELLER`, if there is such a role; a user who has it keeps it.
  unfoldable pub grant_seller_role : ℕ → Bool → World → World
  grant_seller_role user_id false w = w
  grant_seller_role user_id true w = record w {
    users = update w.users user_id (with_role "SELLER");
  }

  abbrev pub seller_role_exists : World → Bool
  seller_role_exists w = is_some (find_first w.roles (λ _ role. str_eq role.name "SELLER"))

  unfoldable pub verify_seller : ℕ → ℕ → RequestAuditContext → Action World Seller
  unfolding assert_marketplace_seller_moderation grant_seller_role record_activity
  verify_seller seller_id admin ctx = do
    seller ← get_seller_or_throw seller_id
    assert_marketplace_seller_moderation seller.seller_type
    throw_if (seller.status === SellerStatus.suspended)
        (bad_request "Cannot verify a suspended seller — reactivate first")
    now ← gets (λ w. w.now)
    modify (λ w. record w { sellers = update w.sellers seller_id (as_verified now) })
    exists ← gets seller_role_exists
    modify (grant_seller_role seller.user_id exists)
    record_activity admin "sellers:verified" "Seller" none ctx (
        some (
          ("email", Json.nullable ctx.actor_email)
          ∷ ("sellerId", Json.id seller_id)
          ∷ ("businessName", Json.text seller.business_name)
          ∷ []))
    pure (as_verified now seller)

  unfoldable pub suspend_seller : ℕ → ℕ → Option String → RequestAuditContext → Action World Seller
  unfolding assert_marketplace_seller_moderation record_activity
  suspend_seller seller_id admin reason ctx = do
    seller ← get_seller_or_throw seller_id
    assert_marketplace_seller_moderation seller.seller_type
    throw_if (seller.status === SellerStatus.suspended) (bad_request "Seller is already suspended")
    modify (λ w. record w { sellers = update w.sellers seller_id as_suspended })
    record_activity admin "sellers:suspended" "Seller" none ctx (
        some (
          ("email", Json.nullable ctx.actor_email)
          ∷ ("sellerId", Json.id seller_id)
          ∷ ("businessName", Json.text seller.business_name)
          ∷ ("reason", Json.nullable reason)
          ∷ []))
    pure (as_suspended seller)

  unfoldable pub reactivate_seller : ℕ → ℕ → RequestAuditContext → Action World Seller
  unfolding assert_marketplace_seller_moderation record_activity
  reactivate_seller seller_id admin ctx = do
    seller ← get_seller_or_throw seller_id
    assert_marketplace_seller_moderation seller.seller_type
    throw_if (not (seller.status === SellerStatus.suspended))
        (bad_request "Only suspended sellers can be reactivated")
    modify
        (λ w. record w { sellers = update w.sellers seller_id (as_reactivated seller.is_verified) })
    record_activity admin "sellers:reactivated" "Seller" none ctx (
        some (
          ("email", Json.nullable ctx.actor_email)
          ∷ ("sellerId", Json.id seller_id)
          ∷ ("businessName", Json.text seller.business_name)
          ∷ []))
    pure (as_reactivated seller.is_verified seller)
