-- ===== src/Sellers/Profiles.antt =====
-- src/modules/sellers/seller-profile.util.ts, and `assertSellerCanTrade` and `getSellerOrThrow` of
-- sellers.service.ts.
use uza_mobility_bn.Base.{
  ℕ, Bool, true, false, Option, none, some, List, [], ◌∷◌, not, ◌&&◌, ◌||◌, ◌==◌,
}
use uza_mobility_bn.Base.Text.{includes, ◌===◌}
use uza_mobility_bn.Js.{Js}
use uza_mobility_bn.Db.{Prisma}
use uza_mobility_bn.Schema.Catalog.{SellerType, seller_type_enum}
use uza_mobility_bn.Schema.Market.{SellerStatus, seller_status_enum}
use uza_mobility_bn.Schema.Rows.{Seller}
use uza_mobility_bn.Schema.World.{World}
use uza_mobility_bn.Api.{Action, bad_request, not_found, ◌>>=◌, ◌>>◌, pure, gets, throw_if, require}

abbrev pub marketplace_seller_types : List SellerType
marketplace_seller_types = SellerType.local_seller ∷ SellerType.international_seller ∷ []

abbrev pub is_marketplace_seller_type : SellerType → Bool
is_marketplace_seller_type seller_type = includes marketplace_seller_types seller_type

abbrev pub marketplace_seller_filter : ℕ → ℕ → Seller → Bool
marketplace_seller_filter user_id _ seller =
    seller.user_id == user_id && is_marketplace_seller_type seller.seller_type

first_marketplace : List (ℕ × Seller) → Option (ℕ × Seller)
first_marketplace [] = none
first_marketplace ((id, seller) ∷ sellers) =
    let later = first_marketplace sellers in
    elim (is_marketplace_seller_type seller.seller_type) [
      | true ↦ some (id, seller)
      | false ↦ later
    ]

abbrev first_of : List (ℕ × Seller) → Option (ℕ × Seller)
first_of [] = none
first_of (seller ∷ _) = some seller

unfoldable pub pick_primary_me_seller : List (ℕ × Seller) → Option (ℕ × Seller)
unfolding first_marketplace
pick_primary_me_seller sellers = elim (first_marketplace sellers) [
  | some seller ↦ some seller
  | none ↦ first_of sellers
]

module _ ⦃N : Js⦄ ⦃P : Prisma⦄ where
  open P use {find_unique, find_first}

  unfoldable pub assert_marketplace_seller_moderation : SellerType → Action World (Unit {0})
  assert_marketplace_seller_moderation seller_type =
      throw_if (not (is_marketplace_seller_type seller_type)) (
        bad_request
          "Platform inventory profiles cannot be verified or suspended from Sellers admin")

  abbrev pub seller_of_user : ℕ → World → Option (ℕ × Seller)
  seller_of_user user_id w = find_first w.sellers (marketplace_seller_filter user_id)

  unfoldable pub assert_seller_can_trade : ℕ → Action World (ℕ × Seller)
  assert_seller_can_trade user_id = do
    found ← gets (seller_of_user user_id)
    (seller_id, seller) ← require found (not_found "Seller profile not found")
    throw_if (seller.status === SellerStatus.suspended)
        (bad_request "Your seller account is suspended. Contact UZA support.")
    throw_if (not (seller.status === SellerStatus.active) || not seller.is_verified)
        (bad_request "Your seller account must be verified before you can manage listings")
    pure (seller_id, seller)

  abbrev pub get_seller_or_throw : ℕ → Action World Seller
  get_seller_or_throw seller_id = do
    found ← gets (λ w. find_unique w.sellers seller_id)
    require found (not_found "Seller not found")
