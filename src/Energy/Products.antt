-- ===== src/Energy/Products.antt =====
-- src/modules/energy/energy.service.ts: the charging products.
use uza_mobility_bn.Base.{
  ℕ, suc, Bool, true, false, Option, none, some, String, List, [], ◌∷◌, ◌&&◌, ◌==◌, get_or,
}
use uza_mobility_bn.Js.{Js}
use uza_mobility_bn.Db.{Prisma}
use uza_mobility_bn.Db.Columns.{given, given_option}
use uza_mobility_bn.Schema.MarketRows.{ChargingProduct, ChargingProductPhoto}
use uza_mobility_bn.Schema.World.{World}
use uza_mobility_bn.Api.{Action, not_found, ◌>>=◌, ◌>>◌, pure, gets, modify, require}
use uza_mobility_bn.Platform.Slug.Tables.{unique_slug, resolve_slug}

unfoldable pub product_photos : ℕ → ℕ → ℕ → List String → List ChargingProductPhoto
product_photos product_id before index [] = []
product_photos product_id before index (url ∷ urls) =
    record { product_id = product_id; url = url; is_primary = before == 0 && index == 0 }
    ∷ product_photos product_id before (suc index) urls

module _ ⦃N : Js⦄ where
  open N use {Num}

  pub record CreateChargingProductPayload : Type 0 where
    pub name : String
    pub product_type : String
    pub brand : Option String
    pub power_kw : Option Num
    pub voltage : Option String
    pub connector_types : Option (List String)
    pub solar_included : Option Bool
    pub price_usd : Option Num
    pub description : Option String
    pub photo_urls : List String

  pub record UpdateChargingProductPayload : Type 0 where
    pub name : Option String
    pub product_type : Option String
    pub brand : Option String
    pub power_kw : Option Num
    pub voltage : Option String
    pub connector_types : Option (List String)
    pub solar_included : Option Bool
    pub price_usd : Option Num
    pub description : Option String
    pub photo_urls : List String

  unfoldable pub new_product : String → CreateChargingProductPayload → ChargingProduct
  new_product slug dto = record {
    name = dto.name;
    slug = slug;
    product_type = dto.product_type;
    brand = dto.brand;
    power_kw = dto.power_kw;
    voltage = dto.voltage;
    connector_types = get_or dto.connector_types [];
    solar_included = get_or dto.solar_included false;
    price_usd = dto.price_usd;
    description = dto.description;
    is_active = true;
  }

  unfoldable pub with_product_data :
      UpdateChargingProductPayload → ChargingProduct → ChargingProduct
  with_product_data dto product = record product {
    name = given dto.name product.name;
    product_type = given dto.product_type product.product_type;
    brand = given_option dto.brand product.brand;
    power_kw = given_option dto.power_kw product.power_kw;
    voltage = given_option dto.voltage product.voltage;
    connector_types = given dto.connector_types product.connector_types;
    solar_included = given dto.solar_included product.solar_included;
    price_usd = given_option dto.price_usd product.price_usd;
    description = given_option dto.description product.description;
  }

  module _ ⦃P : Prisma⦄ where
    open P use {Table, find_unique, insert, update, new_id, count}

    abbrev pub active_product : ℕ → World → Option ChargingProduct
    active_product product_id w = elim (find_unique w.charging_products product_id) [
      | none ↦ none
      | some product ↦ elim product.is_active [ true ↦ some product | false ↦ none ]
    ]

    unfoldable pub find_product_by_id : ℕ → Action World ChargingProduct
    find_product_by_id product_id = do
      found ← gets (active_product product_id)
      require found (not_found "Charging product not found")

    add_product_photos :
        Table ChargingProductPhoto → List ChargingProductPhoto → Table ChargingProductPhoto
    add_product_photos t [] = t
    add_product_photos t (photo ∷ photos) = add_product_photos (insert t photo) photos

    unfoldable pub create_product :
        CreateChargingProductPayload → Action World (ℕ × ChargingProduct)
    unfolding resolve_slug add_product_photos
    create_product dto = do
      candidate ← gets (λ w. unique_slug w.charging_products (λ r. r.slug) (λ id. false) dto.name)
      slug ← resolve_slug candidate
      product_id ← gets (λ w. new_id w.charging_products)
      modify (λ w. record w {
        charging_products = insert w.charging_products (new_product slug dto);
        charging_product_photos =
            add_product_photos w.charging_product_photos
              (product_photos product_id 0 0 dto.photo_urls);
      })
      pure (product_id, new_product slug dto)

    abbrev pub get_product_or_throw : ℕ → Action World ChargingProduct
    get_product_or_throw product_id = do
      found ← gets (λ w. find_unique w.charging_products product_id)
      require found (not_found "Charging product not found")

    -- With photos, the answer is the product as the public finds it.
    unfoldable pub answer_product : List String → ℕ → ChargingProduct → Action World ChargingProduct
    unfolding add_product_photos find_product_by_id
    answer_product [] product_id updated = pure updated
    answer_product (url ∷ urls) product_id updated = do
      before ←
          gets (λ w. count w.charging_product_photos (λ _ photo. photo.product_id == product_id))
      modify (λ w. record w {
        charging_product_photos =
            add_product_photos w.charging_product_photos
              (product_photos product_id before 0 (url ∷ urls));
      })
      find_product_by_id product_id

    unfoldable pub update_product : ℕ → UpdateChargingProductPayload → Action World ChargingProduct
    unfolding answer_product
    update_product product_id dto = do
      existing ← get_product_or_throw product_id
      modify (λ w. record w {
        charging_products = update w.charging_products product_id (with_product_data dto);
      })
      answer_product dto.photo_urls product_id (with_product_data dto existing)
