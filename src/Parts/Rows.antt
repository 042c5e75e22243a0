-- ===== src/Parts/Rows.antt =====
-- src/modules/parts: what the calls write, from the inputs of dto/, and part.mapper.ts.
use uza_mobility_bn.Base.{
  ℕ, suc, Bool, false, Option, none, String, List, [], ◌∷◌, ◌&&◌, ◌==◌, ltb, get_or, if◌then◌else◌,
}
use uza_mobility_bn.Base.Text.{◌<>◌, ◌===◌}
use uza_mobility_bn.Js.{Js}
use uza_mobility_bn.Db.Columns.{given, given_option}
use uza_mobility_bn.Schema.Market.{PartStatus, part_status_enum}
use uza_mobility_bn.Schema.Requests.{NotificationType}
use uza_mobility_bn.Schema.Rows.{Json}
use uza_mobility_bn.Schema.MarketRows.{Part, PartPhoto}
use uza_mobility_bn.Platform.Notifications.{Message}
use uza_mobility_bn.Platform.Settings.{filled}

-- The photos of a call, where the part has `before` photos.
unfoldable pub part_photos_of : ℕ → ℕ → ℕ → List String → List PartPhoto
part_photos_of part_id before index [] = []
part_photos_of part_id before index (url ∷ urls) =
    record { part_id = part_id; url = url; is_primary = before == 0 && index == 0 }
    ∷ part_photos_of part_id before (suc index) urls

module _ ⦃N : Js⦄ where
  open N use {Num}

  pub record CreatePartPayload : Type 0 where
    pub name : String
    pub category_slug : String
    pub compatible_brands : Option (List String)
    pub compatible_models : Option (List String)
    pub condition : String
    pub price_usd : Num
    pub stock_quantity : ℕ
    pub delivery_estimate : Option String
    pub has_warranty : Option Bool
    pub warranty_details : Option String
    pub description : Option String
    pub photo_urls : List String

  pub record UpdatePartPayload : Type 0 where
    pub name : Option String
    pub category_slug : Option String
    pub compatible_brands : Option (List String)
    pub compatible_models : Option (List String)
    pub condition : Option String
    pub price_usd : Option Num
    pub stock_quantity : Option ℕ
    pub delivery_estimate : Option String
    pub has_warranty : Option Bool
    pub warranty_details : Option String
    pub description : Option String
    pub photo_urls : List String

  -- The data of both creations.
  unfoldable pub new_part : Option ℕ → String → CreatePartPayload → Part
  new_part seller_id slug dto = record {
    seller_id = seller_id;
    name = dto.name;
    slug = slug;
    category_slug = dto.category_slug;
    compatible_brands = get_or dto.compatible_brands [];
    compatible_models = get_or dto.compatible_models [];
    condition = dto.condition;
    price_usd = dto.price_usd;
    stock_quantity = dto.stock_quantity;
    delivery_estimate = dto.delivery_estimate;
    has_warranty = get_or dto.has_warranty false;
    warranty_details = dto.warranty_details;
    description = dto.description;
    status = PartStatus.pending_review;
    admin_notes = none;
    is_active = false;
  }

  -- The columns that both updates write.
  abbrev with_part_data : UpdatePartPayload → Part → Part
  with_part_data dto part = record part {
    name = given dto.name part.name;
    category_slug = given dto.category_slug part.category_slug;
    compatible_brands = given dto.compatible_brands part.compatible_brands;
    compatible_models = given dto.compatible_models part.compatible_models;
    condition = given dto.condition part.condition;
    price_usd = given dto.price_usd part.price_usd;
    stock_quantity = given dto.stock_quantity part.stock_quantity;
    delivery_estimate = given_option dto.delivery_estimate part.delivery_estimate;
    has_warranty = given dto.has_warranty part.has_warranty;
    warranty_details = given_option dto.warranty_details part.warranty_details;
    description = given_option dto.description part.description;
  }

  unfoldable pub as_resubmitted : UpdatePartPayload → Part → Part
  as_resubmitted dto part = record (with_part_data dto part) {
    status = PartStatus.pending_review;
    is_active = false;
    admin_notes = none;
  }

  unfoldable pub as_edited : UpdatePartPayload → Option ℕ → Part → Part
  as_edited dto seller_id part = record (with_part_data dto part) {
    seller_id = given_option seller_id part.seller_id;
  }

  abbrev pub as_shown : Bool → Part → Part
  as_shown is_active part = record part { is_active = is_active }

  -- What `toPublicPart` and `toSellerPart` return: the row without its notes, the label of the stock,
  -- and the reason of a rejection, for the seller.
  pub record PartView : Type 0 where
    pub part : Part
    pub stock_label : String
    pub rejection_reason : Option String

  unfoldable pub to_public_part : Part → PartView
  to_public_part part = record {
    part = record part { admin_notes = none };
    stock_label = if ltb 0 part.stock_quantity then "In Stock" else "Out of Stock";
    rejection_reason = none;
  }

  unfoldable pub to_seller_part : Part → PartView
  unfolding to_public_part
  to_seller_part part =
      if part.status === PartStatus.rejected
      then record (to_public_part part) { rejection_reason = filled part.admin_notes }
      else to_public_part part

  unfoldable pub part_submitted : String → ℕ → String → String → Message
  part_submitted title part_id name slug = record {
    kind = NotificationType.system_alert;
    title = title;
    body = name <> " is pending administrator approval.";
    metadata = ("partId", Json.id part_id) ∷ ("slug", Json.text slug) ∷ [];
  }

  abbrev pub is_photo_of_part : ℕ → ℕ → PartPhoto → Bool
  is_photo_of_part part_id _ photo = photo.part_id == part_id
