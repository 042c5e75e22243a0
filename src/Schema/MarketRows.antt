-- ===== src/Schema/MarketRows.antt =====
-- Rows of prisma/schema.prisma for parts, inquiries and charging products. As in Rows, an id is the
-- row's key, and a column that none of the modelled services reads or writes is left out.
use uza_mobility_bn.Base.{ℕ, String, Option, Bool, List}
use uza_mobility_bn.Js.{Js}
use uza_mobility_bn.Schema.Market.{PartStatus, InquiryStatus, InquiryIntent}

pub record PartPhoto : Type 0 where
  pub part_id : ℕ
  pub url : String
  pub is_primary : Bool

pub record ChargingProductPhoto : Type 0 where
  pub product_id : ℕ
  pub url : String
  pub is_primary : Bool

pub record Inquiry : Type 0 where
  pub quote_number : String
  pub user_id : Option ℕ
  pub listing_id : Option ℕ
  pub intent : InquiryIntent
  pub name : String
  pub phone : String
  pub email : String
  pub country : String
  pub buyer_type : String
  pub message : Option String
  pub status : InquiryStatus
  pub internal_notes : Option String
  pub created_at : ℕ

pub record EnergyRequest : Type 0 where
  pub client_type : Option String
  pub location : Option String
  pub city : Option String
  pub number_of_evs : Option ℕ
  pub charger_type_needed : Option String
  pub solar_support_needed : Bool
  pub fleet_use : Bool
  pub site_visit_requested : Bool
  pub contact_name : String
  pub phone : String
  pub email : Option String
  pub notes : Option String
  pub status : String
  pub charging_product_id : Option ℕ

module _ ⦃N : Js⦄ where
  open N use {Num}

  pub record Part : Type 0 where
    pub seller_id : Option ℕ
    pub name : String
    pub slug : String
    pub category_slug : String
    pub compatible_brands : List String
    pub compatible_models : List String
    pub condition : String
    pub price_usd : Num
    pub stock_quantity : ℕ
    pub delivery_estimate : Option String
    pub has_warranty : Bool
    pub warranty_details : Option String
    pub description : Option String
    pub status : PartStatus
    pub admin_notes : Option String
    pub is_active : Bool

  pub record ChargingProduct : Type 0 where
    pub name : String
    pub slug : String
    pub product_type : String
    pub brand : Option String
    pub power_kw : Option Num
    pub voltage : Option String
    pub connector_types : List String
    pub solar_included : Bool
    pub price_usd : Option Num
    pub description : Option String
    pub is_active : Bool
