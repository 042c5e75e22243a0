-- ===== src/Schema/RequestRows.antt =====
-- Rows of prisma/schema.prisma for requests: fleets and their associations, financing and its banks,
-- and the categories that requests name. As in Rows, an id is the row's key, and a column that
-- none of the modelled services reads or writes is left out.
use uza_mobility_bn.Base.{ℕ, String, Option, Bool}
use uza_mobility_bn.Js.{Js}
use uza_mobility_bn.Schema.Requests.{FinancingStatus, FleetRequestStatus}

pub record Category : Type 0 where
  pub name : String
  pub slug : String
  pub kind : String
  pub description : Option String
  pub icon_url : Option String
  pub display_order : ℕ
  pub is_active : Bool

pub record Subcategory : Type 0 where
  pub category_id : ℕ
  pub name : String
  pub slug : String
  pub description : Option String
  pub icon_url : Option String
  pub display_order : ℕ
  pub is_active : Bool

pub record Association : Type 0 where
  pub name : String
  pub kind : String
  pub country : String
  pub city : Option String
  pub contact_person : Option String
  pub phone : Option String
  pub email : Option String

pub record AssociationMember : Type 0 where
  pub association_id : ℕ
  pub user_id : Option ℕ
  pub member_name : String
  pub phone : Option String
  pub email : Option String
  pub role : Option String

pub record Bank : Type 0 where
  pub name : String
  pub country : String
  pub contact_email : Option String
  pub contact_phone : Option String
  pub is_active : Bool

module _ ⦃N : Js⦄ where
  open N use {Num}

  pub record FleetRequest : Type 0 where
    pub reference_number : String
    pub summary_pdf_url : Option String
    pub user_id : Option ℕ
    pub association_id : Option ℕ
    pub status : FleetRequestStatus
    pub organization_name : String
    pub contact_person : String
    pub phone : String
    pub email : String
    pub buyer_type : String
    pub vehicle_category_id : Option ℕ
    pub vehicle_subcategory_id : Option ℕ
    pub quantity : ℕ
    pub use_case : Option String
    pub preferred_delivery_timeline : Option String
    pub budget_range_min : Option Num
    pub budget_range_max : Option Num
    pub financing_requested : Bool
    pub charging_support_requested : Bool
    pub notes : Option String
    pub admin_notes : Option String
    pub quoted_at : Option ℕ

  pub record FinancingRequest : Type 0 where
    pub user_id : ℕ
    pub invoice_id : Option ℕ
    pub listing_id : Option ℕ
    pub status : FinancingStatus
    pub buyer_name : String
    pub phone : String
    pub buyer_type : Option String
    pub employment_status : Option String
    pub organization_name : Option String
    pub preferred_deposit_usd : Option Num
    pub preferred_bank_name : Option String
    pub notes : Option String
    pub assigned_bank_id : Option ℕ
    pub review_notes : Option String
