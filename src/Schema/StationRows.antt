-- ===== src/Schema/StationRows.antt =====
-- Rows of prisma/schema.prisma for charging operators and their stations, and the roles with the
-- permissions that they carry. As in Rows, an id is the row's key, and a column that none of the
-- modelled services reads or writes is left out. A JSON column is its text.
use uza_mobility_bn.Base.{ℕ, String, Option, Bool, List}
use uza_mobility_bn.Js.{Js}
use uza_mobility_bn.Schema.Catalog.{StationStatus}
use uza_mobility_bn.Schema.Charging.{OperatorStatus, StationOperationalStatus, PortStatus}

-- A role with the actions of its permissions.
pub record Role : Type 0 where
  pub name : String
  pub permissions : List String

pub record OperatorProfile : Type 0 where
  pub user_id : ℕ
  pub business_name : String
  pub business_reg_number : Option String
  pub contact_person : String
  pub phone : String
  pub email : String
  pub country : String
  pub city : String
  pub address : Option String
  pub description : Option String
  pub status : OperatorStatus
  pub is_verified : Bool
  pub verified_at : Option ℕ
  pub admin_notes : Option String

pub record VehicleCompatibility : Type 0 where
  pub station_id : ℕ
  pub vehicle_category : String
  pub brand : Option String
  pub model : Option String
  pub is_verified : Bool

pub record StationPhoto : Type 0 where
  pub station_id : ℕ
  pub url : String
  pub is_primary : Bool
  pub display_order : ℕ

module _ ⦃N : Js⦄ where
  open N use {Num}

  pub record ChargingStation : Type 0 where
    pub operator_id : ℕ
    pub name : String
    pub slug : String
    pub status : StationStatus
    pub description : Option String
    pub address : String
    pub city : String
    pub country : String
    pub latitude : Option Num
    pub longitude : Option Num
    pub location_type : String
    pub is_open_24h : Bool
    pub opening_hours : Option String
    pub total_ports : ℕ
    pub available_ports : Option ℕ
    pub has_parking : Bool
    pub has_wifi : Bool
    pub has_restroom : Bool
    pub has_cctv : Bool
    pub has_roof_cover : Bool
    pub operational_status : StationOperationalStatus
    pub admin_notes : Option String
    pub published_at : Option ℕ

  pub record ChargingPort : Type 0 where
    pub station_id : ℕ
    pub port_number : Option String
    pub charger_type : String
    pub speed_category : String
    pub power_kw : Num
    pub voltage : Option ℕ
    pub amperage : Option ℕ
    pub current_type : String
    pub status : PortStatus
    pub is_active : Bool

  pub record StationPricing : Type 0 where
    pub station_id : ℕ
    pub pricing_model : String
    pub rate_amount : Option Num
    pub currency : String
    pub notes : Option String
    pub is_active : Bool
    pub valid_from : ℕ
    pub valid_until : Option ℕ
