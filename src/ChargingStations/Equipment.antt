-- ===== src/ChargingStations/Equipment.antt =====
-- src/modules/charging-stations/charging-stations.service.ts: `addPortByOwner`, `updatePortByOwner`,
-- `removePortByOwner`, `refreshPortCounts`, `setPricingByOwner`, `addCompatibilityByOwner`,
-- `addPhotosByOwner`.
use uza_mobility_bn.Base.{
  ℕ, suc, ◌+◌, Bool, true, false, Option, none, some, String, List, [], ◌∷◌, not, ◌&&◌, ◌==◌,
  is_some, get_or, if◌then◌else◌, length,
}
use uza_mobility_bn.Base.Text.{◌===◌}
use uza_mobility_bn.Js.{Js}
use uza_mobility_bn.Db.{Prisma}
use uza_mobility_bn.Schema.Charging.{PortStatus, port_status_enum}
use uza_mobility_bn.Schema.StationRows.{
  ChargingStation, ChargingPort, StationPricing, VehicleCompatibility, StationPhoto,
}
use uza_mobility_bn.Schema.World.{World}
use uza_mobility_bn.Api.{
  Action, bad_request, not_found, ◌>>=◌, ◌>>◌, gets, modify, throw_if, require,
}
use uza_mobility_bn.Db.Columns.{given, given_option}
use uza_mobility_bn.ChargingStations.Access.{get_station_owned_by, find_my_station_by_id}
use uza_mobility_bn.ChargingStations.Stations.{is_active_port_of, is_photo_of}
use text.Mathlib.Text.{◌==◌ as str_eq}

pub record CreateVehicleCompatibilityDto : Type 0 where
  pub vehicle_category : String
  pub brand : Option String
  pub model : Option String
  pub is_verified : Option Bool

abbrev pub new_compatibility : ℕ → CreateVehicleCompatibilityDto → VehicleCompatibility
new_compatibility station_id dto = record {
  station_id = station_id;
  vehicle_category = dto.vehicle_category;
  brand = dto.brand;
  model = dto.model;
  is_verified = get_or dto.is_verified false;
}

-- The photos that the call adds, where the station has `before` photos: the first photo of a station
-- is its primary one.
unfoldable pub new_photos : ℕ → ℕ → ℕ → List String → List StationPhoto
new_photos station_id before index [] = []
new_photos station_id before index (url ∷ urls) =
    record {
      station_id = station_id;
      url = url;
      is_primary = before == 0 && index == 0;
      display_order = before + index;
    }
    ∷ new_photos station_id before (suc index) urls

module _ ⦃N : Js⦄ where
  open N use {Num}

  pub record CreateChargingPortDto : Type 0 where
    pub port_number : Option String
    pub charger_type : String
    pub speed_category : String
    pub power_kw : Num
    pub voltage : Option ℕ
    pub amperage : Option ℕ
    pub current_type : String
    pub status : Option PortStatus
    pub is_active : Option Bool

  pub record UpdateChargingPortDto : Type 0 where
    pub port_number : Option String
    pub charger_type : Option String
    pub speed_category : Option String
    pub power_kw : Option Num
    pub voltage : Option ℕ
    pub amperage : Option ℕ
    pub current_type : Option String
    pub status : Option PortStatus
    pub is_active : Option Bool

  pub record CreateStationPricingDto : Type 0 where
    pub pricing_model : String
    pub rate_amount : Option Num
    pub currency : Option String
    pub notes : Option String
    pub is_active : Option Bool
    pub valid_from : Option ℕ
    pub valid_until : Option ℕ

  unfoldable pub new_port : ℕ → CreateChargingPortDto → ChargingPort
  new_port station_id dto = record {
    station_id = station_id;
    port_number = dto.port_number;
    charger_type = dto.charger_type;
    speed_category = dto.speed_category;
    power_kw = dto.power_kw;
    voltage = dto.voltage;
    amperage = dto.amperage;
    current_type = dto.current_type;
    status = get_or dto.status PortStatus.available;
    is_active = get_or dto.is_active true;
  }

  unfoldable pub with_port_data : UpdateChargingPortDto → ChargingPort → ChargingPort
  with_port_data dto port = record port {
    port_number = given_option dto.port_number port.port_number;
    charger_type = given dto.charger_type port.charger_type;
    speed_category = given dto.speed_category port.speed_category;
    power_kw = given dto.power_kw port.power_kw;
    voltage = given_option dto.voltage port.voltage;
    amperage = given_option dto.amperage port.amperage;
    current_type = given dto.current_type port.current_type;
    status = given dto.status port.status;
    is_active = given dto.is_active port.is_active;
  }

  unfoldable pub new_pricing : ℕ → ℕ → CreateStationPricingDto → StationPricing
  new_pricing station_id now dto = record {
    station_id = station_id;
    pricing_model = dto.pricing_model;
    rate_amount = dto.rate_amount;
    currency = get_or dto.currency "USD";
    notes = dto.notes;
    is_active = get_or dto.is_active true;
    valid_from = get_or dto.valid_from now;
    valid_until = dto.valid_until;
  }

  abbrev pub is_active_pricing_of : ℕ → ℕ → StationPricing → Bool
  is_active_pricing_of station_id _ pricing = pricing.station_id == station_id && pricing.is_active

  abbrev pub inactive_pricing : StationPricing → StationPricing
  inactive_pricing pricing = record pricing { is_active = false }

  abbrev pub is_available_port_of : ℕ → ℕ → ChargingPort → Bool
  is_available_port_of station_id _ port =
      port.station_id == station_id && port.is_active && port.status === PortStatus.available

  abbrev pub with_port_counts : ℕ → ℕ → ChargingStation → ChargingStation
  with_port_counts total available station = record station {
    total_ports = total;
    available_ports = some available;
  }

  module _ ⦃P : Prisma⦄ where
    open P use {Table, find_unique, insert, update, update_many, delete_many, count}

    unfoldable pub refresh_port_counts : ℕ → Action World (Option ChargingStation)
    refresh_port_counts station_id = do
      total ← gets (λ w. count w.charging_ports (is_active_port_of station_id))
      available ← gets (λ w. count w.charging_ports (is_available_port_of station_id))
      modify (λ w. record w {
        charging_stations =
            update w.charging_stations station_id (with_port_counts total available);
      })
      gets (λ w. find_unique w.charging_stations station_id)

    unfoldable pub add_port_by_owner :
        ℕ → ℕ → CreateChargingPortDto → Action World (Option ChargingStation)
    unfolding get_station_owned_by refresh_port_counts new_port
    add_port_by_owner user_id station_id dto = do
      _ ← get_station_owned_by user_id station_id
      modify (λ w. record w { charging_ports = insert w.charging_ports (new_port station_id dto) })
      refresh_port_counts station_id

    -- `chargingPort.findFirst({ where: { id, stationId } })`
    abbrev pub port_of : ℕ → ℕ → World → Option ChargingPort
    port_of station_id port_id w = elim (find_unique w.charging_ports port_id) [
      | none ↦ none
      | some port ↦ if port.station_id == station_id then some port else none
    ]

    unfoldable pub update_port_by_owner :
        ℕ → ℕ → ℕ → UpdateChargingPortDto → Action World (Option ChargingStation)
    unfolding get_station_owned_by refresh_port_counts with_port_data
    update_port_by_owner user_id station_id port_id dto = do
      _ ← get_station_owned_by user_id station_id
      found ← gets (λ w. port_of station_id port_id w)
      _ ← require found (not_found "Charging port not found")
      modify
          (λ w. record w { charging_ports = update w.charging_ports port_id (with_port_data dto) })
      refresh_port_counts station_id

    unfoldable pub remove_port_by_owner : ℕ → ℕ → ℕ → Action World (Option ChargingStation)
    unfolding get_station_owned_by refresh_port_counts
    remove_port_by_owner user_id station_id port_id = do
      _ ← get_station_owned_by user_id station_id
      found ← gets (λ w. port_of station_id port_id w)
      modify (λ w. record w {
        charging_ports =
            delete_many w.charging_ports
              (λ id port. id == port_id && port.station_id == station_id);
      })
      throw_if (not (is_some found)) (not_found "Charging port not found")
      refresh_port_counts station_id

    unfoldable pub deactivate_pricing : Bool → ℕ → World → World
    deactivate_pricing false station_id w = w
    deactivate_pricing true station_id w = record w {
      station_pricing =
          update_many w.station_pricing (is_active_pricing_of station_id) inactive_pricing;
    }

    unfoldable pub set_pricing_by_owner :
        ℕ → ℕ → CreateStationPricingDto → Action World ChargingStation
    unfolding get_station_owned_by find_my_station_by_id deactivate_pricing new_pricing
    set_pricing_by_owner user_id station_id dto = do
      _ ← get_station_owned_by user_id station_id
      throw_if (not (str_eq dto.pricing_model "FREE") && not (is_some dto.rate_amount))
          (bad_request "rateAmount is required for paid pricing")
      now ← gets (λ w. w.now)
      modify (deactivate_pricing (get_or dto.is_active true) station_id)
      modify (λ w. record w {
        station_pricing = insert w.station_pricing (new_pricing station_id now dto);
      })
      find_my_station_by_id user_id station_id

    unfoldable pub add_compatibility_by_owner :
        ℕ → ℕ → CreateVehicleCompatibilityDto → Action World ChargingStation
    unfolding get_station_owned_by find_my_station_by_id
    add_compatibility_by_owner user_id station_id dto = do
      _ ← get_station_owned_by user_id station_id
      modify (λ w. record w {
        vehicle_compatibility = insert w.vehicle_compatibility (new_compatibility station_id dto);
      })
      find_my_station_by_id user_id station_id

    -- `createMany({ data })`
    abbrev pub insert_all : {R : Type 0} → Table R → List R → Table R
    insert_all t [] = t
    insert_all t (r ∷ rs) = insert_all (insert t r) rs

    unfoldable pub add_photos_by_owner : ℕ → ℕ → List String → Action World ChargingStation
    unfolding get_station_owned_by find_my_station_by_id
    add_photos_by_owner user_id station_id urls = do
      _ ← get_station_owned_by user_id station_id
      before ← gets (λ w. count w.station_photos (is_photo_of station_id))
      throw_if (length urls == 0) (bad_request "Provide at least one image")
      modify (λ w. record w {
        station_photos = insert_all w.station_photos (new_photos station_id before 0 urls);
      })
      find_my_station_by_id user_id station_id
