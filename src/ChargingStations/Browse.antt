-- ===== src/ChargingStations/Browse.antt =====
-- src/modules/charging-stations/charging-stations.service.ts: `buildStationWhere`, `listStationsBase`,
-- `listMyStations`, `browsePublicStations`, `adminListStations`, `findPublicStationBySlug`,
-- `adminListOperators`. A filter of a list that the request does not give is `none`.
use uza_mobility_bn.Base.{
  ℕ, ltb, Bool, true, false, Option, none, some, String, List, [], ◌∷◌, not, ◌&&◌, ◌||◌, ◌==◌,
  is_some,
}
use uza_mobility_bn.Base.Text.{◌===◌}
use uza_mobility_bn.Js.{Js}
use uza_mobility_bn.Db.{Prisma}
use uza_mobility_bn.Schema.Catalog.{StationStatus, station_status_enum}
use uza_mobility_bn.Schema.Charging.{
  OperatorStatus, operator_status_enum, StationOperationalStatus, station_operational_status_enum,
}
use uza_mobility_bn.Schema.StationRows.{OperatorProfile, ChargingStation}
use uza_mobility_bn.Schema.World.{World}
use uza_mobility_bn.Api.{Action, not_found, ◌>>=◌, pure, gets, require}
use uza_mobility_bn.Platform.Pages.{PageQuery, Page, find_page, passes}
use uza_mobility_bn.Platform.Settings.{filled}
use uza_mobility_bn.ChargingStations.Access.{require_active_operator, sanitize_station}
use text.Mathlib.Text.{◌==◌ as str_eq}

module _ ⦃N : Js⦄ where
  open N use {Num, le}

  pub record FilterStationsDto : Type 0 where
    pub q : Option String
    pub country : Option String
    pub city : Option String
    pub charger_type : Option String
    pub speed_category : Option String
    pub power_kw_min : Option Num
    pub location_type : Option String
    pub vehicle_category : Option String
    pub brand : Option String
    pub pricing_model : Option String
    pub is_open_24h : Option Bool
    pub operational_status : Option StationOperationalStatus
    pub has_parking : Option Bool
    pub status : Option StationStatus
    pub operator_id : Option ℕ
    pub pages : PageQuery

  abbrev same_flag : Bool → Bool → Bool
  same_flag true b = b
  same_flag false b = not b

  module _ ⦃P : Prisma⦄ where
    open P use {contains, count, find_first}

    abbrev pub is_public_station : ChargingStation → Bool
    is_public_station station =
        station.status === StationStatus.active
        && not (station.operational_status === StationOperationalStatus.offline)

    status_part : FilterStationsDto → Bool → ChargingStation → Bool
    status_part filters true station = is_public_station station
    status_part filters false station = passes filters.status (λ s. station.status === s)

    text_part : String → ChargingStation → Bool
    text_part q station =
        contains station.name q || contains station.city q || contains station.address q

    -- `ports: { some: … }`
    has_port : FilterStationsDto → ℕ → World → Bool
    has_port filters station_id w = ltb 0 (
        count w.charging_ports (λ _ port.
          port.station_id == station_id
          && port.is_active
          && passes (filled filters.charger_type) (str_eq port.charger_type)
          && passes (filled filters.speed_category) (str_eq port.speed_category)
          && passes filters.power_kw_min (λ low. le low port.power_kw)))

    optional_contains : Option String → String → Bool
    optional_contains none q = false
    optional_contains (some column) q = contains column q

    -- `compatibleVehicles: { some: … }`
    has_vehicle : FilterStationsDto → ℕ → World → Bool
    unfolding optional_contains
    has_vehicle filters station_id w = ltb 0 (
        count w.vehicle_compatibility (λ _ vehicle.
          vehicle.station_id == station_id
          && passes (filled filters.vehicle_category) (str_eq vehicle.vehicle_category)
          && passes (filled filters.brand) (λ brand. optional_contains vehicle.brand brand)))

    -- `pricing: { some: … }`
    has_pricing : String → ℕ → World → Bool
    has_pricing model station_id w = ltb 0 (
        count w.station_pricing (λ _ pricing.
          pricing.station_id == station_id
          && pricing.is_active
          && str_eq pricing.pricing_model model))

    abbrev asks_port : FilterStationsDto → Bool
    asks_port filters =
        is_some (filled filters.charger_type)
        || is_some (filled filters.speed_category)
        || is_some filters.power_kw_min

    abbrev asks_vehicle : FilterStationsDto → Bool
    asks_vehicle filters =
        is_some (filled filters.vehicle_category) || is_some (filled filters.brand)

    unfoldable pub station_where : FilterStationsDto → Bool → World → ℕ → ChargingStation → Bool
    unfolding status_part text_part has_port has_vehicle has_pricing
    station_where filters public_only w id station =
        status_part filters public_only station
        && passes filters.operator_id (λ operator. station.operator_id == operator)
        && passes (filled filters.country) (str_eq station.country)
        && passes (filled filters.city) (contains station.city)
        && passes (filled filters.location_type) (str_eq station.location_type)
        && passes filters.operational_status (λ s. station.operational_status === s)
        && passes filters.is_open_24h (same_flag station.is_open_24h)
        && passes filters.has_parking (same_flag station.has_parking)
        && passes (filled filters.q) (λ q. text_part q station)
        && (not (asks_port filters) || has_port filters id w)
        && (not (asks_vehicle filters) || has_vehicle filters id w)
        && passes (filled filters.pricing_model) (λ model. has_pricing model id w)

    abbrev pub station_views : Bool → List (ℕ × ChargingStation) → List (ℕ × ChargingStation)
    station_views public_only [] = []
    station_views public_only ((id, station) ∷ stations) =
        let rest = station_views public_only stations in
        (id, sanitize_station public_only station) ∷ rest

    unfoldable pub list_stations_base :
        FilterStationsDto → Bool → World → Page (ℕ × ChargingStation)
    unfolding station_where find_page
    list_stations_base filters public_only w =
        let page =
          find_page w.charging_stations (station_where filters public_only w) 24 filters.pages in
        record {
          items = station_views public_only page.items;
          total = page.total;
          page = page.page;
          limit = page.limit;
          total_pages = page.total_pages;
        }

    unfoldable pub browse_public_stations : FilterStationsDto → World → Page (ℕ × ChargingStation)
    unfolding list_stations_base
    browse_public_stations filters w = list_stations_base filters true w

    unfoldable pub list_my_stations :
        ℕ → FilterStationsDto → Action World (Page (ℕ × ChargingStation))
    unfolding require_active_operator list_stations_base
    list_my_stations user_id filters = do
      (operator_id, _) ← require_active_operator user_id
      gets (list_stations_base (record filters { operator_id = some operator_id }) false)

    unfoldable pub find_public_station_by_slug : String → Action World ChargingStation
    unfolding sanitize_station
    find_public_station_by_slug slug = do
      found ← gets (λ w.
          find_first w.charging_stations
            (λ _ station. str_eq station.slug slug && is_public_station station))
      (_, station) ← require found (not_found "Charging station not found")
      pure (sanitize_station true station)

    -- The status of the filter, where it names one of an operator.
    unfoldable pub operator_where :
        Option OperatorStatus → Option String → ℕ → OperatorProfile → Bool
    operator_where status q _ profile =
        passes status (λ s. profile.status === s)
        && passes (filled q) (λ text.
          contains profile.business_name text
          || contains profile.city text
          || contains profile.email text)

    unfoldable pub admin_list_operators :
        Option OperatorStatus → Option String → PageQuery → World → Page (ℕ × OperatorProfile)
    unfolding operator_where find_page
    admin_list_operators status q pages w =
        find_page w.operator_profiles (operator_where status q) 25 pages
