-- ===== src/ChargingStations/Stations.antt =====
-- src/modules/charging-stations/charging-stations.service.ts: `createStation`, `updateStationByOwner`,
-- `submitStationByOwner`.
use uza_mobility_bn.Base.{
  ℕ, Bool, false, Option, none, some, String, [], ◌∷◌, not, ◌&&◌, ◌||◌, ◌==◌, is_some, get_or,
  if◌then◌else◌,
}
use uza_mobility_bn.Base.Text.{◌<>◌, includes}
use uza_mobility_bn.Js.{Js}
use uza_mobility_bn.Db.{Prisma}
use uza_mobility_bn.Schema.Catalog.{StationStatus, station_status_enum}
use uza_mobility_bn.Schema.Charging.{StationOperationalStatus}
use uza_mobility_bn.Schema.Requests.{NotificationType}
use uza_mobility_bn.Schema.Rows.{Json}
use uza_mobility_bn.Schema.StationRows.{ChargingStation, ChargingPort, StationPhoto}
use uza_mobility_bn.Schema.World.{World}
use uza_mobility_bn.Api.{Action, bad_request, ◌>>=◌, ◌>>◌, pure, gets, modify, throw_if}
use uza_mobility_bn.Platform.Notifications.{Message, send_to_role_names}
use uza_mobility_bn.Platform.Audit.{RequestAuditContext, record_activity}
use uza_mobility_bn.Platform.Slug.Tables.{unique_slug, resolve_slug}
use uza_mobility_bn.Db.Columns.{given, given_option}
use uza_mobility_bn.ChargingStations.Access.{require_active_operator, get_station_owned_by}
use text.Mathlib.Text.{◌==◌ as str_eq}

module _ ⦃N : Js⦄ where
  open N use {Num}

  pub record CreateStationDto : Type 0 where
    pub name : String
    pub description : Option String
    pub address : String
    pub city : String
    pub country : String
    pub latitude : Option Num
    pub longitude : Option Num
    pub location_type : Option String
    pub is_open_24h : Option Bool
    pub opening_hours : Option String
    pub total_ports : Option ℕ
    pub available_ports : Option ℕ
    pub has_parking : Option Bool
    pub has_wifi : Option Bool
    pub has_restroom : Option Bool
    pub has_cctv : Option Bool
    pub has_roof_cover : Option Bool
    pub operational_status : Option StationOperationalStatus

  -- The same fields, each of which may be left out.
  pub record UpdateStationDto : Type 0 where
    pub name : Option String
    pub description : Option String
    pub address : Option String
    pub city : Option String
    pub country : Option String
    pub latitude : Option Num
    pub longitude : Option Num
    pub location_type : Option String
    pub is_open_24h : Option Bool
    pub opening_hours : Option String
    pub total_ports : Option ℕ
    pub available_ports : Option ℕ
    pub has_parking : Option Bool
    pub has_wifi : Option Bool
    pub has_restroom : Option Bool
    pub has_cctv : Option Bool
    pub has_roof_cover : Option Bool
    pub operational_status : Option StationOperationalStatus

  unfoldable pub new_station : ℕ → String → CreateStationDto → ChargingStation
  new_station operator_id slug dto = record {
    operator_id = operator_id;
    name = dto.name;
    slug = slug;
    status = StationStatus.draft;
    description = dto.description;
    address = dto.address;
    city = dto.city;
    country = dto.country;
    latitude = dto.latitude;
    longitude = dto.longitude;
    location_type = get_or dto.location_type "PUBLIC";
    is_open_24h = get_or dto.is_open_24h false;
    opening_hours = dto.opening_hours;
    total_ports = get_or dto.total_ports 0;
    available_ports = dto.available_ports;
    has_parking = get_or dto.has_parking false;
    has_wifi = get_or dto.has_wifi false;
    has_restroom = get_or dto.has_restroom false;
    has_cctv = get_or dto.has_cctv false;
    has_roof_cover = get_or dto.has_roof_cover false;
    operational_status = get_or dto.operational_status StationOperationalStatus.operational;
    admin_notes = none;
    published_at = none;
  }

  abbrev pub with_slug : String → ChargingStation → ChargingStation
  with_slug slug station = record station { slug = slug }

  abbrev pub with_station_data : UpdateStationDto → ChargingStation → ChargingStation
  with_station_data dto station = record station {
    name = given dto.name station.name;
    description = given_option dto.description station.description;
    address = given dto.address station.address;
    city = given dto.city station.city;
    country = given dto.country station.country;
    latitude = given_option dto.latitude station.latitude;
    longitude = given_option dto.longitude station.longitude;
    location_type = given dto.location_type station.location_type;
    is_open_24h = given dto.is_open_24h station.is_open_24h;
    opening_hours = given_option dto.opening_hours station.opening_hours;
    total_ports = given dto.total_ports station.total_ports;
    available_ports = given_option dto.available_ports station.available_ports;
    has_parking = given dto.has_parking station.has_parking;
    has_wifi = given dto.has_wifi station.has_wifi;
    has_restroom = given dto.has_restroom station.has_restroom;
    has_cctv = given dto.has_cctv station.has_cctv;
    has_roof_cover = given dto.has_roof_cover station.has_roof_cover;
    operational_status = given dto.operational_status station.operational_status;
  }

  abbrev pub with_station_status : StationStatus → ChargingStation → ChargingStation
  with_station_status status station = record station { status = status }

  station_submitted : ℕ → String → String → Message
  station_submitted station_id business_name station_name = record {
    kind = NotificationType.system_alert;
    title = "Charging station submitted";
    body = business_name <> " submitted " <> station_name <> " for review.";
    metadata = ("stationId", Json.id station_id) ∷ [];
  }

  abbrev pub is_active_port_of : ℕ → ℕ → ChargingPort → Bool
  is_active_port_of station_id _ port = port.station_id == station_id && port.is_active

  abbrev pub is_photo_of : ℕ → ℕ → StationPhoto → Bool
  is_photo_of station_id _ photo = photo.station_id == station_id

  module _ ⦃P : Prisma⦄ where
    open P use {find_unique, insert, update, new_id, count}

    unfoldable pub create_station :
        ℕ → CreateStationDto → RequestAuditContext → Action World (ℕ × ChargingStation)
    unfolding require_active_operator resolve_slug record_activity
    create_station user_id dto ctx = do
      (operator_id, _) ← require_active_operator user_id
      candidate ← gets (λ w. unique_slug w.charging_stations (λ r. r.slug) (λ id. false) dto.name)
      slug ← resolve_slug candidate
      station_id ← gets (λ w. new_id w.charging_stations)
      modify (λ w. record w {
        charging_stations = insert w.charging_stations (new_station operator_id slug dto);
      })
      record_activity user_id "stations:created" "ChargingStation" (some station_id) ctx (
          some
            (("email", Json.nullable ctx.actor_email) ∷ ("stationName", Json.text dto.name) ∷ []))
      pure (station_id, new_station operator_id slug dto)

    -- `dto.name && dto.name !== station.name`
    abbrev pub new_name : Option String → String → Option String
    new_name none old = none
    new_name (some name) old = if str_eq name "" || str_eq name old then none else some name

    -- A new name makes a new slug, which the station itself may have already.
    unfoldable pub rename_station : ℕ → Option String → Action World (Unit {0})
    unfolding resolve_slug
    rename_station station_id none = pure tt
    rename_station station_id (some name) = do
      candidate ←
          gets (λ w. unique_slug w.charging_stations (λ r. r.slug) (λ id. id == station_id) name)
      slug ← resolve_slug candidate
      modify (λ w. record w {
        charging_stations = update w.charging_stations station_id (with_slug slug);
      })

    -- `fields` are the keys that the request gave.
    unfoldable pub update_station_by_owner :
        ℕ
        → ℕ
        → UpdateStationDto
        → String
        → RequestAuditContext
        → Action World (Option ChargingStation)
    unfolding get_station_owned_by rename_station record_activity
    update_station_by_owner user_id station_id dto fields ctx = do
      (station, _) ← get_station_owned_by user_id station_id
      rename_station station_id (new_name dto.name station.name)
      modify (λ w. record w {
        charging_stations = update w.charging_stations station_id (with_station_data dto);
      })
      record_activity user_id "stations:updated" "ChargingStation" (some station_id) ctx
          (some (("email", Json.nullable ctx.actor_email) ∷ ("fields", Json.text fields) ∷ []))
      gets (λ w. find_unique w.charging_stations station_id)

    unfoldable pub submit_station_by_owner :
        ℕ → ℕ → RequestAuditContext → Action World ChargingStation
    unfolding get_station_owned_by record_activity send_to_role_names station_submitted
    submit_station_by_owner user_id station_id ctx = do
      (station, operator) ← get_station_owned_by user_id station_id
      throw_if (not (includes (StationStatus.draft ∷ StationStatus.rejected ∷ []) station.status))
          (bad_request "Only draft or rejected stations can be submitted")
      ports ← gets (λ w. count w.charging_ports (is_active_port_of station_id))
      throw_if (ports == 0) (bad_request "Add at least one active charging port before submitting")
      photos ← gets (λ w. count w.station_photos (is_photo_of station_id))
      throw_if (photos == 0) (bad_request "Add at least one station photo before submitting")
      throw_if (not (is_some station.latitude) || not (is_some station.longitude))
          (bad_request "Station latitude and longitude are required before submitting")
      modify (λ w. record w {
        charging_stations =
            update w.charging_stations station_id
              (with_station_status StationStatus.pending_review);
      })
      record_activity user_id "stations:submitted" "ChargingStation" (some station_id) ctx (
          some (
            ("email", Json.nullable ctx.actor_email)
            ∷ ("stationName", Json.text station.name)
            ∷ []))
      send_to_role_names ("MARKETPLACE_ADMIN" ∷ "SUPER_ADMIN" ∷ [])
          (station_submitted station_id operator.business_name station.name)
      pure (with_station_status StationStatus.pending_review station)
