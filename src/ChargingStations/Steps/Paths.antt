-- ===== src/ChargingStations/Steps/Paths.antt =====
-- The status of a station through every history of calls.
use uza_mobility_bn.Base.{ℕ, ◌≡◌, subst, sym, String, List, [], ◌∷◌, Option, some, true, arith}
use uza_mobility_bn.Base.Text.{includes}
use uza_mobility_bn.Base.Chains.{Chain, stop, step}
use uza_mobility_bn.Js.{Js}
use uza_mobility_bn.Db.{Prisma, PrismaLaws}
use uza_mobility_bn.Db.Histories.{EveryRow, History, History-EveryRow, History-row}
use uza_mobility_bn.Schema.Catalog.{StationStatus, station_status_enum}
use uza_mobility_bn.Schema.StationRows.{ChargingStation}
use uza_mobility_bn.Schema.World.{World}
use uza_mobility_bn.Platform.Audit.{RequestAuditContext}
use uza_mobility_bn.ChargingStations.Transitions.{
  can_station_transition, allowed_station_transitions,
}
use uza_mobility_bn.ChargingStations.Stations.{
  CreateStationDto, UpdateStationDto, create_station, update_station_by_owner,
  submit_station_by_owner,
}
use uza_mobility_bn.ChargingStations.Review.{
  admin_approve_station, admin_reject_station, admin_suspend_station,
}
use uza_mobility_bn.ChargingStations.Equipment.{
  CreateChargingPortDto, UpdateChargingPortDto, CreateStationPricingDto,
  CreateVehicleCompatibilityDto, add_port_by_owner, update_port_by_owner, remove_port_by_owner,
  set_pricing_by_owner, add_compatibility_by_owner, add_photos_by_owner,
}
use uza_mobility_bn.ChargingStations.Steps.{Moves, stays, turns, StationsStep}
use uza_mobility_bn.ChargingStations.Steps.Owners.{
  create-StationsStep, update-StationsStep, submit-StationsStep,
}
use uza_mobility_bn.ChargingStations.Steps.Reviews.{
  approve-StationsStep, reject-StationsStep, suspend-StationsStep,
}
use uza_mobility_bn.ChargingStations.Steps.Equipped.{
  add_port-StationsStep, update_port-StationsStep, remove_port-StationsStep, pricing-StationsStep,
  compatibility-StationsStep, photos-StationsStep,
}

module _ ⦃N : Js⦄ where
  -- A station that nobody has approved.
  abbrev pub IsUnapproved : ChargingStation → Type 0
  IsUnapproved station =
      includes (StationStatus.draft ∷ StationStatus.pending_review ∷ StationStatus.rejected ∷ [])
        station.status
      ≡ true

  abbrev pub StatusChain : ChargingStation → ChargingStation → Type 0
  StatusChain a b = Chain can_station_transition a.status b.status

  Moves-IsUnapproved : (a b : ChargingStation) → Moves a b → IsUnapproved a → IsUnapproved b
  unfolding can_station_transition allowed_station_transitions
  Moves-IsUnapproved a b (stays same) u = ground (arith, same, u)
  Moves-IsUnapproved a b (turns may target) u = ground (arith, may, target, u)

  follow : (a b c : ChargingStation) → StatusChain a b → Moves b c → StatusChain a c
  follow a b c path (stays same) =
      subst (λ s. Chain can_station_transition a.status s) (sym same) path
  follow a b c path (turns may target) = step path may

  module _ ⦃P : Prisma⦄ where
    open P use {find_unique}

    pub data StationCall : Type 0 where
      create : ℕ → CreateStationDto → RequestAuditContext → StationCall
      edit : ℕ → ℕ → UpdateStationDto → String → RequestAuditContext → StationCall
      submit : ℕ → ℕ → RequestAuditContext → StationCall
      approve : ℕ → ℕ → RequestAuditContext → StationCall
      turn_down suspend : ℕ → ℕ → Option String → RequestAuditContext → StationCall
      add_port : ℕ → ℕ → CreateChargingPortDto → StationCall
      edit_port : ℕ → ℕ → ℕ → UpdateChargingPortDto → StationCall
      remove_port : ℕ → ℕ → ℕ → StationCall
      set_pricing : ℕ → ℕ → CreateStationPricingDto → StationCall
      add_compatibility : ℕ → ℕ → CreateVehicleCompatibilityDto → StationCall
      add_photos : ℕ → ℕ → List String → StationCall

    unfoldable pub run_station_call : StationCall → World → World
    run_station_call (create user dto ctx) w = (create_station user dto ctx w).1
    run_station_call (edit user id dto fields ctx) w =
        (update_station_by_owner user id dto fields ctx w).1
    run_station_call (submit user id ctx) w = (submit_station_by_owner user id ctx w).1
    run_station_call (approve id admin ctx) w = (admin_approve_station id admin ctx w).1
    run_station_call (turn_down id admin reason ctx) w =
        (admin_reject_station id admin reason ctx w).1
    run_station_call (suspend id admin reason ctx) w =
        (admin_suspend_station id admin reason ctx w).1
    run_station_call (add_port user id dto) w = (add_port_by_owner user id dto w).1
    run_station_call (edit_port user id port dto) w = (update_port_by_owner user id port dto w).1
    run_station_call (remove_port user id port) w = (remove_port_by_owner user id port w).1
    run_station_call (set_pricing user id dto) w = (set_pricing_by_owner user id dto w).1
    run_station_call (add_compatibility user id dto) w =
        (add_compatibility_by_owner user id dto w).1
    run_station_call (add_photos user id urls) w = (add_photos_by_owner user id urls w).1

    station_call-StationsStep :
        (c : StationCall) (w : World) → StationsStep w (run_station_call c w)
    unfolding run_station_call
    station_call-StationsStep (create user dto ctx) w = create-StationsStep user ctx w dto
    station_call-StationsStep (edit user id dto fields ctx) w =
        update-StationsStep user ctx w id dto fields
    station_call-StationsStep (submit user id ctx) w = submit-StationsStep user ctx w id
    station_call-StationsStep (approve id admin ctx) w = approve-StationsStep id admin ctx w
    station_call-StationsStep (turn_down id admin reason ctx) w =
        reject-StationsStep id admin ctx w reason
    station_call-StationsStep (suspend id admin reason ctx) w =
        suspend-StationsStep id admin ctx w reason
    station_call-StationsStep (add_port user id dto) w = add_port-StationsStep user id w dto
    station_call-StationsStep (edit_port user id port dto) w =
        update_port-StationsStep user id w port dto
    station_call-StationsStep (remove_port user id port) w = remove_port-StationsStep user id w port
    station_call-StationsStep (set_pricing user id dto) w = pricing-StationsStep user id w dto
    station_call-StationsStep (add_compatibility user id dto) w =
        compatibility-StationsStep user id w dto
    station_call-StationsStep (add_photos user id urls) w = photos-StationsStep user id w urls

    module _ ⦃L : PrismaLaws⦄ where
      -- Through every history of the calls of owners and administrators on stations, in any order,
      -- with anything between them that leaves the stations alone: where every station at the start is
      -- a draft, in review or rejected, every station is. So no call makes a station active: the
      -- approval wants a status that no call sets.
      pub stations_stay-IsUnapproved :
          {start w : World}
          → EveryRow IsUnapproved start.charging_stations
          → History run_station_call (λ x. x.charging_stations) start w
          → EveryRow IsUnapproved w.charging_stations
      stations_stay-IsUnapproved every h =
          History-EveryRow station_call-StationsStep (λ r draft. ground (arith, draft))
            Moves-IsUnapproved every h

      -- Through every such history a station stays in the table, and its status lies at the end of a
      -- chain of allowed transitions from the status at the start.
      pub stations-Chain :
          {start w : World} (j : ℕ) (r : ChargingStation)
          → find_unique start.charging_stations j ≡ some r
          → History run_station_call (λ x. x.charging_stations) start w
          → (r' : ChargingStation) × (find_unique w.charging_stations j ≡ some r')
            × StatusChain r r'
      stations-Chain j r found h =
          History-row station_call-StationsStep {Reaches = StatusChain} (λ a. stop a.status) follow
            j r found h
