-- ===== src/ChargingStations/Steps.antt =====
-- Histories of the calls that change charging stations.
pub mod Owners
pub mod Equipped
pub mod Reviews
pub mod Paths
use uza_mobility_bn.Base.{◌≡◌, List, [], ◌∷◌, true}
use uza_mobility_bn.Base.Text.{includes}
use uza_mobility_bn.Js.{Js}
use uza_mobility_bn.Db.{Prisma}
use uza_mobility_bn.Db.Histories.{TableStep}
use uza_mobility_bn.Schema.Catalog.{StationStatus, station_status_enum}
use uza_mobility_bn.Schema.StationRows.{ChargingStation}
use uza_mobility_bn.Schema.World.{World}
use uza_mobility_bn.ChargingStations.Transitions.{can_station_transition}

-- The statuses that some call sets.
abbrev pub review_targets : List StationStatus
review_targets =
    StationStatus.pending_review ∷ StationStatus.active ∷ StationStatus.rejected
    ∷ StationStatus.suspended ∷ []

module _ ⦃N : Js⦄ where
  abbrev pub IsDraft : ChargingStation → Type 0
  IsDraft station = station.status ≡ StationStatus.draft

  -- An allowed transition to one of these, or a change that leaves the status alone.
  pub data Moves (a b : ChargingStation) : Type 0 where
    stays : b.status ≡ a.status → Moves a b
    turns :
        can_station_transition a.status b.status ≡ true
        → includes review_targets b.status ≡ true
        → Moves a b

  abbrev pub StationsStep : ⦃P : Prisma⦄ → World → World → Type 0
  StationsStep ⦃P⦄ w w' = TableStep IsDraft Moves w.charging_stations w'.charging_stations
