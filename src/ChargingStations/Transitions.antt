-- ===== src/ChargingStations/Transitions.antt =====
-- src/modules/charging-stations/station-transitions.ts
use uza_mobility_bn.Base.{List, [], ◌∷◌, Bool}
use uza_mobility_bn.Base.Text.{includes}
use uza_mobility_bn.Schema.Catalog.{StationStatus, station_status_enum}

unfoldable pub allowed_station_transitions : StationStatus → List StationStatus
allowed_station_transitions StationStatus.draft = StationStatus.pending_review ∷ []
allowed_station_transitions StationStatus.pending_review =
    StationStatus.approved ∷ StationStatus.rejected ∷ []
allowed_station_transitions StationStatus.approved =
    StationStatus.active ∷ StationStatus.rejected ∷ []
allowed_station_transitions StationStatus.active =
    StationStatus.suspended ∷ StationStatus.closed ∷ []
allowed_station_transitions StationStatus.suspended = StationStatus.active ∷ []
allowed_station_transitions StationStatus.rejected =
    StationStatus.draft ∷ StationStatus.pending_review ∷ []
allowed_station_transitions StationStatus.closed = []

unfoldable pub can_station_transition : StationStatus → StationStatus → Bool
unfolding allowed_station_transitions
can_station_transition from to = includes (allowed_station_transitions from) to
