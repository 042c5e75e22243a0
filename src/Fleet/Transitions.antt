-- ===== src/Fleet/Transitions.antt =====
-- src/modules/fleet/fleet-transitions.ts
use uza_mobility_bn.Base.{List, [], ◌∷◌, Bool}
use uza_mobility_bn.Base.Text.{includes}
use uza_mobility_bn.Schema.Requests.{FleetRequestStatus, fleet_request_status_enum}

unfoldable pub fleet_transitions : FleetRequestStatus → List FleetRequestStatus
fleet_transitions FleetRequestStatus.submitted =
    FleetRequestStatus.under_review ∷ FleetRequestStatus.cancelled ∷ []
fleet_transitions FleetRequestStatus.under_review =
    FleetRequestStatus.quoted ∷ FleetRequestStatus.cancelled ∷ []
fleet_transitions FleetRequestStatus.quoted =
    FleetRequestStatus.approved ∷ FleetRequestStatus.cancelled ∷ []
fleet_transitions FleetRequestStatus.approved = FleetRequestStatus.in_progress ∷ []
fleet_transitions FleetRequestStatus.in_progress =
    FleetRequestStatus.completed ∷ FleetRequestStatus.cancelled ∷ []
fleet_transitions FleetRequestStatus.completed = []
fleet_transitions FleetRequestStatus.cancelled = []

unfoldable pub can_fleet_transition : FleetRequestStatus → FleetRequestStatus → Bool
unfolding fleet_transitions
can_fleet_transition from to = includes (fleet_transitions from) to
