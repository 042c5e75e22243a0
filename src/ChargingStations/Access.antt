-- ===== src/ChargingStations/Access.antt =====
-- src/modules/charging-stations/charging-stations.service.ts: `requireActiveOperator`,
-- `getStationOrThrow`, `getStationOwnedBy`, `sanitizeStation`.
use uza_mobility_bn.Base.{ℕ, Bool, false, Option, none, some, ◌||◌, not, ◌==◌, if◌then◌else◌}
use uza_mobility_bn.Base.Text.{◌===◌}
use uza_mobility_bn.Js.{Js}
use uza_mobility_bn.Db.{Prisma}
use uza_mobility_bn.Schema.Charging.{OperatorStatus, operator_status_enum}
use uza_mobility_bn.Schema.StationRows.{OperatorProfile, ChargingStation}
use uza_mobility_bn.Schema.World.{World}
use uza_mobility_bn.Api.{
  Action, not_found, forbidden, internal, ◌>>=◌, ◌>>◌, pure, gets, throw_if, require,
}
use uza_mobility_bn.ChargingStations.Operators.{get_operator_profile_by_user}

module _ ⦃N : Js⦄ where
  -- A key that is taken away is `none`.
  unfoldable pub sanitize_station : Bool → ChargingStation → ChargingStation
  sanitize_station public_view station =
      if public_view then record station { admin_notes = none } else station

  module _ ⦃P : Prisma⦄ where
    open P use {find_unique}

    unfoldable pub require_active_operator : ℕ → Action World (ℕ × OperatorProfile)
    require_active_operator user_id = do
      (operator_id, profile) ← get_operator_profile_by_user user_id
      throw_if (not (profile.status === OperatorStatus.active) || not profile.is_verified)
          (forbidden "Operator must be approved before managing stations")
      pure (operator_id, profile)

    -- A station with its operator, which a foreign key ties to it.
    unfoldable pub get_station_or_throw : ℕ → Action World (ChargingStation × OperatorProfile)
    get_station_or_throw station_id = do
      found ← gets (λ w. find_unique w.charging_stations station_id)
      station ← require found (not_found "Charging station not found")
      joined ← gets (λ w. find_unique w.operator_profiles station.operator_id)
      operator ← require joined (internal "the foreign key of the operator")
      pure (station, operator)

    -- `chargingStation.findFirst({ where: { id, operatorId } })`
    abbrev pub station_of : ℕ → ℕ → World → Option ChargingStation
    station_of operator_id station_id w = elim (find_unique w.charging_stations station_id) [
      | none ↦ none
      | some station ↦ if station.operator_id == operator_id then some station else none
    ]

    unfoldable pub get_station_owned_by : ℕ → ℕ → Action World (ChargingStation × OperatorProfile)
    unfolding require_active_operator
    get_station_owned_by user_id station_id = do
      (operator_id, operator) ← require_active_operator user_id
      found ← gets (λ w. station_of operator_id station_id w)
      station ← require found (not_found "Charging station not found")
      pure (station, operator)

    -- The same as the answer of a call, `findMyStationById`.
    unfoldable pub find_my_station_by_id : ℕ → ℕ → Action World ChargingStation
    unfolding get_station_owned_by sanitize_station
    find_my_station_by_id user_id station_id = do
      (station, _) ← get_station_owned_by user_id station_id
      pure (sanitize_station false station)
