-- ===== src/ChargingStations/Review.antt =====
-- src/modules/charging-stations/charging-stations.service.ts: `adminApproveStation`,
-- `adminRejectStation`, `adminSuspendStation`.
use uza_mobility_bn.Base.{ℕ, Option, none, some, String, [], ◌∷◌, not, get_or, false}
use uza_mobility_bn.Base.Text.{◌<>◌, name_of}
use uza_mobility_bn.Js.{Js}
use uza_mobility_bn.Db.{Prisma}
use uza_mobility_bn.Schema.Catalog.{StationStatus, station_status_enum}
use uza_mobility_bn.Schema.Requests.{NotificationType}
use uza_mobility_bn.Schema.Rows.{Json}
use uza_mobility_bn.Schema.StationRows.{ChargingStation}
use uza_mobility_bn.Schema.World.{World}
use uza_mobility_bn.Api.{Action, bad_request, ◌>>=◌, ◌>>◌, pure, gets, modify, throw_if}
use uza_mobility_bn.Platform.Notifications.{Message, send}
use uza_mobility_bn.Platform.Audit.{RequestAuditContext, record_activity}
use uza_mobility_bn.ChargingStations.Transitions.{can_station_transition}
use uza_mobility_bn.Db.Columns.{given_option}
use uza_mobility_bn.ChargingStations.Access.{get_station_or_throw, sanitize_station}

module _ ⦃N : Js⦄ where
  abbrev pub as_active : Option ℕ → ℕ → ChargingStation → ChargingStation
  as_active published_at now station = record station {
    status = StationStatus.active;
    admin_notes = none;
    published_at = some (get_or published_at now);
  }

  abbrev pub turned_to : StationStatus → Option String → ChargingStation → ChargingStation
  turned_to status reason station = record station {
    status = status;
    admin_notes = given_option reason station.admin_notes;
  }

  station_message : NotificationType → String → String → ℕ → Message
  station_message kind title body station_id = record {
    kind = kind;
    title = title;
    body = body;
    metadata = ("stationId", Json.id station_id) ∷ [];
  }

  module _ ⦃P : Prisma⦄ where
    open P use {update}

    unfoldable pub admin_approve_station :
        ℕ → ℕ → RequestAuditContext → Action World ChargingStation
    unfolding get_station_or_throw sanitize_station station_message send record_activity
    admin_approve_station station_id admin ctx = do
      (station, operator) ← get_station_or_throw station_id
      throw_if (not (can_station_transition station.status StationStatus.active))
          (bad_request ("Cannot approve station from status " <> name_of station.status))
      now ← gets (λ w. w.now)
      modify (λ w. record w {
        charging_stations =
            update w.charging_stations station_id (as_active station.published_at now);
      })
      record_activity admin "stations:approved" "ChargingStation" (some station_id) ctx (
          some (
            ("email", Json.nullable ctx.actor_email)
            ∷ ("stationName", Json.text station.name)
            ∷ []))
      send operator.user_id (
          station_message NotificationType.station_approved "Charging station approved"
            (station.name <> " has been approved and is now visible publicly.") station_id)
      pure (sanitize_station false (as_active station.published_at now station))

    unfoldable pub admin_reject_station :
        ℕ → ℕ → Option String → RequestAuditContext → Action World ChargingStation
    unfolding get_station_or_throw sanitize_station station_message send record_activity
    admin_reject_station station_id admin reason ctx = do
      (station, operator) ← get_station_or_throw station_id
      throw_if (not (can_station_transition station.status StationStatus.rejected))
          (bad_request ("Cannot reject station from status " <> name_of station.status))
      modify (λ w. record w {
        charging_stations =
            update w.charging_stations station_id (turned_to StationStatus.rejected reason);
      })
      record_activity admin "stations:rejected" "ChargingStation" (some station_id) ctx
          (some (("email", Json.nullable ctx.actor_email) ∷ ("reason", Json.nullable reason) ∷ []))
      send operator.user_id (
          station_message NotificationType.station_rejected "Charging station rejected"
            (get_or reason (station.name <> " was rejected. Please update and resubmit."))
            station_id)
      pure (sanitize_station false (turned_to StationStatus.rejected reason station))

    unfoldable pub admin_suspend_station :
        ℕ → ℕ → Option String → RequestAuditContext → Action World ChargingStation
    unfolding get_station_or_throw sanitize_station station_message send record_activity
    admin_suspend_station station_id admin reason ctx = do
      (station, operator) ← get_station_or_throw station_id
      throw_if (not (can_station_transition station.status StationStatus.suspended))
          (bad_request ("Cannot suspend station from status " <> name_of station.status))
      modify (λ w. record w {
        charging_stations =
            update w.charging_stations station_id (turned_to StationStatus.suspended reason);
      })
      record_activity admin "stations:suspended" "ChargingStation" (some station_id) ctx
          (some (("email", Json.nullable ctx.actor_email) ∷ ("reason", Json.nullable reason) ∷ []))
      send operator.user_id (
          station_message NotificationType.station_suspended "Charging station suspended"
            (get_or reason (station.name <> " has been suspended by the admin team.")) station_id)
      pure (sanitize_station false (turned_to StationStatus.suspended reason station))
