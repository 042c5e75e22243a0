-- ===== src/ChargingStations/Steps/Owners.antt =====
-- What the calls of the operators do to the stations.
use uza_mobility_bn.Base.{
  ℕ, ◌≡◌, refl, false, String, some, [], ◌∷◌, arith, inl, inr, ◌⊎◌, Option-cases, Bool-cases, ◌==◌,
  not, ◌||◌, is_some,
}
use uza_mobility_bn.Base.Text.{includes, ◌===◌}
use uza_mobility_bn.Js.{Js}
use uza_mobility_bn.Db.{Prisma}
use uza_mobility_bn.Db.Histories.{kept, added, moved, moved_twice}
use uza_mobility_bn.Schema.Catalog.{StationStatus, station_status_enum}
use uza_mobility_bn.Schema.Charging.{OperatorStatus, operator_status_enum}
use uza_mobility_bn.Schema.StationRows.{ChargingStation, OperatorProfile}
use uza_mobility_bn.Schema.World.{World}
use uza_mobility_bn.Api.{ApiError, ok, err, not_found, forbidden}
use uza_mobility_bn.Api.Reads.{Reads}
use uza_mobility_bn.Platform.Audit.{RequestAuditContext}
use uza_mobility_bn.Platform.Slug.Tables.{unique_slug}
use uza_mobility_bn.ChargingStations.Transitions.{
  can_station_transition, allowed_station_transitions,
}
use uza_mobility_bn.ChargingStations.Operators.{operator_of_user}
use uza_mobility_bn.ChargingStations.Access.{require_active_operator, get_station_owned_by}
use uza_mobility_bn.ChargingStations.Stations.{
  CreateStationDto, UpdateStationDto, new_station, with_station_status, with_slug,
  with_station_data, new_name, create_station, update_station_by_owner, submit_station_by_owner,
  rename_station, is_active_port_of, is_photo_of,
}
use uza_mobility_bn.ChargingStations.Steps.{stays, turns, StationsStep}

module _ ⦃N : Js⦄ ⦃P : Prisma⦄ where
  open P use {find_unique, count}

  active-Reads : (user_id : ℕ) (w : World) → Reads (require_active_operator user_id) w
  unfolding require_active_operator
  active-Reads user_id w = elim (Option-cases (operator_of_user user_id w)) [
    | inl n ↦ inl (not_found "Operator profile not found", ground (arith, n))
    | inr ((id, profile), f) ↦
        elim (Bool-cases
          (not (profile.status === OperatorStatus.active) || not profile.is_verified)) [
            | inl b ↦ inl (
              forbidden "Operator must be approved before managing stations",
              ground (arith, f, b),
            )
            | inr b ↦ inr ((id, profile), ground (arith, f, b))
          ]
  ]

  -- A station that is owned is found in the table.
  pub owned-cases :
      (user_id station_id : ℕ) (w : World)
      → ((e : ApiError) × (get_station_owned_by user_id station_id w ≡ (err e, w)))
        ⊎ ((station : ChargingStation) × (operator : OperatorProfile) × (get_station_owned_by
                user_id station_id w
              ≡ (ok (station, operator), w))
            × (find_unique w.charging_stations station_id ≡ some station))
  unfolding get_station_owned_by
  owned-cases user_id station_id w = elim (active-Reads user_id w) [
    | inl (e, a) ↦ inl (e, ground (arith, a))
    | inr ((id, operator), a) ↦ elim (Option-cases (find_unique w.charging_stations station_id)) [
      | inl n ↦ inl (not_found "Charging station not found", ground (arith, a, n))
      | inr (station, f) ↦ elim (Bool-cases (station.operator_id == id)) [
        | inl o ↦ inr (station, operator, ground (arith, a, f, o), f)
        | inr o ↦ inl (not_found "Charging station not found", ground (arith, a, f, o))
      ]
    ]
  ]

  module _ (user_id : ℕ) (ctx : RequestAuditContext) (w : World) where
    pub create-StationsStep :
        (dto : CreateStationDto) → StationsStep w (create_station user_id dto ctx w).1
    unfolding create_station new_station
    create-StationsStep dto = elim (active-Reads user_id w) [
      | inl (e, a) ↦ kept (ground (arith, a))
      | inr ((id, operator), a) ↦
          elim (Option-cases
            (unique_slug w.charging_stations (λ r. r.slug) (λ id. false) dto.name)) [
              | inl n ↦ kept (ground (arith, a, n))
              | inr (ok slug, s) ↦ added (new_station id slug dto) refl (ground (arith, a, s))
              | inr (err e, s) ↦ kept (ground (arith, a, s))
            ]
    ]

    pub submit-StationsStep :
        (station_id : ℕ) → StationsStep w (submit_station_by_owner user_id station_id ctx w).1
    unfolding submit_station_by_owner can_station_transition allowed_station_transitions
    submit-StationsStep station_id = elim (owned-cases user_id station_id w) [
      | inl (e, o) ↦ kept (ground (arith, o))
      | inr (station, operator, o, found) ↦
          elim (Bool-cases
            (includes (StationStatus.draft ∷ StationStatus.rejected ∷ []) station.status)) [
              | inr d ↦ kept (ground (arith, o))
              | inl d ↦
                  elim (Bool-cases (count w.charging_ports (is_active_port_of station_id) == 0)) [
                    | inl p ↦ kept (ground (arith, o))
                    | inr p ↦
                        elim (Bool-cases (count w.station_photos (is_photo_of station_id) == 0)) [
                          | inl f ↦ kept (ground (arith, o))
                          | inr f ↦
                              elim (Bool-cases (
                                not (is_some station.latitude)
                                || not (is_some station.longitude))) [
                                  | inl l ↦ kept (ground (arith, o))
                                  | inr l ↦
                                      moved station_id station
                                        (with_station_status StationStatus.pending_review) found
                                        (turns (ground (arith, d)) refl) (ground (arith, o))
                                ]
                        ]
                  ]
            ]
    ]

    pub update-StationsStep :
        (station_id : ℕ) (dto : UpdateStationDto) (fields : String)
        → StationsStep w (update_station_by_owner user_id station_id dto fields ctx w).1
    unfolding update_station_by_owner rename_station
    update-StationsStep station_id dto fields = elim (owned-cases user_id station_id w) [
      | inl (e, o) ↦ kept (ground (arith, o))
      | inr (station, operator, o, found) ↦ elim (Option-cases (new_name dto.name station.name)) [
        | inl n ↦
            moved station_id station (with_station_data dto) found (stays refl)
              (ground (arith, o, n))
        | inr (name, n) ↦
            elim (Option-cases
              (unique_slug w.charging_stations (λ r. r.slug) (λ id. id == station_id) name)) [
                | inl m ↦ kept (ground (arith, o, n, m))
                | inr (ok slug, s) ↦
                    moved_twice station_id station (with_slug slug) (with_station_data dto) found
                      (stays refl) (ground (arith, o, n, s))
                | inr (err e, s) ↦ kept (ground (arith, o, n, s))
              ]
      ]
    ]
