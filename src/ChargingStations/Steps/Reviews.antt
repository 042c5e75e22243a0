-- ===== src/ChargingStations/Steps/Reviews.antt =====
-- What the calls of the administrators do to the stations.
use uza_mobility_bn.Base.{ℕ, refl, String, Option, arith, inl, inr, Option-cases, Bool-cases}
use uza_mobility_bn.Js.{Js}
use uza_mobility_bn.Db.{Prisma}
use uza_mobility_bn.Db.Histories.{kept, moved}
use uza_mobility_bn.Schema.Catalog.{StationStatus}
use uza_mobility_bn.Schema.World.{World}
use uza_mobility_bn.Platform.Audit.{RequestAuditContext}
use uza_mobility_bn.ChargingStations.Transitions.{can_station_transition}
use uza_mobility_bn.ChargingStations.Review.{
  as_active, turned_to, admin_approve_station, admin_reject_station, admin_suspend_station,
}
use uza_mobility_bn.ChargingStations.Steps.{turns, StationsStep}

module _ ⦃N : Js⦄ ⦃P : Prisma⦄ (station_id admin : ℕ) (ctx : RequestAuditContext) (w : World) where
  open P use {find_unique}

  pub approve-StationsStep : StationsStep w (admin_approve_station station_id admin ctx w).1
  unfolding admin_approve_station
  approve-StationsStep = elim (Option-cases (find_unique w.charging_stations station_id)) [
    | inl n ↦ kept (ground arith)
    | inr (station, found) ↦
        elim (Option-cases (find_unique w.operator_profiles station.operator_id)) [
          | inl n ↦ kept (ground arith)
          | inr (operator, o) ↦
              elim (Bool-cases (can_station_transition station.status StationStatus.active)) [
                | inr c ↦ kept (ground arith)
                | inl c ↦
                    moved station_id station (as_active station.published_at w.now) found
                      (turns c refl) (ground arith)
              ]
        ]
  ]

  module _ (reason : Option String) where
    pub reject-StationsStep : StationsStep w (admin_reject_station station_id admin reason ctx w).1
    unfolding admin_reject_station
    reject-StationsStep = elim (Option-cases (find_unique w.charging_stations station_id)) [
      | inl n ↦ kept (ground arith)
      | inr (station, found) ↦
          elim (Option-cases (find_unique w.operator_profiles station.operator_id)) [
            | inl n ↦ kept (ground arith)
            | inr (operator, o) ↦
                elim (Bool-cases (can_station_transition station.status StationStatus.rejected)) [
                  | inr c ↦ kept (ground arith)
                  | inl c ↦
                      moved station_id station (turned_to StationStatus.rejected reason) found
                        (turns c refl) (ground arith)
                ]
          ]
    ]

    pub suspend-StationsStep :
        StationsStep w (admin_suspend_station station_id admin reason ctx w).1
    unfolding admin_suspend_station
    suspend-StationsStep = elim (Option-cases (find_unique w.charging_stations station_id)) [
      | inl n ↦ kept (ground arith)
      | inr (station, found) ↦
          elim (Option-cases (find_unique w.operator_profiles station.operator_id)) [
            | inl n ↦ kept (ground arith)
            | inr (operator, o) ↦
                elim (Bool-cases (can_station_transition station.status StationStatus.suspended)) [
                  | inr c ↦ kept (ground arith)
                  | inl c ↦
                      moved station_id station (turned_to StationStatus.suspended reason) found
                        (turns c refl) (ground arith)
                ]
          ]
    ]
