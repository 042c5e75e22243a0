-- ===== src/ChargingStations/Steps/Equipped.antt =====
-- What the calls on ports, prices, compatible vehicles and photos do to the stations.
use uza_mobility_bn.Base.{
  ℕ, ◌≡◌, refl, true, String, some, List, arith, inl, inr, Option-cases, Bool-cases, ◌==◌, ◌&&◌,
  not, is_some, get_or, length,
}
use uza_mobility_bn.Js.{Js}
use uza_mobility_bn.Db.{Prisma}
use uza_mobility_bn.Db.Histories.{TableStep, kept, moved}
use uza_mobility_bn.Schema.StationRows.{ChargingStation, ChargingPort}
use uza_mobility_bn.Schema.World.{World}
use uza_mobility_bn.ChargingStations.Access.{find_my_station_by_id}
use uza_mobility_bn.ChargingStations.Stations.{is_active_port_of, is_photo_of}
use uza_mobility_bn.ChargingStations.Equipment.{
  CreateChargingPortDto, UpdateChargingPortDto, CreateStationPricingDto,
  CreateVehicleCompatibilityDto, new_port, with_port_data, new_pricing, new_compatibility,
  new_photos, port_of, is_available_port_of, with_port_counts, deactivate_pricing, insert_all,
  add_port_by_owner, update_port_by_owner, remove_port_by_owner, set_pricing_by_owner,
  add_compatibility_by_owner, add_photos_by_owner,
}
use uza_mobility_bn.ChargingStations.Steps.{IsDraft, Moves, stays, StationsStep}
use uza_mobility_bn.ChargingStations.Steps.Owners.{owned-cases}
use text.Mathlib.Text.{◌==◌ as str_eq}

module _ ⦃N : Js⦄ ⦃P : Prisma⦄ (user_id station_id : ℕ) where
  open P use {Table, find_unique, insert, update, update_many, delete_many, count}

  -- The answer of a call leaves the state alone.
  answer : (w : World) → (find_my_station_by_id user_id station_id w).1 ≡ w
  unfolding find_my_station_by_id
  answer w = elim (owned-cases user_id station_id w) [
    | inl (e, o) ↦ ground (arith, o)
    | inr (station, operator, o, found) ↦ ground (arith, o)
  ]

  -- The counts of the ports `ports` do not touch the status.
  counted :
      {t t' : Table ChargingStation} (ports : Table ChargingPort) (station : ChargingStation)
      → find_unique t station_id ≡ some station
      → t'
        ≡ update t station_id (
            with_port_counts
              (count ports (is_active_port_of station_id))
              (count ports (is_available_port_of station_id)))
      → TableStep IsDraft Moves t t'
  counted ports station found e = moved station_id station _ found (stays refl) e

  module _ (w : World) where
    pub add_port-StationsStep :
        (dto : CreateChargingPortDto)
        → StationsStep w (add_port_by_owner user_id station_id dto w).1
    unfolding add_port_by_owner
    add_port-StationsStep dto = elim (owned-cases user_id station_id w) [
      | inl (e, o) ↦ kept (ground (arith, o))
      | inr (station, operator, o, found) ↦
          counted (insert w.charging_ports (new_port station_id dto)) station found
            (ground (arith, o))
    ]

    pub update_port-StationsStep :
        (port_id : ℕ) (dto : UpdateChargingPortDto)
        → StationsStep w (update_port_by_owner user_id station_id port_id dto w).1
    unfolding update_port_by_owner
    update_port-StationsStep port_id dto = elim (owned-cases user_id station_id w) [
      | inl (e, o) ↦ kept (ground (arith, o))
      | inr (station, operator, o, found) ↦ elim (Option-cases (port_of station_id port_id w)) [
        | inl n ↦ kept (ground (arith, o, n))
        | inr (port, p) ↦
            counted (update w.charging_ports port_id (with_port_data dto)) station found
              (ground (arith, o, p))
      ]
    ]

    pub remove_port-StationsStep :
        (port_id : ℕ) → StationsStep w (remove_port_by_owner user_id station_id port_id w).1
    unfolding remove_port_by_owner
    remove_port-StationsStep port_id = elim (owned-cases user_id station_id w) [
      | inl (e, o) ↦ kept (ground (arith, o))
      | inr (station, operator, o, found) ↦ elim (Option-cases (port_of station_id port_id w)) [
        | inl n ↦ kept (ground (arith, o, n))
        | inr (port, p) ↦
            counted
              (delete_many w.charging_ports
                (λ id port. id == port_id && port.station_id == station_id))
              station found (ground (arith, o, p))
      ]
    ]

    pub pricing-StationsStep :
        (dto : CreateStationPricingDto)
        → StationsStep w (set_pricing_by_owner user_id station_id dto w).1
    unfolding set_pricing_by_owner deactivate_pricing
    pricing-StationsStep dto = elim (owned-cases user_id station_id w) [
      | inl (e, o) ↦ kept (ground (arith, o))
      | inr (station, operator, o, found) ↦
          elim (Bool-cases
            (not (str_eq dto.pricing_model "FREE") && not (is_some dto.rate_amount))) [
              | inl p ↦ kept (ground (arith, o, p))
              | inr p ↦ elim (Bool-cases (get_or dto.is_active true)) [
                | inl a ↦
                    let w' = record w {
                      station_pricing =
                          insert (deactivate_pricing true station_id w).station_pricing
                            (new_pricing station_id w.now dto);
                    } in
                    kept (ground (arith, o, p, a, answer w'))
                | inr a ↦
                    let w' = record w {
                      station_pricing = insert w.station_pricing (new_pricing station_id w.now dto);
                    } in
                    kept (ground (arith, o, p, a, answer w'))
              ]
            ]
    ]

    pub compatibility-StationsStep :
        (dto : CreateVehicleCompatibilityDto)
        → StationsStep w (add_compatibility_by_owner user_id station_id dto w).1
    unfolding add_compatibility_by_owner
    compatibility-StationsStep dto = elim (owned-cases user_id station_id w) [
      | inl (e, o) ↦ kept (ground (arith, o))
      | inr (station, operator, o, found) ↦
          let w' = record w {
            vehicle_compatibility =
                insert w.vehicle_compatibility (new_compatibility station_id dto);
          } in
          kept (ground (arith, o, answer w'))
    ]

    pub photos-StationsStep :
        (urls : List String) → StationsStep w (add_photos_by_owner user_id station_id urls w).1
    unfolding add_photos_by_owner
    photos-StationsStep urls = elim (owned-cases user_id station_id w) [
      | inl (e, o) ↦ kept (ground (arith, o))
      | inr (station, operator, o, found) ↦ elim (Bool-cases (length urls == 0)) [
        | inl n ↦ kept (ground (arith, o, n))
        | inr n ↦
            let w' = record w {
              station_photos =
                  insert_all w.station_photos (
                    new_photos station_id (count w.station_photos (is_photo_of station_id)) 0 urls);
            } in
            kept (ground (arith, o, n, answer w'))
      ]
    ]
