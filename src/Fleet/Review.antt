-- ===== src/Fleet/Review.antt =====
-- src/modules/fleet/fleet.service.ts: `adminFindById`, `updateStatus`.
use uza_mobility_bn.Base.{ℕ, Option, none, some, [], ◌∷◌, not}
use uza_mobility_bn.Base.Text.{◌<>◌, name_of}
use uza_mobility_bn.Js.{Js}
use uza_mobility_bn.Db.{Prisma}
use uza_mobility_bn.Schema.Requests.{fleet_request_status_enum}
use uza_mobility_bn.Schema.Rows.{Json}
use uza_mobility_bn.Schema.RequestRows.{FleetRequest, Category}
use uza_mobility_bn.Schema.World.{World}
use uza_mobility_bn.Api.{
  Action, bad_request, not_found, ◌>>=◌, ◌>>◌, pure, gets, modify, throw_if, require,
}
use uza_mobility_bn.Platform.Notifications.{Message, send}
use uza_mobility_bn.Platform.Audit.{RequestAuditContext, record_activity}
use uza_mobility_bn.Fleet.Transitions.{can_fleet_transition}
use uza_mobility_bn.Fleet.Requests.{
  UpdateFleetRequestStatusDto, with_fleet_status, fleet_updated, to_public_fleet_request,
}

module _ ⦃N : Js⦄ where
  module _ ⦃P : Prisma⦄ where
    open P use {find_unique, update}

    notify_requester : Option ℕ → Message → Action World (Unit {0})
    unfolding send
    notify_requester none m = pure tt
    notify_requester (some user_id) m = send user_id m

    abbrev pub get_fleet_request_or_throw : ℕ → Action World FleetRequest
    get_fleet_request_or_throw request_id = do
      found ← gets (λ w. find_unique w.fleet_requests request_id)
      require found (not_found "Fleet request not found")

    unfoldable pub update_fleet_status :
        ℕ → UpdateFleetRequestStatusDto → ℕ → RequestAuditContext → Action World FleetRequest
    unfolding notify_requester fleet_updated record_activity with_fleet_status
        to_public_fleet_request
    update_fleet_status request_id dto admin ctx = do
      request ← get_fleet_request_or_throw request_id
      throw_if (not (can_fleet_transition request.status dto.status)) (
          bad_request (
            "Cannot transition fleet request from "
            <> name_of request.status
            <> " to "
            <> name_of dto.status))
      now ← gets (λ w. w.now)
      modify (λ w. record w {
        fleet_requests =
            update w.fleet_requests request_id (with_fleet_status dto now request.quoted_at);
      })
      notify_requester request.user_id
          (fleet_updated request_id request.organization_name dto.status)
      record_activity admin "fleet:status-updated" "FleetRequest" none ctx (
          some (
            ("email", Json.nullable ctx.actor_email)
            ∷ ("fleetRequestId", Json.id request_id)
            ∷ ("from", Json.text (name_of request.status))
            ∷ ("to", Json.text (name_of dto.status))
            ∷ []))
      pure (to_public_fleet_request (with_fleet_status dto now request.quoted_at request))

    -- A row of the categories under the id, if one is given.
    category_of : Option ℕ → World → Option Category
    category_of none w = none
    category_of (some id) w = find_unique w.categories id

    -- The request with its category and what stands under its subcategory's id, which the source
    -- looks up among the categories.
    unfoldable pub admin_find_fleet_request :
        ℕ → Action World (FleetRequest × Option Category × Option Category)
    unfolding category_of
    admin_find_fleet_request request_id = do
      request ← get_fleet_request_or_throw request_id
      category ← gets (category_of request.vehicle_category_id)
      subcategory ← gets (category_of request.vehicle_subcategory_id)
      pure (request, category, subcategory)
