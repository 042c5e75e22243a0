-- ===== src/Fleet/Browse.antt =====
-- src/modules/fleet/fleet.service.ts: `findPaginated`, `findMine`, `adminFindAll`.
use uza_mobility_bn.Base.{
  ℕ, Bool, true, false, Option, none, some, String, List, [], ◌∷◌, ◌&&◌, ◌||◌, ◌==◌, if◌then◌else◌,
}
use uza_mobility_bn.Base.Text.{◌===◌}
use uza_mobility_bn.Js.{Js}
use uza_mobility_bn.Db.{Prisma}
use uza_mobility_bn.Schema.Requests.{FleetRequestStatus, fleet_request_status_enum}
use uza_mobility_bn.Schema.RequestRows.{FleetRequest}
use uza_mobility_bn.Schema.World.{World}
use uza_mobility_bn.Platform.Pages.{PageQuery, Page, find_page, passes}
use uza_mobility_bn.Platform.Settings.{filled}
use uza_mobility_bn.Fleet.Requests.{to_public_fleet_request}

pub record FilterFleetRequestsDto : Type 0 where
  pub status : Option FleetRequestStatus
  pub q : Option String
  pub pages : PageQuery

module _ ⦃N : Js⦄ ⦃P : Prisma⦄ where
  open P use {contains}

  abbrev is_of_user : Option ℕ → FleetRequest → Bool
  is_of_user none request = true
  is_of_user (some user_id) request = elim request.user_id [
    | none ↦ false
    | some id ↦ id == user_id
  ]

  text_passes : String → FleetRequest → Bool
  text_passes q request =
      contains request.organization_name q
      || contains request.contact_person q
      || contains request.phone q
      || contains request.email q
      || contains request.reference_number q

  -- The requests of one user, or all.
  unfoldable pub fleet_where : Option ℕ → FilterFleetRequestsDto → ℕ → FleetRequest → Bool
  unfolding text_passes
  fleet_where user filters _ request =
      is_of_user user request
      && passes filters.status (λ status. request.status === status)
      && passes (filled filters.q) (λ q. text_passes q request)

  abbrev fleet_views : Bool → List (ℕ × FleetRequest) → List (ℕ × FleetRequest)
  fleet_views hide [] = []
  fleet_views hide ((id, request) ∷ requests) =
      let rest = fleet_views hide requests in
      (id, if hide then to_public_fleet_request request else request) ∷ rest

  unfoldable pub find_fleet_requests :
      Option ℕ → FilterFleetRequestsDto → Bool → World → Page (ℕ × FleetRequest)
  unfolding fleet_where find_page
  find_fleet_requests user filters hide_admin_notes w =
      let page = find_page w.fleet_requests (fleet_where user filters) 25 filters.pages in
      record {
        items = fleet_views hide_admin_notes page.items;
        total = page.total;
        page = page.page;
        limit = page.limit;
        total_pages = page.total_pages;
      }
