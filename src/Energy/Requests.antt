-- ===== src/Energy/Requests.antt =====
-- src/modules/energy/energy.service.ts: the requests for a quote.
use uza_mobility_bn.Base.{
  ℕ, Bool, false, Option, none, some, String, List, [], ◌∷◌, not, get_or, any,
}
use uza_mobility_bn.Base.Text.{◌<>◌}
use uza_mobility_bn.Js.{Js}
use uza_mobility_bn.Db.{Prisma}
use uza_mobility_bn.Schema.Requests.{NotificationType}
use uza_mobility_bn.Schema.Rows.{Json}
use uza_mobility_bn.Schema.MarketRows.{EnergyRequest}
use uza_mobility_bn.Schema.World.{World}
use uza_mobility_bn.Api.{
  Action, bad_request, not_found, ◌>>=◌, ◌>>◌, pure, gets, modify, throw_if, require,
}
use uza_mobility_bn.Platform.Notifications.{Message, send_to_role_names}
use uza_mobility_bn.Platform.Pages.{PageQuery, Page, find_page, passes}
use uza_mobility_bn.Platform.Settings.{filled}
use text.Mathlib.Text.{◌==◌ as str_eq}
use uza_mobility_bn.Energy.Products.{get_product_or_throw}

abbrev pub energy_request_statuses : List String
energy_request_statuses =
    "SUBMITTED" ∷ "UNDER_REVIEW" ∷ "QUOTED" ∷ "IN_PROGRESS" ∷ "COMPLETED" ∷ "CANCELLED" ∷ []

pub record CreateEnergyRequestDto : Type 0 where
  pub contact_name : String
  pub phone : String
  pub email : Option String
  pub client_type : Option String
  pub location : Option String
  pub city : Option String
  pub number_of_evs : Option ℕ
  pub charger_type_needed : Option String
  pub solar_support_needed : Option Bool
  pub fleet_use : Option Bool
  pub site_visit_requested : Option Bool
  pub charging_product_id : Option ℕ
  pub notes : Option String

unfoldable pub new_energy_request : CreateEnergyRequestDto → EnergyRequest
new_energy_request dto = record {
  client_type = dto.client_type;
  location = dto.location;
  city = dto.city;
  number_of_evs = dto.number_of_evs;
  charger_type_needed = dto.charger_type_needed;
  solar_support_needed = get_or dto.solar_support_needed false;
  fleet_use = get_or dto.fleet_use false;
  site_visit_requested = get_or dto.site_visit_requested false;
  contact_name = dto.contact_name;
  phone = dto.phone;
  email = dto.email;
  notes = dto.notes;
  status = "SUBMITTED";
  charging_product_id = dto.charging_product_id;
}

abbrev pub with_energy_status : String → EnergyRequest → EnergyRequest
with_energy_status status request = record request { status = status }

module _ ⦃N : Js⦄ where
  energy_requested : ℕ → String → Message
  energy_requested request_id contact_name = record {
    kind = NotificationType.system_alert;
    title = "New energy quote request";
    body = contact_name <> " submitted an energy/charging request.";
    metadata = ("energyRequestId", Json.id request_id) ∷ [];
  }

  module _ ⦃P : Prisma⦄ where
    open P use {find_unique, insert, update, new_id}

    unfoldable pub check_product : Option ℕ → Action World (Unit {0})
    check_product none = pure tt
    check_product (some product_id) = do _ ← get_product_or_throw product_id; pure tt

    unfoldable pub submit_energy_request : CreateEnergyRequestDto → Action World (ℕ × EnergyRequest)
    unfolding check_product send_to_role_names energy_requested
    submit_energy_request dto = do
      check_product dto.charging_product_id
      request_id ← gets (λ w. new_id w.energy_requests)
      modify (λ w. record w { energy_requests = insert w.energy_requests (new_energy_request dto) })
      send_to_role_names ("FLEET_ADMIN" ∷ "SUPER_ADMIN" ∷ [])
          (energy_requested request_id dto.contact_name)
      pure (request_id, new_energy_request dto)

    unfoldable pub admin_list_energy_requests :
        Option String → PageQuery → World → Page (ℕ × EnergyRequest)
    unfolding find_page
    admin_list_energy_requests status pages w =
        find_page w.energy_requests (λ _ request. passes (filled status) (str_eq request.status)) 25
          pages

    unfoldable pub update_energy_status : ℕ → String → Action World EnergyRequest
    update_energy_status request_id status = do
      throw_if (not (any (str_eq status) energy_request_statuses))
          (bad_request "Invalid energy request status")
      found ← gets (λ w. find_unique w.energy_requests request_id)
      request ← require found (not_found "Energy request not found")
      modify (λ w. record w {
        energy_requests = update w.energy_requests request_id (with_energy_status status);
      })
      pure (with_energy_status status request)
