-- ===== src/Fleet/Requests.antt =====
-- src/modules/fleet/fleet.service.ts: `submitRequest`, and what `updateStatus` writes. The e-mail to
-- the requester leaves no trace in the data base.
use uza_mobility_bn.Base.{
  ℕ, Bool, false, Option, none, some, String, [], ◌∷◌, get_or, if◌then◌else◌,
}
use uza_mobility_bn.Base.Text.{◌<>◌, ◌===◌, name_of}
use uza_mobility_bn.Js.{Js}
use uza_mobility_bn.Db.{Prisma}
use uza_mobility_bn.Schema.Requests.{
  FleetRequestStatus, fleet_request_status_enum, NotificationType,
}
use uza_mobility_bn.Schema.Rows.{Json}
use uza_mobility_bn.Schema.RequestRows.{FleetRequest}
use uza_mobility_bn.Schema.World.{World}
use uza_mobility_bn.Api.{Action, internal, ◌>>=◌, ◌>>◌, pure, gets, modify, require}
use uza_mobility_bn.Platform.Notifications.{Message, send_to_role_names}
use uza_mobility_bn.Platform.Reference.{uzm_flt, generate_reference_number}

-- What the summary document shows.
pub record FleetRequestPdfContext : Type 0 where
  pub reference_number : String
  pub organization_name : String
  pub contact_person : String
  pub email : String
  pub phone : String
  pub buyer_type : String
  pub quantity : ℕ
  pub vehicle_category_name : Option String
  pub vehicle_subcategory_name : Option String
  pub use_case : Option String
  pub notes : Option String

pub record UpdateFleetRequestStatusDto : Type 0 where
  pub status : FleetRequestStatus
  pub admin_notes : Option String

module _ ⦃N : Js⦄ where
  open N use {Num, trim, to_lower, to_text}

  pub record CreateFleetRequestDto : Type 0 where
    pub organization_name : String
    pub contact_person : String
    pub phone : String
    pub email : String
    pub buyer_type : Option String
    pub vehicle_category_id : Option ℕ
    pub vehicle_subcategory_id : Option ℕ
    pub quantity : ℕ
    pub use_case : Option String
    pub preferred_delivery_timeline : Option String
    pub budget_range_min : Option Num
    pub budget_range_max : Option Num
    pub financing_requested : Option Bool
    pub charging_support_requested : Option Bool
    pub association_id : Option ℕ
    pub notes : Option String

  -- `notes?.trim()`
  abbrev trim_notes : Option String → Option String
  trim_notes none = none
  trim_notes (some notes) = some (trim notes)

  unfoldable pub new_fleet_request : String → Option ℕ → CreateFleetRequestDto → FleetRequest
  new_fleet_request reference user_id dto = record {
    reference_number = reference;
    summary_pdf_url = none;
    user_id = user_id;
    association_id = dto.association_id;
    status = FleetRequestStatus.submitted;
    organization_name = trim dto.organization_name;
    contact_person = trim dto.contact_person;
    phone = trim dto.phone;
    email = to_lower (trim dto.email);
    buyer_type = get_or dto.buyer_type "BUSINESS";
    vehicle_category_id = dto.vehicle_category_id;
    vehicle_subcategory_id = dto.vehicle_subcategory_id;
    quantity = dto.quantity;
    use_case = dto.use_case;
    preferred_delivery_timeline = dto.preferred_delivery_timeline;
    budget_range_min = dto.budget_range_min;
    budget_range_max = dto.budget_range_max;
    financing_requested = get_or dto.financing_requested false;
    charging_support_requested = get_or dto.charging_support_requested false;
    notes = trim_notes dto.notes;
    admin_notes = none;
    quoted_at = none;
  }

  abbrev pub with_summary : String → FleetRequest → FleetRequest
  with_summary url request = record request { summary_pdf_url = some url }

  pub pdf_context : Option String → Option String → FleetRequest → FleetRequestPdfContext
  pdf_context category subcategory request = record {
    reference_number = request.reference_number;
    organization_name = request.organization_name;
    contact_person = request.contact_person;
    email = request.email;
    phone = request.phone;
    buyer_type = request.buyer_type;
    quantity = request.quantity;
    vehicle_category_name = category;
    vehicle_subcategory_name = subcategory;
    use_case = request.use_case;
    notes = request.notes;
  }

  -- `toPublicFleetRequest`: a key that is taken away is `none`.
  unfoldable pub to_public_fleet_request : FleetRequest → FleetRequest
  to_public_fleet_request request = record request { admin_notes = none }

  -- An update leaves the notes alone where the call gives none.
  abbrev pub noted : Option String → Option String → Option String
  noted none old = old
  noted (some notes) old = some notes

  unfoldable pub with_fleet_status :
      UpdateFleetRequestStatusDto → ℕ → Option ℕ → FleetRequest → FleetRequest
  with_fleet_status dto now quoted_at request = record request {
    status = dto.status;
    admin_notes = noted dto.admin_notes request.admin_notes;
    quoted_at = if dto.status === FleetRequestStatus.quoted then some now else quoted_at;
  }

  fleet_requested : ℕ → String → CreateFleetRequestDto → Message
  fleet_requested request_id reference dto = record {
    kind = NotificationType.fleet_request_update;
    title = "New fleet request";
    body = dto.organization_name <> " requested " <> to_text dto.quantity <> " vehicle(s).";
    metadata =
        ("fleetRequestId", Json.id request_id) ∷ ("referenceNumber", Json.text reference) ∷ [];
  }

  unfoldable pub fleet_updated : ℕ → String → FleetRequestStatus → Message
  fleet_updated request_id organization status = record {
    kind = NotificationType.fleet_request_update;
    title = "Fleet request updated";
    body = "Your fleet request for " <> organization <> " is now " <> name_of status <> ".";
    metadata = ("fleetRequestId", Json.id request_id) ∷ ("status", Json.text (name_of status)) ∷ [];
  }

  module _ ⦃P : Prisma⦄ where
    open P use {find_unique, insert, update, new_id}

    -- `id ? findUnique({ where: { id }, select: { name: true } }) : null`
    pub category_name : Option ℕ → World → Option String
    category_name none w = none
    category_name (some id) w = elim (find_unique w.categories id) [
      | none ↦ none
      | some c ↦ some c.name
    ]

    pub subcategory_name : Option ℕ → World → Option String
    subcategory_name none w = none
    subcategory_name (some id) w = elim (find_unique w.subcategories id) [
      | none ↦ none
      | some c ↦ some c.name
    ]

    -- The foreign key of the association, which the data base checks.
    unfoldable pub check_association : Option ℕ → Action World (Unit {0})
    check_association none = pure tt
    check_association (some id) = do
      found ← gets (λ w. find_unique w.associations id)
      _ ← require found (internal "the foreign key of the association")
      pure tt

    -- `save_pdf` renders and stores the document and gives its address.
    unfoldable pub submit_fleet_request :
        (FleetRequestPdfContext → String)
        → CreateFleetRequestDto
        → Option ℕ
        → Action World (ℕ × FleetRequest)
    unfolding check_association send_to_role_names fleet_requested
    submit_fleet_request save_pdf dto user_id = do
      reference ← gets (λ w. generate_reference_number w uzm_flt)
      category ← gets (category_name dto.vehicle_category_id)
      subcategory ← gets (subcategory_name dto.vehicle_subcategory_id)
      check_association dto.association_id
      request_id ← gets (λ w. new_id w.fleet_requests)
      modify (λ w. record w {
        fleet_requests = insert w.fleet_requests (new_fleet_request reference user_id dto);
      })
      let url =
          save_pdf (pdf_context category subcategory (new_fleet_request reference user_id dto))
      modify
          (λ w. record w { fleet_requests = update w.fleet_requests request_id (with_summary url) })
      send_to_role_names ("FLEET_ADMIN" ∷ "SUPER_ADMIN" ∷ [])
          (fleet_requested request_id reference dto)
      pure (
        request_id,
        to_public_fleet_request (with_summary url (new_fleet_request reference user_id dto)),
      )
