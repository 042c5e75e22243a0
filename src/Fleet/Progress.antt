-- ===== src/Fleet/Progress.antt =====
-- The requests for fleets through every history of calls.
use uza_mobility_bn.Base.{
  ℕ, ◌≡◌, refl, Bool, true, Option, some, arith, inl, inr, Option-cases, Bool-cases, is_some, not,
  ◌||◌, String,
}
use uza_mobility_bn.Base.Chains.{Chain, stop, step}
use uza_mobility_bn.Base.Text.{◌===◌}
use uza_mobility_bn.Js.{Js}
use uza_mobility_bn.Db.{Prisma, PrismaLaws}
use uza_mobility_bn.Db.Histories.{
  TableStep, kept, completed, moved, EveryRow, History, History-EveryRow, History-row,
}
use uza_mobility_bn.Schema.Requests.{FleetRequestStatus, fleet_request_status_enum}
use uza_mobility_bn.Schema.RequestRows.{FleetRequest}
use uza_mobility_bn.Schema.World.{World}
use uza_mobility_bn.Platform.Audit.{RequestAuditContext}
use uza_mobility_bn.Platform.Reference.{uzm_flt, generate_reference_number}
use uza_mobility_bn.Fleet.Transitions.{can_fleet_transition, fleet_transitions}
use uza_mobility_bn.Fleet.Requests.{
  FleetRequestPdfContext, CreateFleetRequestDto, UpdateFleetRequestStatusDto, new_fleet_request,
  with_summary, pdf_context, category_name, subcategory_name, with_fleet_status,
  submit_fleet_request, check_association,
}
use uza_mobility_bn.Fleet.Review.{update_fleet_status}

module _ ⦃N : Js⦄ where
  -- A request that got past its quotation.
  abbrev pub past_quotation : FleetRequestStatus → Bool
  past_quotation s =
      s === FleetRequestStatus.quoted
      || s === FleetRequestStatus.approved
      || s === FleetRequestStatus.in_progress
      || s === FleetRequestStatus.completed

  -- It has the date of its quotation, if it got past it.
  abbrev pub IsQuoted : FleetRequest → Type 0
  IsQuoted request = (not (past_quotation request.status) || is_some request.quoted_at) ≡ true

  abbrev IsNew : FleetRequest → Type 0
  IsNew request = request.status ≡ FleetRequestStatus.submitted

  -- An allowed transition, with what it writes.
  data MovesOn : FleetRequest → FleetRequest → Type 0 where
    move_on :
        (a : FleetRequest) (dto : UpdateFleetRequestStatusDto) (now : ℕ)
        → can_fleet_transition a.status dto.status ≡ true
        → MovesOn a (with_fleet_status dto now a.quoted_at a)

  module _ ⦃P : Prisma⦄ where
    open P use {find_unique}

    pub data FleetCall : Type 0 where
      submit : (FleetRequestPdfContext → String) → CreateFleetRequestDto → Option ℕ → FleetCall
      set_status : ℕ → UpdateFleetRequestStatusDto → ℕ → RequestAuditContext → FleetCall

    unfoldable pub run_fleet_call : FleetCall → World → World
    run_fleet_call (submit save_pdf dto user) w = (submit_fleet_request save_pdf dto user w).1
    run_fleet_call (set_status id dto admin ctx) w = (update_fleet_status id dto admin ctx w).1

    -- What a request keeps, and how its status moves.
    abbrev pub Follows : FleetRequest → FleetRequest → Type 0
    Follows a b =
        Chain can_fleet_transition a.status b.status
        × (b.organization_name ≡ a.organization_name)
        × (b.email ≡ a.email)
        × (b.quantity ≡ a.quantity)
        × (b.reference_number ≡ a.reference_number)

    follow : (a b c : FleetRequest) → Follows a b → MovesOn b c → Follows a c
    unfolding with_fleet_status
    follow a _ _ (path, o, e, q, n) (move_on b dto now allowed) = (step path allowed, o, e, q, n)

    submit-TableStep :
        (save_pdf : FleetRequestPdfContext → String) (dto : CreateFleetRequestDto) (user : Option ℕ)
        (w : World)
        → TableStep IsNew MovesOn w.fleet_requests
            (submit_fleet_request save_pdf dto user w).1.fleet_requests
    unfolding submit_fleet_request check_association new_fleet_request
    submit-TableStep save_pdf dto user w =
        let reference = generate_reference_number w uzm_flt in
        let request = new_fleet_request reference user dto in
        let url = save_pdf (
          pdf_context (category_name dto.vehicle_category_id w)
            (subcategory_name dto.vehicle_subcategory_id w) request) in
        elim (Option-cases dto.association_id) [
          | inl n ↦ completed request (with_summary url) refl (ground arith)
          | inr (id, i) ↦ elim (Option-cases (find_unique w.associations id)) [
            | inl a ↦ kept (ground arith)
            | inr (association, a) ↦ completed request (with_summary url) refl (ground arith)
          ]
        ]

    set_status-TableStep :
        (id : ℕ) (dto : UpdateFleetRequestStatusDto) (admin : ℕ) (ctx : RequestAuditContext)
        (w : World)
        → TableStep IsNew MovesOn w.fleet_requests
            (update_fleet_status id dto admin ctx w).1.fleet_requests
    unfolding update_fleet_status
    set_status-TableStep id dto admin ctx w =
        elim (Option-cases (find_unique w.fleet_requests id)) [
          | inl n ↦ kept (ground arith)
          | inr (request, found) ↦
              elim (Bool-cases (can_fleet_transition request.status dto.status)) [
                | inr c ↦ kept (ground arith)
                | inl c ↦ elim (Option-cases request.user_id) [
                  | inl u ↦
                      moved id request (with_fleet_status dto w.now request.quoted_at) found
                        (move_on request dto w.now c) (ground arith)
                  | inr (user, u) ↦
                      moved id request (with_fleet_status dto w.now request.quoted_at) found
                        (move_on request dto w.now c) (ground arith)
                ]
              ]
        ]

    fleet-TableStep :
        (c : FleetCall) (w : World)
        → TableStep IsNew MovesOn w.fleet_requests (run_fleet_call c w).fleet_requests
    unfolding run_fleet_call
    fleet-TableStep (submit save_pdf dto user) w = submit-TableStep save_pdf dto user w
    fleet-TableStep (set_status id dto admin ctx) w = set_status-TableStep id dto admin ctx w

    MovesOn-IsQuoted : (a b : FleetRequest) → MovesOn a b → IsQuoted a → IsQuoted b
    unfolding can_fleet_transition fleet_transitions with_fleet_status
    MovesOn-IsQuoted _ _ (move_on a dto now c) q = ground (arith, c, q)

    module _ ⦃L : PrismaLaws⦄ where
      -- Through every history of submissions and status changes, in any order, with anything between
      -- them that leaves the fleet requests alone: where every request that is quoted, approved, in
      -- progress or completed had the date of its quotation at the start, every such request has it.
      pub fleet_dated :
          {start w : World}
          → EveryRow IsQuoted start.fleet_requests
          → History run_fleet_call (λ x. x.fleet_requests) start w
          → EveryRow IsQuoted w.fleet_requests
      fleet_dated every h =
          History-EveryRow fleet-TableStep (λ r e. ground (arith, e)) MovesOn-IsQuoted every h

      -- Through every such history a request stays in the table, its status lies at the end of a
      -- chain of allowed transitions, and its organisation, e-mail, quantity and reference number are
      -- the ones it was submitted with.
      pub fleet-Chain :
          {start w : World} (j : ℕ) (r : FleetRequest)
          → find_unique start.fleet_requests j ≡ some r
          → History run_fleet_call (λ x. x.fleet_requests) start w
          → (r' : FleetRequest) × (find_unique w.fleet_requests j ≡ some r') × Follows r r'
      unfolding with_fleet_status
      fleet-Chain j r found h =
          History-row fleet-TableStep {Reaches = Follows}
            (λ a. (stop a.status, refl, refl, refl, refl)) follow j r found h
