-- ===== src/Tests/Requests.antt =====
-- The theorems on requests for fleets and for financing at concrete data.
use uza_mobility_bn.Base.{◌≡◌, refl, none, some, [], ◌∷◌}
use uza_mobility_bn.Db.Histories.{EveryRow, begin, call}
use uza_mobility_bn.Schema.Requests.{FleetRequestStatus}
use uza_mobility_bn.Schema.RequestRows.{FleetRequest, FinancingRequest}
use uza_mobility_bn.Schema.World.{World}
use uza_mobility_bn.Fleet.Progress.{
  FleetCall, set_status, run_fleet_call, IsQuoted, Follows, fleet_dated, fleet-Chain,
}
use uza_mobility_bn.Financing.Review.{OutcomeStatus}
use uza_mobility_bn.Financing.Progress.{
  FinancingCall, assign, answer, run_financing_call, financing-IsSound, financing-Reaches,
}
use uza_mobility_bn.Financing.LifeCycle.{IsSound, Reaches}
use uza_mobility_bn.Tests.Natural.{natural, natural_laws}
use uza_mobility_bn.Tests.Memory.{memory, memory_laws}
use uza_mobility_bn.Tests.Stored.{stored}
use uza_mobility_bn.Tests.Data.{context}
use uza_mobility_bn.Tests.Rows.{one_row, shop, fleet_request, financing_request, bank}

-- A fleet request that was submitted.
abbrev asked : World
asked = record shop { fleet_requests = stored (fleet_request FleetRequestStatus.submitted ∷ []) }

-- An administrator sets its status.
abbrev set : FleetRequestStatus → FleetCall
set status = set_status 0 (record { status = status; admin_notes = none }) 7 context

abbrev in_review : World
in_review = run_fleet_call (set FleetRequestStatus.under_review) asked

abbrev quoted : World
quoted = run_fleet_call (set FleetRequestStatus.quoted) in_review

fleet_dated_example : EveryRow IsQuoted quoted.fleet_requests
fleet_dated_example =
    fleet_dated (one_row IsQuoted (fleet_request FleetRequestStatus.submitted) refl)
      (call (call begin (set FleetRequestStatus.under_review)) (set FleetRequestStatus.quoted))

fleet-Chain_example :
    (r : FleetRequest) × (memory.find_unique quoted.fleet_requests 0 ≡ some r)
    × Follows (fleet_request FleetRequestStatus.submitted) r
fleet-Chain_example =
    fleet-Chain 0 (fleet_request FleetRequestStatus.submitted) refl
      (call (call begin (set FleetRequestStatus.under_review)) (set FleetRequestStatus.quoted))

-- A financing request, and a bank.
abbrev financed : World
financed = record shop {
  financing_requests = stored (financing_request ∷ []);
  banks = stored (bank ∷ []);
}

abbrev send_to_bank : FinancingCall
send_to_bank = assign 0 (record { bank_id = 0; review_notes = none }) 7 context

abbrev approve : FinancingCall
approve =
    answer 0 (record { status = OutcomeStatus.bank_approved; review_notes = some "ok" }) 7 context

abbrev at_the_bank : World
at_the_bank = run_financing_call send_to_bank financed

abbrev answered : World
answered = run_financing_call approve at_the_bank

financing-IsSound_example : EveryRow IsSound answered.financing_requests
financing-IsSound_example =
    financing-IsSound (one_row IsSound financing_request (refl, refl))
      (call (call begin send_to_bank) approve)

financing-Reaches_example :
    (r : FinancingRequest) × (memory.find_unique answered.financing_requests 0 ≡ some r)
    × Reaches financing_request r
financing-Reaches_example =
    financing-Reaches 0 financing_request refl (call (call begin send_to_bank) approve)
