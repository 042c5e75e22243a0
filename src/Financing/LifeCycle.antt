-- ===== src/Financing/LifeCycle.antt =====
-- The life cycle that requests for financing promise, and the writes of the reviewers on it.
use uza_mobility_bn.Base.{◌≡◌, refl, Bool, true, false, arith, inr, ◌⊎◌, is_some, ◌||◌}
use uza_mobility_bn.Base.Text.{◌===◌}
use uza_mobility_bn.Base.Chains.{Chain, stop, step}
use uza_mobility_bn.Js.{Js}
use uza_mobility_bn.Schema.Requests.{FinancingStatus, financing_status_enum}
use uza_mobility_bn.Schema.RequestRows.{FinancingRequest}
use uza_mobility_bn.Financing.Review.{
  AssignBankDto, RecordFinancingOutcomeDto, OutcomeStatus, outcome_status, sent_to_bank_with,
  with_outcome,
}

-- The life cycle: a bank is assigned once, and it answers once.
abbrev pub financing_may : FinancingStatus → FinancingStatus → Bool
financing_may FinancingStatus.submitted to = to === FinancingStatus.sent_to_bank
financing_may FinancingStatus.under_review to = to === FinancingStatus.sent_to_bank
financing_may FinancingStatus.sent_to_bank to =
    to === FinancingStatus.bank_approved || to === FinancingStatus.bank_rejected
financing_may _ _ = false

module _ ⦃N : Js⦄ where
  abbrev pub at_bank : FinancingStatus → Bool
  at_bank s =
      s === FinancingStatus.sent_to_bank
      || s === FinancingStatus.bank_approved
      || s === FinancingStatus.bank_rejected

  -- A request is about an invoice or a listing, and has a bank exactly if it was sent to one.
  abbrev pub IsSound : FinancingRequest → Type 0
  IsSound r =
      ((is_some r.invoice_id || is_some r.listing_id) ≡ true)
      × (is_some r.assigned_bank_id ≡ at_bank r.status)

  -- Once a request is with a bank, it stays with that bank.
  abbrev pub Reaches : FinancingRequest → FinancingRequest → Type 0
  Reaches a b =
      Chain financing_may a.status b.status
      × ((a.assigned_bank_id ≡ b.assigned_bank_id) ⊎ (at_bank a.status ≡ false))

  outcome_at_bank :
      (a : FinancingRequest) (s : OutcomeStatus)
      → (a.status === FinancingStatus.sent_to_bank) ≡ true
      → is_some a.assigned_bank_id ≡ at_bank a.status
      → is_some a.assigned_bank_id ≡ at_bank (outcome_status s)
  outcome_at_bank a OutcomeStatus.bank_approved sent bank = ground (arith, sent, bank)
  outcome_at_bank a OutcomeStatus.bank_rejected sent bank = ground (arith, sent, bank)

  may_answer :
      (s : FinancingStatus) (o : OutcomeStatus)
      → (s === FinancingStatus.sent_to_bank) ≡ true
      → financing_may s (outcome_status o) ≡ true
  may_answer s OutcomeStatus.bank_approved sent = ground (arith, sent)
  may_answer s OutcomeStatus.bank_rejected sent = ground (arith, sent)

  may_send :
      (s : FinancingStatus)
      → (s === FinancingStatus.submitted || s === FinancingStatus.under_review) ≡ true
      → financing_may s FinancingStatus.sent_to_bank ≡ true
  may_send s unsent = ground (arith, unsent)

  stays_outside :
      (s t : FinancingStatus) → financing_may s t ≡ true → at_bank t ≡ false → at_bank s ≡ false
  stays_outside s t may outside = ground (arith, may, outside)

  -- A chain that ends outside the banks began there.
  from_outside :
      {s t : FinancingStatus} → Chain financing_may s t → at_bank t ≡ false → at_bank s ≡ false
  from_outside (stop _) outside = outside
  from_outside (step {t} {u} path may) outside = from_outside path (stays_outside t u may outside)

  -- The writes of the two administrative calls.
  pub data Reviewed : FinancingRequest → FinancingRequest → Type 0 where
    assigned :
        (a : FinancingRequest) (dto : AssignBankDto)
        → (a.status === FinancingStatus.submitted || a.status === FinancingStatus.under_review)
          ≡ true
        → Reviewed a (sent_to_bank_with dto a.review_notes a)
    answered :
        (a : FinancingRequest) (dto : RecordFinancingOutcomeDto)
        → (a.status === FinancingStatus.sent_to_bank) ≡ true
        → Reviewed a (with_outcome dto a.review_notes a)

  pub reviewed-IsSound : (a b : FinancingRequest) → Reviewed a b → IsSound a → IsSound b
  unfolding sent_to_bank_with with_outcome
  reviewed-IsSound _ _ (assigned a dto unsent) (about, bank) = (about, refl)
  reviewed-IsSound _ _ (answered a dto sent) (about, bank) =
      (about, outcome_at_bank a dto.status sent bank)

  pub reach : (a b c : FinancingRequest) → Reaches a b → Reviewed b c → Reaches a c
  unfolding sent_to_bank_with with_outcome
  reach a _ _ (path, bank) (assigned b dto unsent) =
      (step path (may_send b.status unsent), inr (from_outside path (ground (arith, unsent))))
  reach a _ _ (path, bank) (answered b dto sent) =
      (step path (may_answer b.status dto.status sent), bank)
