-- ===== src/Financing/Review.antt =====
-- src/modules/financing/financing.service.ts: `assignBank`, `recordOutcome`.
use uza_mobility_bn.Base.{ℕ, Option, none, some, String, [], ◌∷◌, not, ◌||◌, if◌then◌else◌}
use uza_mobility_bn.Base.Text.{◌<>◌, ◌===◌, name_of}
use uza_mobility_bn.Js.{Js}
use uza_mobility_bn.Db.{Prisma}
use uza_mobility_bn.Schema.Requests.{FinancingStatus, financing_status_enum, NotificationType}
use uza_mobility_bn.Schema.Rows.{Json}
use uza_mobility_bn.Schema.RequestRows.{FinancingRequest, Bank}
use uza_mobility_bn.Schema.World.{World}
use uza_mobility_bn.Api.{
  Action, bad_request, not_found, ◌>>=◌, ◌>>◌, pure, gets, modify, throw_if, require,
}
use uza_mobility_bn.Platform.Notifications.{Message, send}
use uza_mobility_bn.Platform.Audit.{RequestAuditContext, record_activity}

pub record AssignBankDto : Type 0 where
  pub bank_id : ℕ
  pub review_notes : Option String

-- `OUTCOME_STATUSES`, the statuses that the validation of the call lets through.
pub data OutcomeStatus : Type 0 where
  bank_approved bank_rejected : OutcomeStatus

abbrev pub outcome_status : OutcomeStatus → FinancingStatus
outcome_status OutcomeStatus.bank_approved = FinancingStatus.bank_approved
outcome_status OutcomeStatus.bank_rejected = FinancingStatus.bank_rejected

pub record RecordFinancingOutcomeDto : Type 0 where
  pub status : OutcomeStatus
  pub review_notes : Option String

-- `dto.reviewNotes ?? request.reviewNotes`
abbrev pub or_else : Option String → Option String → Option String
or_else none old = old
or_else (some notes) old = some notes

module _ ⦃N : Js⦄ where
  unfoldable pub sent_to_bank_with :
      AssignBankDto → Option String → FinancingRequest → FinancingRequest
  sent_to_bank_with dto old_notes request = record request {
    assigned_bank_id = some dto.bank_id;
    status = FinancingStatus.sent_to_bank;
    review_notes = or_else dto.review_notes old_notes;
  }

  unfoldable pub with_outcome :
      RecordFinancingOutcomeDto → Option String → FinancingRequest → FinancingRequest
  with_outcome dto old_notes request = record request {
    status = outcome_status dto.status;
    review_notes = or_else dto.review_notes old_notes;
  }

  -- What `notifyBuyer` sends.
  financing_message : String → String → ℕ → FinancingStatus → Message
  financing_message title body request_id status = record {
    kind = NotificationType.financing_update;
    title = title;
    body = body;
    metadata = ("requestId", Json.id request_id) ∷ ("status", Json.text (name_of status)) ∷ [];
  }

  outcome_message : ℕ → OutcomeStatus → Message
  unfolding financing_message
  outcome_message request_id OutcomeStatus.bank_approved =
      financing_message "Financing support — bank approved"
        "A partner institution has indicated approval in principle. Uza Mobility does not provide financing directly; final terms are set by the bank."
        request_id FinancingStatus.bank_approved
  outcome_message request_id OutcomeStatus.bank_rejected =
      financing_message "Financing support — bank declined"
        "A partner institution did not approve this request. You may submit a new request for another institution if you wish."
        request_id FinancingStatus.bank_rejected

  outcome_action : OutcomeStatus → String
  outcome_action OutcomeStatus.bank_approved = "financing:bank-approved"
  outcome_action OutcomeStatus.bank_rejected = "financing:bank-rejected"

  module _ ⦃P : Prisma⦄ where
    open P use {find_unique, update}

    abbrev pub get_request_or_throw : ℕ → Action World FinancingRequest
    get_request_or_throw request_id = do
      found ← gets (λ w. find_unique w.financing_requests request_id)
      require found (not_found "Financing request not found")

    -- `bank.findFirst({ where: { id, isActive: true } })`
    abbrev pub active_bank : ℕ → World → Option Bank
    active_bank bank_id w = elim (find_unique w.banks bank_id) [
      | none ↦ none
      | some bank ↦ if bank.is_active then some bank else none
    ]

    unfoldable pub assign_bank :
        ℕ → AssignBankDto → ℕ → RequestAuditContext → Action World FinancingRequest
    unfolding sent_to_bank_with financing_message send record_activity
    assign_bank request_id dto admin ctx = do
      request ← get_request_or_throw request_id
      throw_if
          (not (
            request.status === FinancingStatus.submitted
            || request.status === FinancingStatus.under_review))
          (bad_request ("Cannot assign bank when status is " <> name_of request.status))
      bank ← gets (λ w. active_bank dto.bank_id w)
      _ ← require bank (not_found "Bank partner not found")
      modify (λ w. record w {
        financing_requests =
            update w.financing_requests request_id (sent_to_bank_with dto request.review_notes);
      })
      send request.user_id (
          financing_message "Financing request forwarded"
            "Your financing support request has been forwarded to a partner institution for review."
            request_id FinancingStatus.sent_to_bank)
      record_activity admin "financing:sent-to-bank" "FinancingRequest" none ctx (
          some (
            ("requestId", Json.id request_id)
            ∷ ("bankId", Json.id dto.bank_id)
            ∷ ("email", Json.nullable ctx.actor_email)
            ∷ []))
      pure (sent_to_bank_with dto request.review_notes request)

    unfoldable pub record_outcome :
        ℕ → RecordFinancingOutcomeDto → ℕ → RequestAuditContext → Action World FinancingRequest
    unfolding with_outcome outcome_message outcome_action send record_activity
    record_outcome request_id dto admin ctx = do
      request ← get_request_or_throw request_id
      throw_if (not (request.status === FinancingStatus.sent_to_bank))
          (bad_request "Outcome can only be recorded after request was sent to bank")
      modify (λ w. record w {
        financing_requests =
            update w.financing_requests request_id (with_outcome dto request.review_notes);
      })
      send request.user_id (outcome_message request_id dto.status)
      record_activity admin (outcome_action dto.status) "FinancingRequest" none ctx
          (some (("requestId", Json.id request_id) ∷ ("email", Json.nullable ctx.actor_email) ∷ []))
      pure (with_outcome dto request.review_notes request)
