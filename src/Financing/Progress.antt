-- ===== src/Financing/Progress.antt =====
-- The requests for financing through every history of calls, against their life cycle.
use uza_mobility_bn.Base.{
  ℕ, ◌≡◌, refl, Option, none, some, arith, inl, inr, Option-cases, Bool-cases, is_some, ◌||◌, ◌==◌,
}
use uza_mobility_bn.Base.Text.{◌===◌}
use uza_mobility_bn.Base.Chains.{stop}
use uza_mobility_bn.Js.{Js}
use uza_mobility_bn.Db.{Prisma, PrismaLaws}
use uza_mobility_bn.Db.Histories.{
  TableStep, kept, added, moved, EveryRow, History, History-EveryRow, History-row,
}
use uza_mobility_bn.Schema.Requests.{FinancingStatus, financing_status_enum}
use uza_mobility_bn.Schema.RequestRows.{FinancingRequest}
use uza_mobility_bn.Schema.World.{World}
use uza_mobility_bn.Api.{not_found, forbidden, internal}
use uza_mobility_bn.Api.Reads.{Reads}
use uza_mobility_bn.Platform.Audit.{RequestAuditContext}
use uza_mobility_bn.Listings.Moderation.{kept_listing}
use uza_mobility_bn.Financing.Requests.{
  CreateFinancingRequestDto, CreateBankDto, new_financing_request, is_for_invoice,
  submit_financing_request, create_bank, check_own_invoice, check_listing, check_unique_invoice,
}
use uza_mobility_bn.Financing.Review.{
  AssignBankDto, RecordFinancingOutcomeDto, sent_to_bank_with, with_outcome, active_bank,
  assign_bank, record_outcome,
}
use uza_mobility_bn.Financing.LifeCycle.{
  IsSound, Reaches, Reviewed, assigned, answered, reviewed-IsSound, reach,
}

module _ ⦃N : Js⦄ where
  module _ ⦃P : Prisma⦄ where
    open P use {find_unique, find_first}

    pub data FinancingCall : Type 0 where
      submit : ℕ → CreateFinancingRequestDto → RequestAuditContext → FinancingCall
      assign : ℕ → AssignBankDto → ℕ → RequestAuditContext → FinancingCall
      answer : ℕ → RecordFinancingOutcomeDto → ℕ → RequestAuditContext → FinancingCall
      add_bank : CreateBankDto → ℕ → RequestAuditContext → FinancingCall

    unfoldable pub run_financing_call : FinancingCall → World → World
    run_financing_call (submit user dto ctx) w = (submit_financing_request user dto ctx w).1
    run_financing_call (assign id dto admin ctx) w = (assign_bank id dto admin ctx w).1
    run_financing_call (answer id dto admin ctx) w = (record_outcome id dto admin ctx w).1
    run_financing_call (add_bank dto admin ctx) w = (create_bank dto admin ctx w).1

    -- A new request is sound and not with a bank.
    abbrev IsNew : FinancingRequest → Type 0
    IsNew r = IsSound r

    abbrev Steps : (World → World) → World → Type 0
    Steps act w = TableStep IsNew Reviewed w.financing_requests (act w).financing_requests

    check_own_invoice-Reads :
        (user : ℕ) (invoice : Option ℕ) (w : World) → Reads (check_own_invoice user invoice) w
    unfolding check_own_invoice
    check_own_invoice-Reads user none w = inr (tt, refl)
    check_own_invoice-Reads user (some id) w = elim (Option-cases (find_unique w.invoices id)) [
      | inl n ↦ inl (not_found "Invoice not found", ground (arith, n))
      | inr (invoice, f) ↦ elim (Bool-cases (invoice.user_id == user)) [
        | inl o ↦ inr (tt, ground (arith, f, o))
        | inr o ↦ inl (forbidden "Invoice does not belong to this user", ground (arith, f, o))
      ]
    ]

    check_listing-Reads : (listing : Option ℕ) (w : World) → Reads (check_listing listing) w
    unfolding check_listing
    check_listing-Reads none w = inr (tt, refl)
    check_listing-Reads (some id) w = elim (Option-cases (kept_listing id w)) [
      | inl n ↦ inl (not_found "Listing not found", ground (arith, n))
      | inr (listing, f) ↦ inr (tt, ground (arith, f))
    ]

    check_unique_invoice-Reads :
        (invoice : Option ℕ) (w : World) → Reads (check_unique_invoice invoice) w
    unfolding check_unique_invoice
    check_unique_invoice-Reads none w = inr (tt, refl)
    check_unique_invoice-Reads (some id) w =
        elim (Option-cases (find_first w.financing_requests (is_for_invoice id))) [
          | inl n ↦ inr (tt, ground (arith, n))
          | inr (other, f) ↦ inl (internal "the unique index of the invoice", ground (arith, f))
        ]

    submit-Steps :
        (user : ℕ) (dto : CreateFinancingRequestDto) (ctx : RequestAuditContext) (w : World)
        → Steps (λ x. (submit_financing_request user dto ctx x).1) w
    unfolding submit_financing_request new_financing_request
    submit-Steps user dto ctx w =
        elim (Bool-cases (is_some dto.invoice_id || is_some dto.listing_id)) [
          | inr n ↦ kept (ground arith)
          | inl about ↦ elim (check_own_invoice-Reads user dto.invoice_id w) [
            | inl (x, c) ↦ kept (ground (arith, c))
            | inr (_, c) ↦ elim (check_listing-Reads dto.listing_id w) [
              | inl (x, l) ↦ kept (ground (arith, c, l))
              | inr (_, l) ↦ elim (check_unique_invoice-Reads dto.invoice_id w) [
                | inl (x, u) ↦ kept (ground (arith, c, l, u))
                | inr (_, u) ↦
                    added (new_financing_request user dto) (about, refl) (ground (arith, c, l, u))
              ]
            ]
          ]
        ]

    assign-Steps :
        (id : ℕ) (dto : AssignBankDto) (admin : ℕ) (ctx : RequestAuditContext) (w : World)
        → Steps (λ x. (assign_bank id dto admin ctx x).1) w
    unfolding assign_bank
    assign-Steps id dto admin ctx w = elim (Option-cases (find_unique w.financing_requests id)) [
      | inl n ↦ kept (ground arith)
      | inr (request, found) ↦
          elim (Bool-cases (
            request.status === FinancingStatus.submitted
            || request.status === FinancingStatus.under_review)) [
              | inr c ↦ kept (ground arith)
              | inl c ↦ elim (Option-cases (active_bank dto.bank_id w)) [
                | inl b ↦ kept (ground arith)
                | inr (bank, b) ↦
                    moved id request (sent_to_bank_with dto request.review_notes) found
                      (assigned request dto c) (ground arith)
              ]
            ]
    ]

    answer-Steps :
        (id : ℕ) (dto : RecordFinancingOutcomeDto) (admin : ℕ) (ctx : RequestAuditContext)
        (w : World)
        → Steps (λ x. (record_outcome id dto admin ctx x).1) w
    unfolding record_outcome
    answer-Steps id dto admin ctx w = elim (Option-cases (find_unique w.financing_requests id)) [
      | inl n ↦ kept (ground arith)
      | inr (request, found) ↦ elim (Bool-cases (request.status === FinancingStatus.sent_to_bank)) [
        | inr c ↦ kept (ground arith)
        | inl c ↦
            moved id request (with_outcome dto request.review_notes) found (answered request dto c)
              (ground arith)
      ]
    ]

    financing-Steps : (c : FinancingCall) (w : World) → Steps (run_financing_call c) w
    unfolding run_financing_call create_bank
    financing-Steps (submit user dto ctx) w = submit-Steps user dto ctx w
    financing-Steps (assign id dto admin ctx) w = assign-Steps id dto admin ctx w
    financing-Steps (answer id dto admin ctx) w = answer-Steps id dto admin ctx w
    financing-Steps (add_bank dto admin ctx) w = kept (ground arith)

    module _ ⦃L : PrismaLaws⦄ where
      -- Through every history of submissions, assignments of a bank, outcomes and new banks, in any
      -- order, with anything between them that leaves the requests alone: where every request at the
      -- start is about an invoice or a listing and has a bank exactly if it was sent to one, every
      -- request is and has.
      pub financing-IsSound :
          {start w : World}
          → EveryRow IsSound start.financing_requests
          → History run_financing_call (λ x. x.financing_requests) start w
          → EveryRow IsSound w.financing_requests
      financing-IsSound every h =
          History-EveryRow financing-Steps (λ r f. f) reviewed-IsSound every h

      -- Through every such history a request stays in the table, its status is reached by the life
      -- cycle in which a bank is assigned once and answers once, and a request that is with a bank, or
      -- answered, keeps that bank.
      pub financing-Reaches :
          {start w : World} (j : ℕ) (r : FinancingRequest)
          → find_unique start.financing_requests j ≡ some r
          → History run_financing_call (λ x. x.financing_requests) start w
          → (r' : FinancingRequest) × (find_unique w.financing_requests j ≡ some r') × Reaches r r'
      financing-Reaches j r found h =
          History-row financing-Steps {Reaches = Reaches} (λ a. (stop a.status, inl refl)) reach j r
            found h
