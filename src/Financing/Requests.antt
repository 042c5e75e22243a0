-- ===== src/Financing/Requests.antt =====
-- src/modules/financing/financing.service.ts: `submitRequest`, `createBank`, `toBuyerResponse`.
use uza_mobility_bn.Base.{
  ℕ, Bool, true, false, Option, none, some, String, [], ◌∷◌, not, ◌==◌, ◌&&◌, is_some,
}
use uza_mobility_bn.Base.Text.{◌<>◌}
use uza_mobility_bn.Js.{Js}
use uza_mobility_bn.Db.{Prisma}
use uza_mobility_bn.Schema.Requests.{FinancingStatus, NotificationType}
use uza_mobility_bn.Schema.Rows.{Json}
use uza_mobility_bn.Schema.RequestRows.{FinancingRequest, Bank}
use uza_mobility_bn.Schema.World.{World}
use uza_mobility_bn.Api.{
  Action, bad_request, not_found, forbidden, internal, ◌>>=◌, ◌>>◌, pure, gets, modify, throw_if,
  require,
}
use uza_mobility_bn.Platform.Notifications.{Message, send_to_role_names}
use uza_mobility_bn.Platform.Audit.{RequestAuditContext, record_activity}
use uza_mobility_bn.Listings.Moderation.{kept_listing}

pub record CreateBankDto : Type 0 where
  pub name : String
  pub country : String
  pub contact_email : Option String
  pub contact_phone : Option String

abbrev pub new_bank : CreateBankDto → Bank
new_bank dto = record {
  name = dto.name;
  country = dto.country;
  contact_email = dto.contact_email;
  contact_phone = dto.contact_phone;
  is_active = true;
}

-- The message with every answer to a buyer.
abbrev pub financing_disclaimer : String
financing_disclaimer =
    "Financing support available upon request. Uza Mobility facilitates document preparation; lending decisions are made by partner institutions."

module _ ⦃N : Js⦄ where
  open N use {Num}

  pub record CreateFinancingRequestDto : Type 0 where
    pub buyer_name : String
    pub phone : String
    pub buyer_type : Option String
    pub invoice_id : Option ℕ
    pub listing_id : Option ℕ
    pub preferred_deposit_usd : Option Num
    pub preferred_bank_name : Option String
    pub employment_status : Option String
    pub organization_name : Option String
    pub notes : Option String

  unfoldable pub new_financing_request : ℕ → CreateFinancingRequestDto → FinancingRequest
  new_financing_request user_id dto = record {
    user_id = user_id;
    invoice_id = dto.invoice_id;
    listing_id = dto.listing_id;
    status = FinancingStatus.submitted;
    buyer_name = dto.buyer_name;
    phone = dto.phone;
    buyer_type = dto.buyer_type;
    employment_status = dto.employment_status;
    organization_name = dto.organization_name;
    preferred_deposit_usd = dto.preferred_deposit_usd;
    preferred_bank_name = dto.preferred_bank_name;
    notes = dto.notes;
    assigned_bank_id = none;
    review_notes = none;
  }

  -- A key that is taken away is `none`.
  unfoldable pub to_buyer_response : FinancingRequest → FinancingRequest × String
  to_buyer_response request = (record request { review_notes = none }, financing_disclaimer)

  financing_requested : ℕ → String → Message
  financing_requested request_id buyer_name = record {
    kind = NotificationType.system_alert;
    title = "New financing support request";
    body = buyer_name <> " requested financing facilitation support.";
    metadata = ("requestId", Json.id request_id) ∷ [];
  }

  abbrev pub is_for_invoice : ℕ → ℕ → FinancingRequest → Bool
  is_for_invoice invoice_id _ r = elim r.invoice_id [ none ↦ false | some id ↦ id == invoice_id ]

  module _ ⦃P : Prisma⦄ where
    open P use {find_unique, find_first, insert, new_id}

    -- `if (dto.invoiceId) …`
    unfoldable pub check_own_invoice : ℕ → Option ℕ → Action World (Unit {0})
    check_own_invoice user_id none = pure tt
    check_own_invoice user_id (some invoice_id) = do
      found ← gets (λ w. find_unique w.invoices invoice_id)
      invoice ← require found (not_found "Invoice not found")
      throw_if (not (invoice.user_id == user_id)) (forbidden "Invoice does not belong to this user")

    -- `if (dto.listingId) …`
    unfoldable pub check_listing : Option ℕ → Action World (Unit {0})
    check_listing none = pure tt
    check_listing (some listing_id) = do
      found ← gets (λ w. kept_listing listing_id w)
      _ ← require found (not_found "Listing not found")
      pure tt

    -- The unique index on the invoice, which the data base checks.
    unfoldable pub check_unique_invoice : Option ℕ → Action World (Unit {0})
    check_unique_invoice none = pure tt
    check_unique_invoice (some invoice_id) = do
      other ← gets (λ w. find_first w.financing_requests (is_for_invoice invoice_id))
      throw_if (is_some other) (internal "the unique index of the invoice")

    unfoldable pub submit_financing_request :
        ℕ
        → CreateFinancingRequestDto
        → RequestAuditContext
        → Action World (ℕ × (FinancingRequest × String))
    unfolding check_own_invoice check_listing check_unique_invoice financing_requested
        send_to_role_names record_activity
    submit_financing_request user_id dto ctx = do
      throw_if (not (is_some dto.invoice_id) && not (is_some dto.listing_id))
          (bad_request "Provide invoiceId or listingId for financing support")
      check_own_invoice user_id dto.invoice_id
      check_listing dto.listing_id
      check_unique_invoice dto.invoice_id
      request_id ← gets (λ w. new_id w.financing_requests)
      modify (λ w. record w {
        financing_requests = insert w.financing_requests (new_financing_request user_id dto);
      })
      send_to_role_names ("FINANCE_ADMIN" ∷ "SUPER_ADMIN" ∷ [])
          (financing_requested request_id dto.buyer_name)
      record_activity user_id "financing:submitted" "FinancingRequest" none ctx
          (some (("requestId", Json.id request_id) ∷ ("email", Json.nullable ctx.actor_email) ∷ []))
      pure (request_id, to_buyer_response (new_financing_request user_id dto))

    unfoldable pub create_bank : CreateBankDto → ℕ → RequestAuditContext → Action World (ℕ × Bank)
    unfolding record_activity
    create_bank dto admin ctx = do
      bank_id ← gets (λ w. new_id w.banks)
      modify (λ w. record w { banks = insert w.banks (new_bank dto) })
      record_activity admin "banks:created" "Bank" none ctx
          (some (("bankId", Json.id bank_id) ∷ ("name", Json.text dto.name) ∷ []))
      pure (bank_id, new_bank dto)
