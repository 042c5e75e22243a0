-- ===== src/Invoices/Fleet.antt =====
-- src/modules/invoices/invoices.service.ts, `createFleetInvoice`.
use uza_mobility_bn.Base.{ℕ, Option, none, some, String, [], ◌∷◌, not, coalesce, get_or}
use uza_mobility_bn.Base.Text.{◌<>◌}
use uza_mobility_bn.Js.{Js}
use uza_mobility_bn.Db.{Prisma}
use uza_mobility_bn.Schema.Commerce.{InvoiceType, InvoiceStatus}
use uza_mobility_bn.Schema.Requests.{NotificationType}
use uza_mobility_bn.Schema.Rows.{User, Invoice, Json}
use uza_mobility_bn.Schema.World.{World}
use uza_mobility_bn.Api.{
  Action, bad_request, not_found, ◌>>=◌, ◌>>◌, pure, gets, modify, throw_if, require,
}
use uza_mobility_bn.Platform.Money.{positive, rwf_to_usd_amount}
use uza_mobility_bn.Platform.Reference.{generate_reference_number, uzm_inv, uzm_pay}
use uza_mobility_bn.Platform.Settings.{get_frozen_rate, get_company_payment_details}
use uza_mobility_bn.Platform.Notifications.{Message, send}
use uza_mobility_bn.Platform.Audit.{RequestAuditContext, record_activity}
use uza_mobility_bn.Invoices.Statuses.{invoice_validity_days, add_days}
use uza_mobility_bn.Invoices.Snapshot.{with_payment_accounts_fallback}

module _ ⦃N : Js⦄ where
  open N use {Num, from_ℕ, mul, round}

  pub record CreateFleetInvoiceDto : Type 0 where
    pub user_id : ℕ
    pub listing_id : Option ℕ
    pub invoice_type : Option InvoiceType
    pub buyer_name : String
    pub buyer_email : Option String
    pub buyer_phone : Option String
    pub buyer_address : Option String
    pub vehicle_brand : Option String
    pub vehicle_model : Option String
    pub total_amount_usd : Option Num
    pub total_amount_rwf : Option Num
    pub notes : Option String

  -- `dto.totalAmountRwf ?? Math.round((dto.totalAmountUsd ?? 0) * frozenRate)`
  abbrev pub fleet_total_rwf : CreateFleetInvoiceDto → Num → Num
  fleet_total_rwf dto rate =
      get_or dto.total_amount_rwf (round (mul (get_or dto.total_amount_usd (from_ℕ 0)) rate))

  module _ ⦃P : Prisma⦄ where
    open P use {find_unique, new_id, insert}

    unfoldable pub fleet_invoice : CreateFleetInvoiceDto → User → World → Invoice
    unfolding get_frozen_rate rwf_to_usd_amount
    fleet_invoice dto user w =
        let company = get_company_payment_details w in
        let rate = get_frozen_rate w in
        record {
          invoice_number = generate_reference_number w uzm_inv;
          payment_reference = generate_reference_number w uzm_pay;
          user_id = dto.user_id;
          listing_id = dto.listing_id;
          invoice_type = get_or dto.invoice_type InvoiceType.fleet;
          status = InvoiceStatus.sent;
          buyer = record {
            buyer_name = dto.buyer_name;
            buyer_email = coalesce dto.buyer_email (some user.email);
            buyer_phone = coalesce dto.buyer_phone user.phone;
            buyer_address = dto.buyer_address;
            buyer_type = none;
          };
          vehicle = record {
            vehicle_brand = dto.vehicle_brand;
            vehicle_model = dto.vehicle_model;
            vehicle_trim = none;
            vehicle_year = none;
            vehicle_condition = none;
            vehicle_location = none;
            seller_type = none;
            verification_level = none;
          };
          price = record {
            base_price_usd = none;
            fob_price_usd = none;
            shipping_cost_usd = none;
            local_charges_usd = none;
            taxes_usd = none;
            insurance_usd = none;
            clearing_fee_usd = none;
            landing_cost_usd = none;
            margin_usd = none;
            rule_discount_usd = none;
            discount_usd = none;
            total_amount_usd =
                get_or dto.total_amount_usd (rwf_to_usd_amount (fleet_total_rwf dto rate) rate);
            total_amount_rwf = some (fleet_total_rwf dto rate);
            currency = "RWF";
          };
          beneficiary_name = some company.legal_name;
          bank_name = none;
          account_number = none;
          rwf_bank_name = some company.rwf.bank_name;
          rwf_account_number = some company.rwf.account_number;
          exchange_rate_used = some rate;
          payment_deadline = some (add_days w.now invoice_validity_days);
          valid_until = some (add_days w.now invoice_validity_days);
          issued_at = some w.now;
          delivery_estimate = none;
          notes = dto.notes;
        }

    fleet_issued : Invoice → ℕ → Message
    fleet_issued invoice invoice_id = record {
      kind = NotificationType.invoice_issued;
      title = "Fleet invoice issued";
      body = "Invoice " <> invoice.invoice_number <> " has been created for you.";
      metadata = ("invoiceId", Json.id invoice_id) ∷ [];
    }

    unfoldable pub create_fleet_invoice :
        ℕ → CreateFleetInvoiceDto → RequestAuditContext → Action World (ℕ × Invoice)
    unfolding fleet_issued send record_activity with_payment_accounts_fallback
    create_fleet_invoice admin dto ctx = do
      found ← gets (λ w. find_unique w.users dto.user_id)
      user ← require found (not_found "Buyer user not found")
      rate ← gets (λ w. get_frozen_rate w)
      throw_if (not (positive (fleet_total_rwf dto rate)))
          (bad_request "Invoice total in Rwf is required")
      invoice ← gets (fleet_invoice dto user)
      invoice_id ← gets (λ w. new_id w.invoices)
      company ← gets (λ w. get_company_payment_details w)
      modify (λ w. record w { invoices = insert w.invoices invoice })
      send dto.user_id (fleet_issued invoice invoice_id)
      record_activity admin "invoices:fleet-created" "Invoice" none ctx (
          some (
            ("email", Json.nullable ctx.actor_email)
            ∷ ("invoiceNumber", Json.text invoice.invoice_number)
            ∷ ("buyerUserId", Json.id dto.user_id)
            ∷ []))
      pure (invoice_id, with_payment_accounts_fallback invoice company)
