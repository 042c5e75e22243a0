-- ===== src/Invoices/Request.antt =====
-- src/modules/invoices/invoices.service.ts, `requestInvoice`. The PDF and the e-mail that follow the
-- creation are taken to succeed.
pub mod Outcome
use uza_mobility_bn.Base.{
  ℕ, Bool, true, false, Option, none, some, String, [], ◌∷◌, ◌==◌, ◌&&◌, ◌||◌, not, get_or, is_some,
  if◌then◌else◌,
}
use uza_mobility_bn.Base.Text.{◌<>◌, ◌===◌, includes}
use uza_mobility_bn.Js.{Js}
use uza_mobility_bn.Db.{Prisma}
use uza_mobility_bn.Schema.Catalog.{ListingStatus, listing_status_enum}
use uza_mobility_bn.Schema.Commerce.{InvoiceType, InvoiceStatus, invoice_status_enum}
use uza_mobility_bn.Schema.Requests.{NotificationType}
use uza_mobility_bn.Schema.Rows.{
  User, BuyerProfile, Listing, ListingPricing, Invoice, BuyerSnapshot, VehicleSnapshot, Json,
}
use uza_mobility_bn.Schema.World.{World}
use uza_mobility_bn.Api.{
  Action, bad_request, not_found, forbidden, ◌>>=◌, ◌>>◌, pure, gets, modify, throw_if, require,
}
use uza_mobility_bn.Platform.Reference.{generate_reference_number, uzm_inv, uzm_pay}
use uza_mobility_bn.Platform.Settings.{
  CompanyPaymentDetails, get_frozen_rate, get_company_payment_details,
}
use uza_mobility_bn.Platform.Notifications.{Message, send}
use uza_mobility_bn.Platform.Audit.{RequestAuditContext, record_activity}
use uza_mobility_bn.Invoices.Statuses.{active_invoice_statuses, invoice_validity_days, add_days}
use uza_mobility_bn.Invoices.Snapshot.{snapshot_pricing_fields, with_payment_accounts_fallback}

pub record RequestInvoiceDto : Type 0 where
  pub listing_id : ℕ
  pub invoice_type : Option InvoiceType
  pub buyer_address : Option String
  pub notes : Option String

-- `listing.deliveryEstimateDays ? ... : undefined`, where zero counts as false
delivery_estimate_of : (ℕ → String) → Option ℕ → Option String
delivery_estimate_of show none = none
delivery_estimate_of show (some days) = if days == 0 then none else some (show days <> " days")

module _ ⦃N : Js⦄ where
  open N use {Num, trim, to_text}

  abbrev buyer_snapshot : User → BuyerProfile → Option String → BuyerSnapshot
  buyer_snapshot user profile address = record {
    buyer_name = trim (user.first_name <> " " <> user.last_name);
    buyer_email = some user.email;
    buyer_phone = user.phone;
    buyer_address = address;
    buyer_type = some profile.buyer_type;
  }

  abbrev vehicle_snapshot : Listing → VehicleSnapshot
  vehicle_snapshot listing = record {
    vehicle_brand = some listing.brand;
    vehicle_model = some listing.model;
    vehicle_trim = listing.trim;
    vehicle_year = some listing.manufacturing_year;
    vehicle_condition = some listing.condition;
    vehicle_location = listing.vehicle_location;
    seller_type = some listing.seller_type;
    verification_level = some listing.verification_level;
  }

  module _ ⦃P : Prisma⦄ where
    open P use {find_unique, find_first, new_id, insert}

    -- `listing.findFirst({ where: { id, status: PUBLISHED, deletedAt: null } })`
    abbrev pub published_listing : ℕ → World → Option Listing
    published_listing listing_id w = elim (find_unique w.listings listing_id) [
      | none ↦ none
      | some listing ↦
          if listing.status === ListingStatus.published && not (is_some listing.deleted_at)
          then some listing
          else none
    ]

    abbrev same_listing : Option ℕ → ℕ → Bool
    same_listing none listing_id = false
    same_listing (some id) listing_id = id == listing_id

    -- The buyer's invoices for the listing that still hold it.
    abbrev pub is_active_for : ℕ → ℕ → ℕ → Invoice → Bool
    is_active_for user_id listing_id _ invoice =
        same_listing invoice.listing_id listing_id
        && invoice.user_id == user_id
        && includes active_invoice_statuses invoice.status

    abbrev pub account_open : Option User → Bool
    account_open none = false
    account_open (some user) = user.is_active && not (is_some user.deleted_at)

    -- The row that the call creates, as it finds the data base.
    unfoldable pub requested_invoice :
        ℕ → RequestInvoiceDto → User → BuyerProfile → Listing → ListingPricing → World → Invoice
    unfolding delivery_estimate_of snapshot_pricing_fields get_frozen_rate
    requested_invoice user_id dto user profile listing pricing w =
        let company = get_company_payment_details w in
        record {
          invoice_number = generate_reference_number w uzm_inv;
          payment_reference = generate_reference_number w uzm_pay;
          user_id = user_id;
          listing_id = some dto.listing_id;
          invoice_type = get_or dto.invoice_type InvoiceType.proforma;
          status = InvoiceStatus.sent;
          buyer = buyer_snapshot user profile dto.buyer_address;
          vehicle = vehicle_snapshot listing;
          price = snapshot_pricing_fields pricing (get_frozen_rate w);
          beneficiary_name = some company.legal_name;
          bank_name = none;
          account_number = none;
          rwf_bank_name = some company.rwf.bank_name;
          rwf_account_number = some company.rwf.account_number;
          exchange_rate_used = some (get_frozen_rate w);
          payment_deadline = some (add_days w.now invoice_validity_days);
          valid_until = some (add_days w.now invoice_validity_days);
          issued_at = some w.now;
          delivery_estimate = delivery_estimate_of to_text listing.delivery_estimate_days;
          notes = dto.notes;
        }

    invoice_ready : Invoice → ℕ → ℕ → Message
    invoice_ready invoice invoice_id listing_id = record {
      kind = NotificationType.invoice_issued;
      title = "Your invoice is ready";
      body =
          "Invoice " <> invoice.invoice_number <> " has been issued. Payment reference: "
          <> invoice.payment_reference <> ". Your purchase details PDF is attached.";
      metadata = ("invoiceId", Json.id invoice_id) ∷ ("listingId", Json.id listing_id) ∷ [];
    }

    -- Returns the new invoice with its id.
    unfoldable pub request_invoice :
        ℕ → RequestInvoiceDto → RequestAuditContext → Action World (ℕ × Invoice)
    unfolding invoice_ready send record_activity with_payment_accounts_fallback
    request_invoice user_id dto ctx = do
      found_user ← gets (λ w. find_unique w.users user_id)
      found_listing ← gets (λ w. published_listing dto.listing_id w)
      found_pricing ← gets (λ w. find_unique w.listing_pricing dto.listing_id)
      throw_if (not (account_open found_user)) (forbidden "Account is not active")
      user ← require found_user (forbidden "Account is not active")
      profile ←
          require user.buyer_profile
            (bad_request "Complete your buyer profile before requesting an invoice")
      listing ← require found_listing (not_found "Published listing not found")
      pricing ← require found_pricing (bad_request "Listing has no pricing — cannot issue invoice")
      active ← gets (λ w. find_first w.invoices (is_active_for user_id dto.listing_id))
      throw_if (is_some active) (
          bad_request
            "You already have an active invoice for this vehicle. Complete or cancel it before requesting another.")
      invoice ← gets (requested_invoice user_id dto user profile listing pricing)
      invoice_id ← gets (λ w. new_id w.invoices)
      company ← gets (λ w. get_company_payment_details w)
      modify (λ w. record w { invoices = insert w.invoices invoice })
      send user_id (invoice_ready invoice invoice_id dto.listing_id)
      record_activity user_id "invoices:requested" "Invoice" none ctx (
          some (
            ("email", Json.nullable ctx.actor_email)
            ∷ ("invoiceNumber", Json.text invoice.invoice_number)
            ∷ ("listingId", Json.id dto.listing_id)
            ∷ []))
      pure (invoice_id, with_payment_accounts_fallback invoice company)
