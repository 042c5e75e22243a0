-- ===== src/Invoices/Snapshot.antt =====
-- src/modules/invoices/invoice.mapper.ts: the price that an invoice keeps, and the accounts it shows.
use uza_mobility_bn.Base.{some, if◌then◌else◌, coalesce, get_or}
use uza_mobility_bn.Js.{Js}
use uza_mobility_bn.Schema.Rows.{ListingPricing, Invoice, PriceSnapshot}
use uza_mobility_bn.Platform.Money.{to_display_rwf, rwf_to_usd_amount, is_rwf}
use uza_mobility_bn.Platform.Settings.{CompanyPaymentDetails}
use text.Mathlib.Text.{◌==◌ as str_eq}

module _ ⦃N : Js⦄ where
  open N use {Num, from_ℕ}

  unfoldable pub total_amount_rwf : ListingPricing → Num → Num
  unfolding to_display_rwf
  total_amount_rwf pricing frozen_rate =
      get_or
        (to_display_rwf (record {
          currency = some pricing.currency;
          amount_rwf = coalesce pricing.final_price_rwf pricing.display_price_rwf;
          amount_usd = some pricing.final_price_usd;
          frozen_rate = some frozen_rate;
        }))
        (from_ℕ 0)

  unfoldable pub snapshot_pricing_fields : ListingPricing → Num → PriceSnapshot
  unfolding total_amount_rwf rwf_to_usd_amount
  snapshot_pricing_fields pricing frozen_rate =
      let total_rwf = total_amount_rwf pricing frozen_rate in
      record {
        base_price_usd = pricing.base_price_usd;
        fob_price_usd = pricing.fob_price_usd;
        shipping_cost_usd = pricing.shipping_cost_usd;
        local_charges_usd = pricing.local_charges_usd;
        taxes_usd = pricing.taxes_estimate_usd;
        insurance_usd = pricing.insurance_usd;
        clearing_fee_usd = pricing.clearing_fee_usd;
        landing_cost_usd = pricing.landing_cost_usd;
        margin_usd = pricing.margin_usd;
        rule_discount_usd = pricing.rule_discount_usd;
        discount_usd = pricing.discount_usd;
        total_amount_usd =
            if is_rwf (some pricing.currency)
            then rwf_to_usd_amount total_rwf frozen_rate
            else pricing.final_price_usd;
        total_amount_rwf = some total_rwf;
        currency = "RWF";
      }

  -- Fills the accounts that an older invoice lacks from the company's.
  unfoldable pub with_payment_accounts_fallback : Invoice → CompanyPaymentDetails → Invoice
  with_payment_accounts_fallback invoice company =
      if str_eq invoice.price.currency "USD"
      then record invoice {
        beneficiary_name = coalesce invoice.beneficiary_name (some company.legal_name);
        bank_name = coalesce invoice.bank_name (some company.usd.bank_name);
        account_number = coalesce invoice.account_number (some company.usd.account_number);
        rwf_bank_name = coalesce invoice.rwf_bank_name (some company.rwf.bank_name);
        rwf_account_number = coalesce invoice.rwf_account_number (some company.rwf.account_number);
      }
      else record invoice {
        beneficiary_name = coalesce invoice.beneficiary_name (some company.legal_name);
        rwf_bank_name = coalesce invoice.rwf_bank_name (some company.rwf.bank_name);
        rwf_account_number = coalesce invoice.rwf_account_number (some company.rwf.account_number);
      }
