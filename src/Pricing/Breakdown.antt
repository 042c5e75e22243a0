-- ===== src/Pricing/Breakdown.antt =====
-- src/modules/pricing/pricing.service.ts: the price of each kind of seller, given the rule and the
-- exchange rate.
use uza_mobility_bn.Base.{ℕ, Option, none, some, String, get_or}
use uza_mobility_bn.Js.{Js}
use uza_mobility_bn.Schema.Catalog.{SellerType}
use uza_mobility_bn.Platform.Money.{rwf_to_usd_amount}
use uza_mobility_bn.Pricing.Discount.{PricingRule, Discounts, apply_rule_and_listing_discounts}

module _ ⦃N : Js⦄ where
  open N use {Num, from_ℕ, decimal, add, sub, mul, div, round}

  pub record PricingInput : Type 0 where
    pub base_price_rwf : Option Num
    pub fob_price_rwf : Option Num
    pub seller_desired_payout_rwf : Option Num
    pub discount_rwf : Option Num

  pub record PriceBreakdown : Type 0 where
    pub seller_type : SellerType
    pub base_price_rwf : Option Num
    pub fob_price_rwf : Option Num
    pub seller_desired_payout_rwf : Option Num
    pub shipping_cost_rwf : Option Num
    pub local_charges_rwf : Option Num
    pub taxes_estimate_rwf : Option Num
    pub insurance_rwf : Option Num
    pub storage_rwf : Option Num
    pub clearing_fee_rwf : Option Num
    pub landing_cost_rwf : Option Num
    pub margin_rwf : Option Num
    pub platform_margin_rate_percent : Option Num
    pub commission_rwf : Option Num
    pub rule_discount_rwf : Num
    pub rule_discount_rate_percent : Option Num
    pub discount_rwf : Num
    pub final_price_rwf : Num
    pub display_price_rwf : Num
    pub final_price_usd : Num
    pub currency : String
    pub delivery_days_min : ℕ
    pub delivery_days_max : ℕ

  abbrev pub or_zero : Option Num → Num
  or_zero x = get_or x (from_ℕ 0)

  -- `x / 100`
  abbrev pub percent : Option Num → Num
  percent x = div (or_zero x) (from_ℕ 100)

  -- A breakdown with the parts that every kind of seller has; the others are filled in after it.
  unfoldable pub finalize : SellerType → Discounts → Num → ℕ → ℕ → PriceBreakdown
  finalize seller_type discounts rate days_min days_max =
      let final = round discounts.final_price in
      record {
        seller_type = seller_type;
        base_price_rwf = none;
        fob_price_rwf = none;
        seller_desired_payout_rwf = none;
        shipping_cost_rwf = none;
        local_charges_rwf = none;
        taxes_estimate_rwf = none;
        insurance_rwf = none;
        storage_rwf = none;
        clearing_fee_rwf = none;
        landing_cost_rwf = none;
        margin_rwf = none;
        platform_margin_rate_percent = none;
        commission_rwf = none;
        rule_discount_rwf = discounts.rule_discount;
        rule_discount_rate_percent = discounts.rule_discount_rate_percent;
        discount_rwf = discounts.discount;
        final_price_rwf = final;
        display_price_rwf = final;
        final_price_usd = rwf_to_usd_amount final rate;
        currency = "RWF";
        delivery_days_min = days_min;
        delivery_days_max = days_max;
      }

  unfoldable pub calc_rwanda_stock : PricingInput → PricingRule → Num → PriceBreakdown
  unfolding finalize
  calc_rwanda_stock input rule rate =
      let base = or_zero input.base_price_rwf in
      let discounts = apply_rule_and_listing_discounts base rule input.discount_rwf in
      record (finalize SellerType.uza_rwanda_stock discounts rate (get_or rule.delivery_days_min 1)
        (get_or rule.delivery_days_max 2)) { base_price_rwf = some base }

  unfoldable pub calc_china_sourcing : PricingInput → PricingRule → Num → PriceBreakdown
  unfolding finalize
  calc_china_sourcing input rule rate =
      let fob = or_zero input.fob_price_rwf in
      let ship = or_zero rule.shipping_cost_rwf in
      let local = or_zero rule.local_charges_rwf in
      let taxes = mul (add fob ship) (percent rule.tax_rate_percent) in
      let insure = mul (add fob ship) (percent rule.insurance_rate_percent) in
      let storage = or_zero rule.storage_per_day_rwf in
      let clearing = or_zero rule.clearing_fee_rwf in
      let landing =
        add (add (add (add (add (add fob ship) local) taxes) insure) storage) clearing in
      let margin = mul landing (percent rule.platform_margin_percent) in
      let discounts =
        apply_rule_and_listing_discounts (add landing margin) rule input.discount_rwf in
      record (finalize SellerType.uza_china_sourcing discounts rate
        (get_or rule.delivery_days_min 42) (get_or rule.delivery_days_max 56)) {
          fob_price_rwf = some fob;
          shipping_cost_rwf = some ship;
          local_charges_rwf = some local;
          taxes_estimate_rwf = some taxes;
          insurance_rwf = some insure;
          storage_rwf = some storage;
          clearing_fee_rwf = some clearing;
          landing_cost_rwf = some landing;
          margin_rwf = some margin;
          platform_margin_rate_percent = rule.platform_margin_percent;
        }

  unfoldable pub calc_local_seller : PricingInput → PricingRule → Num → PriceBreakdown
  unfolding finalize
  calc_local_seller input rule rate =
      let payout = or_zero input.seller_desired_payout_rwf in
      let commission_rate = get_or rule.commission_rate (decimal 5 2) in
      let final = div payout (sub (from_ℕ 1) commission_rate) in
      let discounts = apply_rule_and_listing_discounts final rule input.discount_rwf in
      record (finalize SellerType.local_seller discounts rate (get_or rule.delivery_days_min 2)
        (get_or rule.delivery_days_max 5)) {
          seller_desired_payout_rwf = some payout;
          commission_rwf = some (sub final payout);
        }

  unfoldable pub calc_international : PricingInput → PricingRule → Num → PriceBreakdown
  unfolding finalize
  calc_international input rule rate =
      let fob = or_zero input.fob_price_rwf in
      let route = or_zero rule.shipping_cost_rwf in
      let local = or_zero rule.local_charges_rwf in
      let taxes = mul (add fob route) (percent rule.tax_rate_percent) in
      let before_margin = add (add (add fob route) local) taxes in
      let margin = mul before_margin (percent rule.platform_margin_percent) in
      let discounts =
        apply_rule_and_listing_discounts (add before_margin margin) rule input.discount_rwf in
      record (finalize SellerType.international_seller discounts rate
        (get_or rule.delivery_days_min 42) (get_or rule.delivery_days_max 70)) {
          fob_price_rwf = some fob;
          shipping_cost_rwf = some route;
          local_charges_rwf = some local;
          taxes_estimate_rwf = some taxes;
          margin_rwf = some margin;
          platform_margin_rate_percent = rule.platform_margin_percent;
        }

  -- The `switch` of `calculatePrice`.
  unfoldable pub calculate_price : SellerType → PricingInput → PricingRule → Num → PriceBreakdown
  calculate_price SellerType.uza_rwanda_stock input rule rate = calc_rwanda_stock input rule rate
  calculate_price SellerType.uza_china_sourcing input rule rate =
      calc_china_sourcing input rule rate
  calculate_price SellerType.local_seller input rule rate = calc_local_seller input rule rate
  calculate_price SellerType.international_seller input rule rate =
      calc_international input rule rate
