-- ===== src/Pricing/Discount.antt =====
-- src/modules/pricing/pricing-discount.util.ts, and the pricing rule's columns.
use uza_mobility_bn.Base.{ℕ, Option, none, some, get_or, if◌then◌else◌}
use uza_mobility_bn.Js.{Js}
use uza_mobility_bn.Platform.Money.{positive}

module _ ⦃N : Js⦄ where
  open N use {Num, from_ℕ, sub, mul, div}

  pub record PricingRule : Type 0 where
    pub shipping_cost_rwf : Option Num
    pub local_charges_rwf : Option Num
    pub tax_rate_percent : Option Num
    pub insurance_rate_percent : Option Num
    pub storage_per_day_rwf : Option Num
    pub clearing_fee_rwf : Option Num
    pub platform_margin_percent : Option Num
    pub commission_rate : Option Num
    pub discount_rate_percent : Option Num
    pub delivery_days_min : Option ℕ
    pub delivery_days_max : Option ℕ

  pub record Discounts : Type 0 where
    pub rule_discount : Num
    pub rule_discount_rate_percent : Option Num
    pub discount : Num
    pub final_price : Num

  -- `rate > 0 ? (preDiscountTotal * rate) / 100 : 0`
  abbrev pub rule_discount_of : Num → Num → Num
  rule_discount_of total rate =
      if positive rate then div (mul total rate) (from_ℕ 100) else from_ℕ 0

  unfoldable pub apply_rule_and_listing_discounts : Num → PricingRule → Option Num → Discounts
  apply_rule_and_listing_discounts total rule listing_discount =
      let rate = get_or rule.discount_rate_percent (from_ℕ 0) in
      let discount = get_or listing_discount (from_ℕ 0) in
      record {
        rule_discount = rule_discount_of total rate;
        rule_discount_rate_percent = if positive rate then some rate else none;
        discount = discount;
        final_price = sub (sub total (rule_discount_of total rate)) discount;
      }
