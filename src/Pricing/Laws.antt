-- ===== src/Pricing/Laws.antt =====
-- Laws of the computed prices, for every kind of seller.
use uza_mobility_bn.Base.{◌≡◌, refl, Option, some, true, arith, get_or, Bool-cases, inl, inr}
use uza_mobility_bn.Js.{Js, JsLaws}
use uza_mobility_bn.Schema.Catalog.{SellerType}
use uza_mobility_bn.Pricing.Discount.{
  PricingRule, rule_discount_of, apply_rule_and_listing_discounts,
}
use uza_mobility_bn.Pricing.Breakdown.{
  PricingInput, percent, or_zero, finalize, calc_rwanda_stock, calc_china_sourcing,
  calc_local_seller, calc_international, calculate_price,
}

module _ ⦃N : Js⦄ where
  open N use {Num, from_ℕ, decimal, add, sub, mul, div, le, round}

  -- What the vehicle costs before any discount.
  abbrev pub pre_discount_total : SellerType → PricingInput → PricingRule → Num
  pre_discount_total SellerType.uza_rwanda_stock input rule = or_zero input.base_price_rwf
  pre_discount_total SellerType.uza_china_sourcing input rule =
      let goods = add (or_zero input.fob_price_rwf) (or_zero rule.shipping_cost_rwf) in
      let landing =
        add
          (add
            (add
              (add (add goods (or_zero rule.local_charges_rwf))
                (mul goods (percent rule.tax_rate_percent)))
              (mul goods (percent rule.insurance_rate_percent)))
            (or_zero rule.storage_per_day_rwf))
          (or_zero rule.clearing_fee_rwf) in
      add landing (mul landing (percent rule.platform_margin_percent))
  pre_discount_total SellerType.local_seller input rule =
      div (or_zero input.seller_desired_payout_rwf)
        (sub (from_ℕ 1) (get_or rule.commission_rate (decimal 5 2)))
  pre_discount_total SellerType.international_seller input rule =
      let goods = add (or_zero input.fob_price_rwf) (or_zero rule.shipping_cost_rwf) in
      let cost =
        add (add goods (or_zero rule.local_charges_rwf))
          (mul goods (percent rule.tax_rate_percent)) in
      add cost (mul cost (percent rule.platform_margin_percent))

  abbrev rule_part : SellerType → PricingInput → PricingRule → Num
  rule_part t input rule =
      rule_discount_of (pre_discount_total t input rule)
        (get_or rule.discount_rate_percent (from_ℕ 0))

  calculate_price-final :
      (t : SellerType) (input : PricingInput) (rule : PricingRule) (rate : Num)
      → (calculate_price t input rule rate).final_price_rwf
        ≡ round (
            sub
              (sub (pre_discount_total t input rule) (rule_part t input rule))
              (or_zero input.discount_rwf))
  unfolding calculate_price calc_rwanda_stock calc_china_sourcing calc_local_seller
      calc_international finalize apply_rule_and_listing_discounts
  calculate_price-final SellerType.uza_rwanda_stock input rule rate = refl
  calculate_price-final SellerType.uza_china_sourcing input rule rate = refl
  calculate_price-final SellerType.local_seller input rule rate = refl
  calculate_price-final SellerType.international_seller input rule rate = refl

  total-discount :
      (t : SellerType) (input : PricingInput) (rule : PricingRule) (d : Option Num)
      → pre_discount_total t (record input { discount_rwf = d }) rule
        ≡ pre_discount_total t input rule
  total-discount SellerType.uza_rwanda_stock input rule d = refl
  total-discount SellerType.uza_china_sourcing input rule d = refl
  total-discount SellerType.local_seller input rule d = refl
  total-discount SellerType.international_seller input rule d = refl

  module _ ⦃L : JsLaws⦄ where
    open L use {
      le_refl, le_trans, sub_mono, sub_self_le, mul_nonneg, div_nonneg, from_ℕ_pos, round_mono,
      le_total,
    }

    -- A greater discount on the listing never makes the price higher, with the same rule, rate and
    -- other inputs.
    pub discount_lowers_price :
        (t : SellerType) (input : PricingInput) (rule : PricingRule) (rate d d' : Num)
        → le d d' ≡ true
        → le
            (calculate_price t (record input { discount_rwf = some d' }) rule rate).final_price_rwf
            (calculate_price t (record input { discount_rwf = some d }) rule rate).final_price_rwf
          ≡ true
    discount_lowers_price t input rule rate d d' h =
        rw
          (
            calculate_price-final t (record input { discount_rwf = some d' }) rule rate,
            calculate_price-final t (record input { discount_rwf = some d }) rule rate,
            total-discount t input rule (some d'),
            total-discount t input rule (some d),
          )
          (round_mono _ _ (sub_mono _ _ _ _ (le_refl _) h))

    rule_part-nonneg :
        (t : SellerType) (input : PricingInput) (rule : PricingRule)
        → le (from_ℕ 0) (pre_discount_total t input rule) ≡ true
        → le (from_ℕ 0) (rule_part t input rule) ≡ true
    rule_part-nonneg t input rule h =
        let rate = get_or rule.discount_rate_percent (from_ℕ 0) in
        elim (Bool-cases (le rate (from_ℕ 0))) [
          | inl e ↦ rw e (le_refl (from_ℕ 0))
          | inr e ↦
              rw e
                (div_nonneg _ _ (from_ℕ_pos 100 (omega arith)) (mul_nonneg _ _ h (le_total _ _ e)))
        ]

    -- Where the cost and the listing's discount are not negative, the price is at most the rounded
    -- cost, whatever the rule's discount.
    pub price_at_most_cost :
        (t : SellerType) (input : PricingInput) (rule : PricingRule) (rate : Num)
        → le (from_ℕ 0) (pre_discount_total t input rule) ≡ true
        → le (from_ℕ 0) (or_zero input.discount_rwf) ≡ true
        → le
            (calculate_price t input rule rate).final_price_rwf
            (round (pre_discount_total t input rule))
          ≡ true
    price_at_most_cost t input rule rate cost discount =
        rw (calculate_price-final t input rule rate) (
          round_mono _ _ (
            le_trans _ _ _ (sub_self_le _ _ discount)
              (sub_self_le _ _ (rule_part-nonneg t input rule cost))))
