-- ===== src/Tests/Pricing.antt =====
-- The theorems on prices and promotions at concrete data.
use uza_mobility_bn.Base.{◌≡◌, refl, some, none, List, [], ◌∷◌, true, ◌⊎◌}
use uza_mobility_bn.Schema.Catalog.{SellerType}
use uza_mobility_bn.Pricing.Discount.{PricingRule}
use uza_mobility_bn.Pricing.Breakdown.{PricingInput, calculate_price}
use uza_mobility_bn.Pricing.Laws.{pre_discount_total, discount_lowers_price, price_at_most_cost}
use uza_mobility_bn.Pricing.Promotion.{Promotion, pick_best_discount_promotion}
use uza_mobility_bn.Pricing.Promotion.Best.{AtMost, IsChosen, picks_best}
use uza_mobility_bn.Tests.Natural.{natural, natural_laws}

abbrev input : PricingInput
input = record {
  base_price_rwf = none;
  fob_price_rwf = some 20000000;
  seller_desired_payout_rwf = none;
  discount_rwf = some 100000;
}

abbrev rule : PricingRule
rule = record {
  shipping_cost_rwf = some 3000000;
  local_charges_rwf = some 500000;
  tax_rate_percent = some 100;
  insurance_rate_percent = none;
  storage_per_day_rwf = none;
  clearing_fee_rwf = some 250000;
  platform_margin_percent = some 200;
  commission_rate = none;
  discount_rate_percent = some 5;
  delivery_days_min = none;
  delivery_days_max = none;
}

discount_lowers_price_example :
    natural.le
      (calculate_price SellerType.uza_china_sourcing
        (record input { discount_rwf = some 200000 })
        rule
        1450).final_price_rwf
      (calculate_price SellerType.uza_china_sourcing
        (record input { discount_rwf = some 100000 })
        rule
        1450).final_price_rwf
    ≡ true
discount_lowers_price_example =
    discount_lowers_price SellerType.uza_china_sourcing input rule 1450 100000 200000 refl

price_at_most_cost_example :
    natural.le
      (calculate_price SellerType.uza_china_sourcing input rule 1450).final_price_rwf
      (natural.round (pre_discount_total SellerType.uza_china_sourcing input rule))
    ≡ true
price_at_most_cost_example =
    price_at_most_cost SellerType.uza_china_sourcing input rule 1450 refl refl

abbrev offers : List Promotion
offers =
    record {
      id = 1;
      name = "Launch";
      kind = "DISCOUNT";
      discount_percent = none;
      discount_amount_usd = some 300;
    }
    ∷ record {
      id = 2;
      name = "Flash sale";
      kind = "DISCOUNT";
      discount_percent = none;
      discount_amount_usd = some 500;
    }
    ∷ []

picks_best_example :
    ((pick_best_discount_promotion 20000 offers ≡ none) × AtMost 20000 0 offers)
    ⊎ ((p : Promotion) × (pick_best_discount_promotion 20000 offers ≡ some p)
        × IsChosen 20000 offers p)
picks_best_example = picks_best 20000 offers
