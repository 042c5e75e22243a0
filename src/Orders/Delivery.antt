-- ===== src/Orders/Delivery.antt =====
-- src/modules/sustainability/sustainability.service.ts, `recordDelivery`, with the factors of
-- sustainability.constants.ts.
use uza_mobility_bn.Base.{ℕ, Option, none, some, String, if◌then◌else◌}
use uza_mobility_bn.Js.{Js}
use uza_mobility_bn.Db.{Prisma}
use uza_mobility_bn.Schema.Rows.{User, Listing, Order, SustainabilityMetric}
use uza_mobility_bn.Schema.World.{World}
use uza_mobility_bn.Api.{Action, ok}
use text.Mathlib.Text.{◌==◌ as str_eq}

module _ ⦃N : Js⦄ where
  open N use {Num, from_ℕ, decimal, mul}

  pub record EmissionsFactors : Type 0 where
    pub co2_per_km_kg : Num
    pub fuel_saved_per_km_l : Num
    pub annual_km_estimate : Num

  -- `EMISSIONS_FACTORS[type] ?? DEFAULT_EMISSIONS_FACTORS`; the default is that of PASSENGER_EV.
  emissions_factors : String → EmissionsFactors
  emissions_factors category_type =
      if str_eq category_type "TWO_THREE_WHEEL"
      then record {
        co2_per_km_kg = decimal 6 2;
        fuel_saved_per_km_l = decimal 35 3;
        annual_km_estimate = from_ℕ 15000;
      }
      else if str_eq category_type "COMMERCIAL_EV"
      then record {
        co2_per_km_kg = decimal 25 2;
        fuel_saved_per_km_l = decimal 15 2;
        annual_km_estimate = from_ℕ 40000;
      }
      else if str_eq category_type "EV_PARTS_ACCESSORIES"
      then record {
        co2_per_km_kg = decimal 5 2;
        fuel_saved_per_km_l = decimal 3 2;
        annual_km_estimate = from_ℕ 5000;
      }
      else if str_eq category_type "EV_INFRASTRUCTURE_ENERGY"
      then record {
        co2_per_km_kg = decimal 8 2;
        fuel_saved_per_km_l = decimal 4 2;
        annual_km_estimate = from_ℕ 10000;
      }
      else record {
        co2_per_km_kg = decimal 12 2;
        fuel_saved_per_km_l = decimal 7 2;
        annual_km_estimate = from_ℕ 20000;
      }

  abbrev buyer_type_of : Option User → Option String
  buyer_type_of none = none
  buyer_type_of (some user) = elim user.buyer_profile [
    | none ↦ none
    | some profile ↦ some profile.buyer_type
  ]

  delivery_metric : ℕ → Order → Listing → Option User → SustainabilityMetric
  unfolding emissions_factors
  delivery_metric order_id order listing user =
      let factors = emissions_factors listing.category_type in
      record {
        listing_id = order.listing_id;
        order_id = order_id;
        vehicle_type = listing.category_type;
        buyer_type = buyer_type_of user;
        country = order.delivery_country;
        estimated_co2_avoided_kg = mul factors.annual_km_estimate factors.co2_per_km_kg;
        estimated_fuel_saved_l = mul factors.annual_km_estimate factors.fuel_saved_per_km_l;
        green_km_supported = factors.annual_km_estimate;
      }

  module _ ⦃P : Prisma⦄ where
    open P use {find_unique, insert}

    -- Without the order or its listing nothing is recorded.
    unfoldable pub record_delivery : ℕ → Action World (Unit {0})
    unfolding delivery_metric
    record_delivery order_id w = elim (find_unique w.orders order_id) [
      | none ↦ (ok tt, w)
      | some order ↦ elim (find_unique w.listings order.listing_id) [
        | none ↦ (ok tt, w)
        | some listing ↦ (
          ok tt,
          record w {
            sustainability_metrics =
                insert w.sustainability_metrics
                  (delivery_metric order_id order listing (find_unique w.users order.user_id));
          },
        )
      ]
    ]
