-- ===== src/Pricing/Promotion.antt =====
-- src/modules/promotions/promotion-display.util.ts: the promotion that saves the buyer most.
pub mod Best
use uza_mobility_bn.Base.{
  ℕ, Bool, true, false, Option, none, some, String, List, [], ◌∷◌, ◌||◌, if◌then◌else◌, is_some,
}
use uza_mobility_bn.Js.{Js}

module _ ⦃N : Js⦄ where
  open N use {Num, from_ℕ, sub, mul, div, le}

  pub record Promotion : Type 0 where
    pub id : ℕ
    pub name : String
    pub kind : String
    pub discount_percent : Option Num
    pub discount_amount_usd : Option Num

  -- `Math.max`, `Math.min`
  abbrev pub max : Num → Num → Num
  max a b = if le a b then b else a

  abbrev pub min : Num → Num → Num
  min a b = if le a b then a else b

  pub record Applied : Type 0 where
    pub effective_price : Num
    pub saving : Num

  abbrev pub has_discount_value : Promotion → Bool
  has_discount_value p = is_some p.discount_percent || is_some p.discount_amount_usd

  abbrev less : Num → Num → Applied
  less price saving = record {
    effective_price = max (from_ℕ 0) (sub price saving);
    saving = saving;
  }

  applied_amount : Num → Option Num → Applied
  applied_amount price (some amount) = less price (min amount price)
  applied_amount price none = record { effective_price = price; saving = from_ℕ 0 }

  applied : Num → Option Num → Option Num → Applied
  unfolding applied_amount
  applied price (some percent) amount = less price (mul price (div percent (from_ℕ 100)))
  applied price none amount = applied_amount price amount

  unfoldable pub apply_promotion : Num → Promotion → Applied
  unfolding applied
  apply_promotion price p = applied price p.discount_percent p.discount_amount_usd

  abbrev pub saving_of : Num → Promotion → Num
  saving_of price p = (apply_promotion price p).saving

  -- One round of the loop, on `(best, bestSaving)`.
  unfoldable pub better : Num → Promotion → Option Promotion × Num → Option Promotion × Num
  better price p (best, best_saving) =
      if has_discount_value p
      then if le (saving_of price p) best_saving
        then (best, best_saving)
        else (some p, saving_of price p)
      else (best, best_saving)

  unfoldable pub pick_loop : Num → List Promotion → Option Promotion × Num → Option Promotion × Num
  pick_loop price [] state = state
  pick_loop price (p ∷ ps) state = pick_loop price ps (better price p state)

  unfoldable pub pick_best_discount_promotion : Num → List Promotion → Option Promotion
  pick_best_discount_promotion price promotions = (pick_loop price promotions (none, from_ℕ 0)).0

  pub record PromotionPriceDisplay : Type 0 where
    pub promotion_id : ℕ
    pub promotion_name : String
    pub promotion_type : String
    pub display_price_usd : Num
    pub saving_usd : Num

  unfoldable pub to_promotion_price_display : Num → Promotion → PromotionPriceDisplay
  unfolding apply_promotion
  to_promotion_price_display price p =
      let result = apply_promotion price p in
      record {
        promotion_id = p.id;
        promotion_name = p.name;
        promotion_type = p.kind;
        display_price_usd = result.effective_price;
        saving_usd = result.saving;
      }
