-- ===== src/Platform/Money.antt =====
-- src/common/money/money-format.util.ts. Amounts are finite numbers here, so `Number.isFinite` is
-- always true; `Option` stands for null and undefined.
use uza_mobility_bn.Base.{Bool, true, false, Option, none, some, String, if◌then◌else◌, not}
use uza_mobility_bn.Base.Text.{◌<>◌}
use uza_mobility_bn.Js.{Js}
use text.Mathlib.Text.{◌==◌ as str_eq}

module _ ⦃N : Js⦄ where
  open N use {Num, from_ℕ, mul, div, le, round, locale_string}

  -- `x > 0`
  abbrev pub positive : Num → Bool
  positive x = not (le x (from_ℕ 0))

  pub format_rwf_label : Num → String
  format_rwf_label amount = locale_string (round amount) <> " Rwf"

  unfoldable pub usdt_to_rwf_amount : Num → Num → Num
  usdt_to_rwf_amount amount_usdt rate = round (mul amount_usdt rate)

  unfoldable pub rwf_to_usd_amount : Num → Num → Num
  rwf_to_usd_amount amount_rwf rate =
      if le rate (from_ℕ 0)
      then from_ℕ 0
      else div (round (mul (div amount_rwf rate) (from_ℕ 100))) (from_ℕ 100)

  pub record DisplayParams : Type 0 where
    pub currency : Option String
    pub amount_rwf : Option Num
    pub amount_usd : Option Num
    pub frozen_rate : Option Num

  abbrev pub is_rwf : Option String → Bool
  is_rwf none = false
  is_rwf (some c) = str_eq c "RWF"

  convert_usd : Option Num → Option Num → Option Num
  unfolding usdt_to_rwf_amount
  convert_usd (some usd) (some rate) =
      if positive rate then some (usdt_to_rwf_amount usd rate) else none
  convert_usd _ _ = none

  -- Both branches of the source on a present Rwf amount round that amount.
  display_of : Bool → Option Num → Option Num → Option Num → Option Num
  unfolding convert_usd
  display_of true (some rwf) usd rate = some (round rwf)
  display_of false (some rwf) usd rate = some (round rwf)
  display_of _ none usd rate = convert_usd usd rate

  unfoldable pub to_display_rwf : DisplayParams → Option Num
  unfolding display_of
  to_display_rwf p = display_of (is_rwf p.currency) p.amount_rwf p.amount_usd p.frozen_rate

  pub format_money_rwf : Option Num → String
  unfolding format_rwf_label
  format_money_rwf none = "On request"
  format_money_rwf (some amount) = format_rwf_label amount

  -- `formatDualMoney`, with its default text
  pub format_dual_money : Option Num → Option Num → String
  unfolding to_display_rwf format_money_rwf
  format_dual_money amount_usdt rate = format_money_rwf (
      to_display_rwf (record {
        currency = none;
        amount_rwf = none;
        amount_usd = amount_usdt;
        frozen_rate = rate;
      }))
