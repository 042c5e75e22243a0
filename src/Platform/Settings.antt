-- ===== src/Platform/Settings.antt =====
-- src/modules/platform-settings: the stored texts, the frozen exchange rate and the booking fee.
use uza_mobility_bn.Base.{Bool, Option, none, some, String, if◌then◌else◌, ◌&&◌, not, get_or}
use uza_mobility_bn.Js.{Js}
use uza_mobility_bn.Db.{Prisma}
use uza_mobility_bn.Schema.World.{World}
use uza_mobility_bn.Platform.Money.{positive}
use text.Mathlib.Text.{◌==◌ as str_eq}

-- A text, unless it is empty, which counts as false.
abbrev pub non_empty : String → Option String
non_empty s = if str_eq s "" then none else some s

-- The same for a text that may be absent.
abbrev pub filled : Option String → Option String
filled none = none
filled (some s) = non_empty s

pub record Account : Type 0 where
  pub bank_name : String
  pub account_number : String

pub record CompanyPaymentDetails : Type 0 where
  pub legal_name : String
  pub whatsapp_number : String
  pub usd : Account
  pub rwf : Account

module _ ⦃N : Js⦄ where
  open N use {Num, from_ℕ, decimal, add, sub, mul, div, le, round, parse_number, trim}

  -- `text?.trim() || null`
  abbrev pub trimmed : Option String → Option String
  trimmed none = none
  trimmed (some s) = non_empty (trim s)

  -- A number that counts as true: neither absent nor zero.
  abbrev pub nonzero : Num → Bool
  nonzero x = not (le x (from_ℕ 0) && le (from_ℕ 0) x)

  abbrev pub default_frozen_usd_to_rwf : Num
  default_frozen_usd_to_rwf = decimal 14728279 4

  -- `if (Number.isFinite(parsed) && parsed > 0) parsed else null`
  abbrev positive_only : Option Num → Option Num
  positive_only none = none
  positive_only (some x) = if positive x then some x else none

  abbrev nonneg_or : Num → Option Num → Num
  nonneg_or d none = d
  nonneg_or d (some x) = if le (from_ℕ 0) x then x else d

  -- The rate in force: the frozen one, else the last fetched one with the markup, else a constant.
  effective_rate : Option Num → Option Num → Num → Num
  effective_rate (some effective) api markup = effective
  effective_rate none (some api) markup = mul api (add (from_ℕ 1) (div markup (from_ℕ 100)))
  effective_rate none none markup = default_frozen_usd_to_rwf

  module _ ⦃P : Prisma⦄ where
    -- `getSetting(key, fallback)`
    get_setting : World → String → String → String
    get_setting w key fallback = get_or (trimmed (w.settings key)) fallback

    get_cached_number : World → String → Option Num
    unfolding get_setting
    get_cached_number w key = elim (non_empty (get_setting w key "")) [
      | none ↦ none
      | some raw ↦ positive_only (parse_number raw)
    ]

    get_markup_percent : World → Num
    unfolding get_setting
    get_markup_percent w =
        nonneg_or (from_ℕ 2) (parse_number (get_setting w "rwfMarkupPercent" "2"))

    -- `getFrozenRate()`, which is `getSnapshot().usdToRwfEffective`
    unfoldable pub get_frozen_rate : World → Num
    unfolding effective_rate get_cached_number get_markup_percent
    get_frozen_rate w =
        effective_rate (get_cached_number w "usdToRwfEffective") (get_cached_number w "usdToRwfApi")
          (get_markup_percent w)

    -- `getString(key)`, given the key's default
    get_string : World → String → String → String
    get_string w key default = get_or (trimmed (w.settings key)) default

    get_booking_fee_usd : World → Num
    unfolding get_string
    get_booking_fee_usd w =
        get_or (positive_only (parse_number (get_string w "bookingFeeUsd" "500"))) (from_ℕ 500)

    -- the default, `Math.round(500 * 1472.8279)`
    abbrev default_booking_fee_rwf : Num
    default_booking_fee_rwf = from_ℕ 736414

    booking_fee_from_usd : World → Num
    unfolding get_booking_fee_usd get_frozen_rate
    booking_fee_from_usd w =
        let fee = round (mul (get_booking_fee_usd w) (get_frozen_rate w)) in
        if nonzero fee then fee else default_booking_fee_rwf

    unfoldable pub get_booking_fee_rwf : World → Num
    unfolding get_string booking_fee_from_usd
    get_booking_fee_rwf w =
        elim (positive_only (parse_number (get_string w "bookingFeeRwf" "736414"))) [
          | some fee ↦ round fee
          | none ↦ booking_fee_from_usd w
        ]

    unfoldable pub get_company_payment_details : World → CompanyPaymentDetails
    unfolding get_string
    get_company_payment_details w = record {
      legal_name = get_string w "companyLegalName" "UZA Solutions Ltd";
      whatsapp_number = get_string w "companyWhatsappNumber" "250788000000";
      usd = record {
        bank_name = get_string w "companyBankName" "Your Bank Name";
        account_number = get_string w "companyAccountNumber" "0000000000";
      };
      rwf = record {
        bank_name = get_string w "companyBankNameRwf" "Your Bank Name";
        account_number = get_string w "companyAccountNumberRwf" "0000000000";
      };
    }
