-- ===== src/Platform/Reference.antt =====
-- src/common/utils/reference-number.util.ts: numbers such as UZM-INV-2026-000123.
use uza_mobility_bn.Base.{ℕ, ◌+◌, Option, none, some, String}
use uza_mobility_bn.Base.Text.{◌<>◌}
use uza_mobility_bn.Js.{Js}
use uza_mobility_bn.Db.{Prisma}
use uza_mobility_bn.Schema.World.{World}
use Prim.Native.String.{count}
use text.Mathlib.Text.{starts_with}

pub data ReferencePrefix : Type 0 where
  uzm_inv uzm_pay uzm_ord uzm_bkg uzm_bkg_pay uzm_flt uzm_quo : ReferencePrefix

prefix_text : ReferencePrefix → String
prefix_text uzm_inv = "UZM-INV"
prefix_text uzm_pay = "UZM-PAY"
prefix_text uzm_ord = "UZM-ORD"
prefix_text uzm_bkg = "UZM-BKG"
prefix_text uzm_bkg_pay = "UZM-BKG-PAY"
prefix_text uzm_flt = "UZM-FLT"
prefix_text uzm_quo = "UZM-QUO"

module _ ⦃N : Js⦄ ⦃P : Prisma⦄ where
  open N use {year_of, to_text, pad_start, slice_from, parse_int}
  open P use {find_last_by}

  -- The `switch`: the last number in use that begins with `base`.
  last_value : World → ReferencePrefix → String → Option String
  last_value w uzm_inv base =
      elim (find_last_by w.invoices (λ r. r.invoice_number)
        (λ r. starts_with r.invoice_number base)) [ none ↦ none | some r ↦ some r.invoice_number ]
  last_value w uzm_pay base =
      elim (find_last_by w.invoices (λ r. r.payment_reference)
        (λ r. starts_with r.payment_reference base)) [
          | none ↦ none
          | some r ↦ some r.payment_reference
        ]
  last_value w uzm_ord base =
      elim (find_last_by w.orders (λ r. r.order_number) (λ r. starts_with r.order_number base)) [
        | none ↦ none
        | some r ↦ some r.order_number
      ]
  last_value w uzm_bkg base =
      elim (find_last_by w.bookings (λ r. r.booking_number)
        (λ r. starts_with r.booking_number base)) [ none ↦ none | some r ↦ some r.booking_number ]
  last_value w uzm_bkg_pay base =
      elim (find_last_by w.bookings (λ r. r.payment_reference)
        (λ r. starts_with r.payment_reference base)) [
          | none ↦ none
          | some r ↦ some r.payment_reference
        ]
  last_value w uzm_flt base =
      elim (find_last_by w.fleet_requests (λ r. r.reference_number)
        (λ r. starts_with r.reference_number base)) [
          | none ↦ none
          | some r ↦ some r.reference_number
        ]
  last_value w uzm_quo base =
      elim (find_last_by w.inquiries (λ r. r.quote_number) (λ r. starts_with r.quote_number base)) [
        | none ↦ none
        | some r ↦ some r.quote_number
      ]

  -- `Number.isFinite(lastSeq) ? lastSeq + 1 : 1`
  next_seq : ℕ → Option String → ℕ
  next_seq skipped none = 1
  next_seq skipped (some value) = elim (parse_int (slice_from skipped value)) [
    | some seq ↦ seq + 1
    | none ↦ 1
  ]

  pub generate_reference_number : World → ReferencePrefix → String
  unfolding last_value next_seq prefix_text
  generate_reference_number w prefix =
      let base = prefix_text prefix <> "-" <> to_text (year_of w.now) <> "-" in
      base <> pad_start 6 (to_text (next_seq (count base) (last_value w prefix base)))
