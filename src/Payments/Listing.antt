-- ===== src/Payments/Listing.antt =====
-- src/modules/payments/payments.service.ts: the list of a buyer's payments, which `findMine` cuts
-- into pages after it has hidden the rejected attempts that a newer payment has replaced.
pub mod Shown
use uza_mobility_bn.Base.{
  ℕ, Bool, true, false, Option, none, some, List, [], ◌∷◌, ◌==◌, if◌then◌else◌, keep, not,
}
use uza_mobility_bn.Base.Text.{◌===◌}
use uza_mobility_bn.Schema.Commerce.{PaymentStatus, payment_status_enum}

-- The columns that the filter reads.
pub record PaymentRow : Type 0 where
  pub id : ℕ
  pub invoice_id : ℕ
  pub status : PaymentStatus

-- `latestIdByInvoice.get(invoiceId)`, where the map keeps the first id that it meets.
unfoldable pub latest_id : ℕ → List PaymentRow → Option ℕ
latest_id invoice_id [] = none
latest_id invoice_id (p ∷ ps) =
    if p.invoice_id == invoice_id then some p.id else latest_id invoice_id ps

abbrev is_id : Option ℕ → ℕ → Bool
is_id none id = false
is_id (some i) id = i == id

abbrev pub is_visible : List PaymentRow → PaymentRow → Bool
is_visible all p =
    if not (p.status === PaymentStatus.rejected)
    then true
    else is_id (latest_id p.invoice_id all) p.id

unfoldable pub filter_superseded_rejected_payments : List PaymentRow → List PaymentRow
unfolding latest_id
filter_superseded_rejected_payments payments = keep (is_visible payments) payments
