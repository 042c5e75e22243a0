-- ===== src/Invoices/Statuses.antt =====
-- src/modules/invoices/invoice.constants.ts.
use uza_mobility_bn.Base.{ℕ, ◌*◌, ◌+◌, List, [], ◌∷◌}
use uza_mobility_bn.Schema.Commerce.{InvoiceStatus}

abbrev pub active_invoice_statuses : List InvoiceStatus
active_invoice_statuses =
    InvoiceStatus.sent ∷ InvoiceStatus.awaiting_payment ∷ InvoiceStatus.payment_submitted
    ∷ InvoiceStatus.under_verification ∷ InvoiceStatus.partially_paid ∷ []

abbrev pub payable_statuses : List InvoiceStatus
payable_statuses =
    InvoiceStatus.sent ∷ InvoiceStatus.awaiting_payment ∷ InvoiceStatus.partially_paid ∷ []

abbrev pub buyer_cancellable_invoice_statuses : List InvoiceStatus
buyer_cancellable_invoice_statuses = InvoiceStatus.sent ∷ InvoiceStatus.awaiting_payment ∷ []

abbrev pub inactive_invoice_statuses : List InvoiceStatus
inactive_invoice_statuses = InvoiceStatus.cancelled ∷ InvoiceStatus.expired ∷ []

abbrev pub invoice_validity_days : ℕ
invoice_validity_days = 7

-- `addDays(date, days)`, in a time zone without daylight saving
abbrev pub add_days : ℕ → ℕ → ℕ
add_days date days = date + days * 86400000
