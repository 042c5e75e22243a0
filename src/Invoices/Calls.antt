-- ===== src/Invoices/Calls.antt =====
-- Histories of the calls of the invoice service that buyers, a sign-up, the scheduler and the finance team make.
pub mod Keeps
use uza_mobility_bn.Base.{ℕ}
use uza_mobility_bn.Js.{Js}
use uza_mobility_bn.Db.{Prisma}
use uza_mobility_bn.Schema.World.{World}
use uza_mobility_bn.Platform.Audit.{RequestAuditContext}
use uza_mobility_bn.Invoices.Request.{RequestInvoiceDto, request_invoice}
use uza_mobility_bn.Invoices.Cancellation.{cancel_invoice_by_buyer, cancel_invoice}
use uza_mobility_bn.Invoices.Fulfillment.{fulfill_pending_buy_inquiries}
use uza_mobility_bn.Invoices.Expiry.{expire_due_invoices}

module _ ⦃N : Js⦄ ⦃P : Prisma⦄ where
  -- All but the fleet invoice, for which no rival is looked up.
  pub data InvoiceCall : Type 0 where
    request : ℕ → RequestInvoiceDto → RequestAuditContext → InvoiceCall
    buyer_cancel admin_cancel : ℕ → ℕ → RequestAuditContext → InvoiceCall
    fulfill : ℕ → InvoiceCall
    expire : InvoiceCall

  unfoldable pub run_invoice_call : InvoiceCall → World → World
  run_invoice_call (request user dto ctx) w = (request_invoice user dto ctx w).1
  run_invoice_call (buyer_cancel user id ctx) w = (cancel_invoice_by_buyer user id ctx w).1
  run_invoice_call (admin_cancel admin id ctx) w = (cancel_invoice admin id ctx w).1
  run_invoice_call (fulfill user) w = (fulfill_pending_buy_inquiries user w).1
  run_invoice_call expire w = (expire_due_invoices w).1

  pub data InvoiceHistory (start : World) : World → Type 0 where
    begin : InvoiceHistory start start
    call :
        {w : World}
        → InvoiceHistory start w
        → (c : InvoiceCall) → InvoiceHistory start (run_invoice_call c w)
