-- ===== src/Invoices/Queries.antt =====
-- src/modules/invoices/invoices.service.ts: `findByIdForUser`, and the filter that `findMine` and
-- `adminFindAll` build.
use uza_mobility_bn.Base.{ℕ, Bool, Option, none, some, String, List, ◌==◌, ◌&&◌, not, if◌then◌else◌}
use uza_mobility_bn.Base.Text.{◌===◌, includes}
use uza_mobility_bn.Js.{Js}
use uza_mobility_bn.Db.{Prisma}
use uza_mobility_bn.Schema.Commerce.{InvoiceStatus, invoice_status_enum}
use uza_mobility_bn.Schema.Rows.{Invoice}
use uza_mobility_bn.Schema.World.{World}
use uza_mobility_bn.Api.{Action, not_found, forbidden, ◌>>=◌, ◌>>◌, pure, gets, throw_if, require}
use uza_mobility_bn.Platform.Settings.{get_company_payment_details, filled}
use uza_mobility_bn.Invoices.Statuses.{
  active_invoice_statuses, payable_statuses, inactive_invoice_statuses,
}
use uza_mobility_bn.Invoices.Snapshot.{with_payment_accounts_fallback}

-- A condition on the status: `{ in }`, the status itself, `{ notIn }`.
pub data StatusFilter : Type 0 where
  among : List InvoiceStatus → StatusFilter
  exactly : InvoiceStatus → StatusFilter
  outside : List InvoiceStatus → StatusFilter

pub record FilterInvoicesDto : Type 0 where
  pub pending_purchase : Bool
  pub payable_only : Bool
  pub status : Option InvoiceStatus
  pub listing_id : Option ℕ
  pub q : Option String

pub record InvoiceWhere : Type 0 where
  pub user_id : Option ℕ
  pub status : StatusFilter
  pub listing_id : Option ℕ
  -- contained in the number, the payment reference, the buyer's name or e-mail
  pub search : Option String

status_or_open : Option InvoiceStatus → StatusFilter
status_or_open (some status) = exactly status
status_or_open none = outside inactive_invoice_statuses

status_filter : FilterInvoicesDto → StatusFilter
unfolding status_or_open
status_filter filters =
    if filters.pending_purchase
    then among active_invoice_statuses
    else if filters.payable_only
    then among payable_statuses
    else status_or_open filters.status

unfoldable pub build_invoice_where : Option ℕ → FilterInvoicesDto → InvoiceWhere
unfolding status_filter
build_invoice_where base filters = record {
  user_id = base;
  status = status_filter filters;
  listing_id = filters.listing_id;
  search = filled filters.q;
}

-- What the data base reads in a condition on the status.
pub status_passes : StatusFilter → InvoiceStatus → Bool
status_passes (among list) status = includes list status
status_passes (exactly s) status = s === status
status_passes (outside list) status = not (includes list status)

module _ ⦃N : Js⦄ ⦃P : Prisma⦄ where
  open P use {find_unique}

  unfoldable pub find_by_id_for_user : ℕ → ℕ → Bool → Action World Invoice
  find_by_id_for_user user_id invoice_id is_admin = do
    found ← gets (λ w. find_unique w.invoices invoice_id)
    invoice ← require found (not_found "Invoice not found")
    throw_if (not is_admin && not (invoice.user_id == user_id))
        (forbidden "You do not have access to this invoice")
    company ← gets (λ w. get_company_payment_details w)
    pure (with_payment_accounts_fallback invoice company)
