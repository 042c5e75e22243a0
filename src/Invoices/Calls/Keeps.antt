-- ===== src/Invoices/Calls/Keeps.antt =====
-- Through every history of invoice calls, a buyer has at most one active invoice for a listing.
use uza_mobility_bn.Base.{
  ℕ, ◌≡◌, refl, sym, ◌∙◌, subst, some, true, arith, inl, inr, Option-cases, Bool-cases, ◌==◌, ltb,
}
use uza_mobility_bn.Base.Text.{includes}
use uza_mobility_bn.Js.{Js}
use uza_mobility_bn.Db.{Prisma, PrismaLaws}
use uza_mobility_bn.Db.Origins.{update_origin}
use uza_mobility_bn.Schema.Commerce.{InvoiceStatus, invoice_status_enum}
use uza_mobility_bn.Schema.Rows.{Invoice}
use uza_mobility_bn.Schema.World.{World}
use uza_mobility_bn.Platform.Audit.{RequestAuditContext}
use uza_mobility_bn.Payments.Submission.{invoice_with_status}
use uza_mobility_bn.Invoices.Statuses.{buyer_cancellable_invoice_statuses}
use uza_mobility_bn.Invoices.Request.Outcome.{OneActive, is_active, request_keeps_OneActive}
use uza_mobility_bn.Invoices.Cancellation.{
  cancel_invoice_by_buyer, cancel_invoice, is_closed, is_payment_of,
}
use uza_mobility_bn.Invoices.Fulfillment.Keeps.{fulfill_keeps_OneActive}
use uza_mobility_bn.Invoices.Expiry.{expire_due_invoices}
use uza_mobility_bn.Invoices.Expiry.Outcome.{expire_exactly_due}
use uza_mobility_bn.Invoices.Calls.{
  request, buyer_cancel, admin_cancel, fulfill, expire, run_invoice_call, InvoiceHistory, begin,
  call,
}

module _ ⦃N : Js⦄ ⦃P : Prisma⦄ where
  open P use {Table, find_unique, update, count}

  -- Each row of the second table is a row of the first, of the same buyer and listing, and active
  -- only if that was.
  record Closes (t t' : Table Invoice) (j : ℕ) (a : Invoice) : Type 0 where
    before : Invoice
    found : find_unique t j ≡ some before
    same_user : before.user_id ≡ a.user_id
    same_listing : before.listing_id ≡ a.listing_id
    was_active : is_active a ≡ true → is_active before ≡ true

  Closing : Table Invoice → Table Invoice → Type 0
  Closing t t' = (j : ℕ) (a : Invoice) → find_unique t' j ≡ some a → Closes t t' j a

  Closing-OneActive : (t t' : Table Invoice) → Closing t t' → OneActive t → OneActive t'
  unfolding Closing
  Closing-OneActive t t' closing one i j a b l found_a found_b user la lb active_a active_b =
      let p = closing i a found_a in
      let q = closing j b found_b in
      one i j p.before q.before l p.found q.found (p.same_user ∙ user ∙ sym q.same_user)
        (p.same_listing ∙ la) (q.same_listing ∙ lb) (p.was_active active_a) (q.was_active active_b)

  Closing-same : (t t' : Table Invoice) → t' ≡ t → Closing t t'
  unfolding Closing
  Closing-same t t' e j a found = record {
    before = a;
    found = subst (λ x. find_unique x j ≡ some a) e found;
    same_user = refl;
    same_listing = refl;
    was_active = λ h. h;
  }

  module _ ⦃L : PrismaLaws⦄ where
    Closing-cancelled :
        (t t' : Table Invoice) (id : ℕ)
        → t' ≡ update t id (invoice_with_status InvoiceStatus.cancelled)
        → Closing t t'
    unfolding Closing
    Closing-cancelled t t' id e j a found =
        let (b, there, origin) =
          update_origin t id (invoice_with_status InvoiceStatus.cancelled) a j (rw e at found) in
        elim origin [
          | inl same ↦ record {
            before = b;
            found = there;
            same_user = ground (arith, same);
            same_listing = ground (arith, same);
            was_active = λ h. absurd (ground (arith, same, h));
          }
          | inr same ↦ record {
            before = b;
            found = there;
            same_user = ground (arith, same);
            same_listing = ground (arith, same);
            was_active = λ h. ground (arith, same, h);
          }
        ]

    buyer_cancel-Closing :
        (user id : ℕ) (ctx : RequestAuditContext) (w : World)
        → Closing w.invoices (cancel_invoice_by_buyer user id ctx w).1.invoices
    unfolding cancel_invoice_by_buyer
    buyer_cancel-Closing user id ctx w = elim (Option-cases (find_unique w.invoices id)) [
      | inl e ↦ Closing-same w.invoices _ (ground arith)
      | inr (r, e) ↦ elim (Bool-cases (r.user_id == user)) [
        | inr o ↦ Closing-same w.invoices _ (ground arith)
        | inl o ↦ elim (Bool-cases (includes buyer_cancellable_invoice_statuses r.status)) [
          | inr c ↦ Closing-same w.invoices _ (ground arith)
          | inl c ↦ elim (Bool-cases (ltb 0 (count w.payments (is_payment_of id)))) [
            | inl n ↦ Closing-same w.invoices _ (ground arith)
            | inr n ↦ Closing-cancelled w.invoices _ id (ground arith)
          ]
        ]
      ]
    ]

    admin_cancel-Closing :
        (admin id : ℕ) (ctx : RequestAuditContext) (w : World)
        → Closing w.invoices (cancel_invoice admin id ctx w).1.invoices
    unfolding cancel_invoice
    admin_cancel-Closing admin id ctx w = elim (Option-cases (find_unique w.invoices id)) [
      | inl e ↦ Closing-same w.invoices _ (ground arith)
      | inr (r, e) ↦ elim (Bool-cases (is_closed r.status)) [
        | inl c ↦ Closing-same w.invoices _ (ground arith)
        | inr c ↦ Closing-cancelled w.invoices _ id (ground arith)
      ]
    ]

    expire-Closing : (w : World) → Closing w.invoices (expire_due_invoices w).1.invoices
    unfolding Closing
    expire-Closing w j a found =
        let now_there = sym ((expire_exactly_due w j).1) ∙ found in
        elim (Option-cases (find_unique w.invoices j)) [
          | inl e ↦ absurd (ground (arith, now_there, e))
          | inr (b, e) ↦ record {
            before = b;
            found = e;
            same_user = ground (arith, now_there, e);
            same_listing = ground (arith, now_there, e);
            was_active = λ h. ground (arith, now_there, e, h);
          }
        ]

    -- Through every history of requests, cancellations, expiries and invoices that are made of a
    -- buyer's inquiries, in any order, no buyer has two active invoices for one listing, if none had
    -- at the start.
    pub invoices_keep_OneActive :
        (start : World) {w : World}
        → OneActive start.invoices
        → InvoiceHistory start w
        → OneActive w.invoices
    unfolding run_invoice_call
    invoices_keep_OneActive start one begin = one
    invoices_keep_OneActive start one (call {w = v} h (request user dto ctx)) =
        request_keeps_OneActive user dto ctx v (invoices_keep_OneActive start one h)
    invoices_keep_OneActive start one (call {w = v} h (buyer_cancel user id ctx)) =
        Closing-OneActive v.invoices _ (buyer_cancel-Closing user id ctx v)
          (invoices_keep_OneActive start one h)
    invoices_keep_OneActive start one (call {w = v} h (admin_cancel admin id ctx)) =
        Closing-OneActive v.invoices _ (admin_cancel-Closing admin id ctx v)
          (invoices_keep_OneActive start one h)
    invoices_keep_OneActive start one (call {w = v} h (fulfill user)) =
        fulfill_keeps_OneActive user v (invoices_keep_OneActive start one h)
    invoices_keep_OneActive start one (call {w = v} h expire) =
        Closing-OneActive v.invoices _ (expire-Closing v) (invoices_keep_OneActive start one h)
