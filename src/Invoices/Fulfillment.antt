-- ===== src/Invoices/Fulfillment.antt =====
-- src/modules/invoices/invoices.service.ts, `fulfillPendingBuyInquiries`: the invoices for the
-- vehicles that a buyer inquired about as a guest.
pub mod Keeps
use uza_mobility_bn.Base.{ℕ, Bool, false, Option, none, some, List, ◌==◌, ◌&&◌, is_some}
use uza_mobility_bn.Base.Text.{◌===◌}
use uza_mobility_bn.Js.{Js}
use uza_mobility_bn.Db.{Prisma}
use uza_mobility_bn.Schema.Market.{InquiryIntent, inquiry_intent_enum}
use uza_mobility_bn.Schema.Rows.{User, BuyerProfile}
use uza_mobility_bn.Schema.MarketRows.{Inquiry}
use uza_mobility_bn.Schema.World.{World}
use uza_mobility_bn.Api.{Action, ok, for_each}
use uza_mobility_bn.Platform.Audit.{RequestAuditContext}
use uza_mobility_bn.Invoices.Request.{RequestInvoiceDto, request_invoice, is_active_for}

-- `{ listingId }` and the context that is not given.
abbrev pub plain_request : ℕ → RequestInvoiceDto
plain_request listing_id = record {
  listing_id = listing_id;
  invoice_type = none;
  buyer_address = none;
  notes = none;
}

abbrev pub no_context : RequestAuditContext
no_context = record { ip_address = none; user_agent = none; actor_email = none }

-- `try { await action } catch {}`: what was written before a throw stays.
abbrev pub attempt : {S A : Type 0} → Action S A → Action S (Unit {0})
attempt action s = let (_, s') = action s in (ok tt, s')

module _ ⦃N : Js⦄ ⦃P : Prisma⦄ where
  open P use {find_unique, find_first, find_many}

  abbrev is_of : ℕ → Option ℕ → Bool
  is_of user_id none = false
  is_of user_id (some id) = id == user_id

  -- The inquiries of the buyer to buy a listing.
  abbrev pub is_buy_inquiry_of : ℕ → ℕ → Inquiry → Bool
  is_buy_inquiry_of user_id _ inquiry =
      is_of user_id inquiry.user_id
      && inquiry.intent === InquiryIntent.buy
      && is_some inquiry.listing_id

  -- One turn of the loop.
  unfoldable pub fulfill_inquiry : ℕ → ℕ × Inquiry → Action World (Unit {0})
  fulfill_inquiry user_id (_, inquiry) w = elim inquiry.listing_id [
    | none ↦ (ok tt, w)
    | some listing_id ↦ elim (find_first w.invoices (is_active_for user_id listing_id)) [
      | some existing ↦ (ok tt, w)
      | none ↦ attempt (request_invoice user_id (plain_request listing_id) no_context) w
    ]
  ]

  unfoldable pub fulfill_pending_buy_inquiries : ℕ → Action World (Unit {0})
  unfolding fulfill_inquiry for_each
  fulfill_pending_buy_inquiries user_id w = elim (find_unique w.users user_id) [
    | none ↦ (ok tt, w)
    | some user ↦ elim user.buyer_profile [
      | none ↦ (ok tt, w)
      | some profile ↦
          for_each (fulfill_inquiry user_id) (find_many w.inquiries (is_buy_inquiry_of user_id)) w
    ]
  ]
