-- ===== src/Inquiries/Browse.antt =====
-- src/modules/inquiries/inquiries.service.ts: `findPaginated`, for `findMine` and `adminFindAll`.
use uza_mobility_bn.Base.{
  ℕ, leb, Bool, true, false, Option, none, some, String, List, [], ◌∷◌, ◌&&◌, ◌==◌, if◌then◌else◌,
}
use uza_mobility_bn.Base.Text.{◌===◌}
use uza_mobility_bn.Js.{Js}
use uza_mobility_bn.Db.{Prisma}
use uza_mobility_bn.Schema.Market.{InquiryStatus, inquiry_status_enum}
use uza_mobility_bn.Schema.MarketRows.{Inquiry}
use uza_mobility_bn.Schema.World.{World}
use uza_mobility_bn.Platform.Pages.{PageQuery, Page, find_page, passes}
use uza_mobility_bn.Platform.Settings.{filled}
use uza_mobility_bn.Inquiries.Requests.{to_buyer_inquiry}
use text.Mathlib.Text.{◌==◌ as str_eq}

pub record FilterInquiriesDto : Type 0 where
  pub status : Option InquiryStatus
  pub country : Option String
  pub buyer_type : Option String
  pub from : Option ℕ
  pub to : Option ℕ
  pub pages : PageQuery

module _ ⦃N : Js⦄ ⦃P : Prisma⦄ where
  open N use {to_upper}

  abbrev is_inquiry_of : Option ℕ → Inquiry → Bool
  is_inquiry_of none inquiry = true
  is_inquiry_of (some user_id) inquiry = elim inquiry.user_id [
    | none ↦ false
    | some id ↦ id == user_id
  ]

  unfoldable pub inquiry_where : Option ℕ → FilterInquiriesDto → ℕ → Inquiry → Bool
  inquiry_where user filters _ inquiry =
      is_inquiry_of user inquiry
      && passes filters.status (λ s. inquiry.status === s)
      && passes (filled filters.country) (λ c. str_eq inquiry.country (to_upper c))
      && passes filters.buyer_type (str_eq inquiry.buyer_type)
      && passes filters.from (λ from. leb from inquiry.created_at)
      && passes filters.to (λ to. leb inquiry.created_at to)

  abbrev inquiry_views : Bool → List (ℕ × Inquiry) → List (ℕ × Inquiry)
  inquiry_views notes [] = []
  inquiry_views notes ((id, inquiry) ∷ inquiries) =
      let rest = inquiry_views notes inquiries in
      (id, if notes then inquiry else to_buyer_inquiry inquiry) ∷ rest

  unfoldable pub find_inquiries : Option ℕ → FilterInquiriesDto → Bool → World → Page (ℕ × Inquiry)
  unfolding inquiry_where find_page
  find_inquiries user filters include_notes w =
      let page = find_page w.inquiries (inquiry_where user filters) 25 filters.pages in
      record {
        items = inquiry_views include_notes page.items;
        total = page.total;
        page = page.page;
        limit = page.limit;
        total_pages = page.total_pages;
      }
