-- ===== src/Inquiries/Requests.antt =====
-- src/modules/inquiries/inquiries.service.ts: `submit`, `adminUpdateStatus`, `linkInquiriesToUser`,
-- `adminFindOne`. The quote's PDF and the e-mail leave no trace in the tables that are modelled.
use uza_mobility_bn.Base.{
  ℕ, Bool, Option, none, some, String, [], ◌∷◌, not, ◌&&◌, is_some, get_or, if◌then◌else◌,
}
use uza_mobility_bn.Base.Text.{◌<>◌, ◌===◌, name_of}
use uza_mobility_bn.Js.{Js}
use uza_mobility_bn.Db.{Prisma}
use uza_mobility_bn.Db.Columns.{given_option}
use uza_mobility_bn.Schema.Catalog.{ListingStatus, listing_status_enum}
use uza_mobility_bn.Schema.Market.{
  InquiryStatus, inquiry_status_enum, InquiryIntent, inquiry_intent_enum,
}
use uza_mobility_bn.Schema.Requests.{NotificationType}
use uza_mobility_bn.Schema.Rows.{Listing, Json}
use uza_mobility_bn.Schema.MarketRows.{Inquiry}
use uza_mobility_bn.Schema.World.{World}
use uza_mobility_bn.Api.{Action, ok, not_found, ◌>>=◌, ◌>>◌, pure, gets, modify, require}
use uza_mobility_bn.Platform.Notifications.{Message, send, send_to_role_names}
use uza_mobility_bn.Platform.Reference.{uzm_quo, generate_reference_number}
use uza_mobility_bn.Platform.Settings.{trimmed}
use text.Mathlib.Text.{◌==◌ as str_eq}

pub record CreateInquiryDto : Type 0 where
  pub listing_id : ℕ
  pub intent : Option InquiryIntent
  pub name : String
  pub phone : String
  pub email : String
  pub country : String
  pub buyer_type : String
  pub message : Option String

pub record UpdateInquiryStatusDto : Type 0 where
  pub status : InquiryStatus
  pub internal_notes : Option String

-- The answer to a visitor.
pub record SubmittedInquiry : Type 0 where
  pub id : ℕ
  pub quote_number : String
  pub email : String
  pub listing_slug : String
  pub intent : InquiryIntent
  pub message : String

abbrev pub with_inquiry_status : UpdateInquiryStatusDto → Inquiry → Inquiry
with_inquiry_status dto inquiry = record inquiry {
  status = dto.status;
  internal_notes = given_option dto.internal_notes inquiry.internal_notes;
}

abbrev pub linked_to : ℕ → Inquiry → Inquiry
linked_to user_id inquiry = record inquiry { user_id = some user_id }

submitted_message : InquiryIntent → String
submitted_message InquiryIntent.buy =
    "Your purchase request has been received. Check your email for price and payment details."
submitted_message InquiryIntent.book =
    "Your booking request has been received. Check your email for your quote and booking fee."

intent_label : InquiryIntent → String
intent_label InquiryIntent.buy = "purchase"
intent_label InquiryIntent.book = "booking"

intent_title : InquiryIntent → String
intent_title InquiryIntent.buy = "Purchase"
intent_title InquiryIntent.book = "Booking"

-- `toBuyerInquiry`: a key that is taken away is `none`.
unfoldable pub to_buyer_inquiry : Inquiry → Inquiry
to_buyer_inquiry inquiry = record inquiry { internal_notes = none }

module _ ⦃N : Js⦄ where
  open N use {trim, to_lower, to_upper}

  -- `reference` is the end of the listing's id, which the default message shows.
  default_message : CreateInquiryDto → InquiryIntent → Listing → String → String
  unfolding intent_title
  default_message dto intent listing reference = get_or (trimmed dto.message) (
      intent_title intent
      <> " inquiry for "
      <> listing.listing_title
      <> " (ref "
      <> to_upper reference
      <> ")")

  unfoldable pub new_inquiry : String → CreateInquiryDto → InquiryIntent → String → ℕ → Inquiry
  new_inquiry quote_number dto intent message now = record {
    quote_number = quote_number;
    user_id = none;
    listing_id = some dto.listing_id;
    intent = intent;
    name = trim dto.name;
    phone = trim dto.phone;
    email = to_lower (trim dto.email);
    country = to_upper dto.country;
    buyer_type = dto.buyer_type;
    message = some message;
    status = InquiryStatus.received;
    internal_notes = none;
    created_at = now;
  }

  inquiry_received : ℕ → ℕ → Inquiry → String → Message
  unfolding intent_label
  inquiry_received inquiry_id listing_id inquiry listing_title = record {
    kind = NotificationType.system_alert;
    title = "New vehicle " <> intent_label inquiry.intent <> " inquiry";
    body =
        inquiry.name
        <> " submitted a "
        <> intent_label inquiry.intent
        <> " inquiry for "
        <> listing_title
        <> ". Quote "
        <> inquiry.quote_number
        <> ".";
    metadata =
        ("inquiryId", Json.id inquiry_id)
        ∷ ("listingId", Json.id listing_id)
        ∷ ("quoteNumber", Json.text inquiry.quote_number)
        ∷ [];
  }

  status_words : InquiryStatus → String
  status_words status = to_lower (name_of status)

  inquiry_updated : ℕ → String → InquiryStatus → Message
  unfolding status_words
  inquiry_updated inquiry_id quote_number status = record {
    kind = NotificationType.system_alert;
    title = "Inquiry update";
    body = "Your inquiry " <> quote_number <> " is now " <> status_words status <> ".";
    metadata = ("inquiryId", Json.id inquiry_id) ∷ ("status", Json.text (name_of status)) ∷ [];
  }

  module _ ⦃P : Prisma⦄ where
    open P use {find_unique, insert, update, update_many, new_id}

    -- `listing.findFirst({ where: { id, status: PUBLISHED, deletedAt: null } })`
    abbrev pub open_listing : ℕ → World → Option Listing
    open_listing listing_id w = elim (find_unique w.listings listing_id) [
      | none ↦ none
      | some listing ↦
          if listing.status === ListingStatus.published && not (is_some listing.deleted_at)
          then some listing
          else none
    ]

    -- `reference_of` is `id.slice(-8)`.
    unfoldable pub submit_inquiry : (ℕ → String) → CreateInquiryDto → Action World SubmittedInquiry
    unfolding default_message new_inquiry inquiry_received send_to_role_names submitted_message
    submit_inquiry reference_of dto = do
      found ← gets (open_listing dto.listing_id)
      listing ← require found (not_found "Published listing not found")
      quote_number ← gets (λ w. generate_reference_number w uzm_quo)
      let intent = get_or dto.intent InquiryIntent.book
      let message = default_message dto intent listing (reference_of dto.listing_id)
      inquiry_id ← gets (λ w. new_id w.inquiries)
      now ← gets (λ w. w.now)
      modify (λ w. record w {
        inquiries = insert w.inquiries (new_inquiry quote_number dto intent message now);
      })
      send_to_role_names ("SALES_AGENT" ∷ "SUPER_ADMIN" ∷ "MARKETPLACE_ADMIN" ∷ []) (
          inquiry_received inquiry_id dto.listing_id
            (new_inquiry quote_number dto intent message now) listing.listing_title)
      pure (record {
        id = inquiry_id;
        quote_number = quote_number;
        email = to_lower (trim dto.email);
        listing_slug = listing.slug;
        intent = intent;
        message = submitted_message intent;
      })

    unfoldable pub notify_inquirer : Option ℕ → Message → Action World (Unit {0})
    unfolding send
    notify_inquirer none m = pure tt
    notify_inquirer (some user_id) m = send user_id m

    unfoldable pub admin_update_inquiry : ℕ → UpdateInquiryStatusDto → Action World Inquiry
    unfolding notify_inquirer inquiry_updated
    admin_update_inquiry inquiry_id dto = do
      found ← gets (λ w. find_unique w.inquiries inquiry_id)
      existing ← require found (not_found "Inquiry not found")
      modify (λ w. record w { inquiries = update w.inquiries inquiry_id (with_inquiry_status dto) })
      notify_inquirer existing.user_id (inquiry_updated inquiry_id existing.quote_number dto.status)
      pure (with_inquiry_status dto existing)

    abbrev pub is_unlinked : String → ℕ → Inquiry → Bool
    is_unlinked email _ inquiry = str_eq inquiry.email email && not (is_some inquiry.user_id)

    unfoldable pub link_inquiries_to_user : ℕ → String → Action World (Unit {0})
    link_inquiries_to_user user_id email w = (
      ok tt,
      record w {
        inquiries =
            update_many w.inquiries (is_unlinked (to_lower (trim email))) (linked_to user_id);
      },
    )
