-- ===== src/Tests/Market.antt =====
-- The theorems on stations, dealers, parts, pages and slugs at concrete data.
use uza_mobility_bn.Base.{
  ℕ, ◌≡◌, ◌≢◌, ◌≤◌, ◌⊎◌, refl, sym, ◌∙◌, String, true, false, Option, none, some, List, [], ◌∷◌,
  All, length, arith,
}
use text.Mathlib.TextLemmas.{cons-ne-nil}
use uza_mobility_bn.Api.{ok}
use uza_mobility_bn.Db.Histories.{EveryRow, begin, call}
use uza_mobility_bn.Schema.Catalog.{StationStatus, ListingStatus}
use uza_mobility_bn.Schema.Market.{PartStatus, SellerStatus}
use uza_mobility_bn.Schema.StationRows.{ChargingStation}
use uza_mobility_bn.Schema.World.{World}
use uza_mobility_bn.ChargingStations.Steps.Paths.{
  StationCall, turn_down, approve, run_station_call, IsUnapproved, StatusChain,
  stations_stay-IsUnapproved, stations-Chain,
}
use uza_mobility_bn.Sellers.Moderation.{suspend_seller, reactivate_seller}
use uza_mobility_bn.Sellers.Standing.{
  SellerCall, suspend, reactivate, run_seller_call, IsInOrder, sellers-IsInOrder,
  reactivated_unverified,
}
use uza_mobility_bn.Parts.Browse.{FilterPartsDto, browse_parts}
use uza_mobility_bn.Parts.Steps.{IsReviewed}
use uza_mobility_bn.Parts.Shown.{
  hide, Approved, run_part_call, active_parts-IsReviewed, browse_shows-Approved,
}
use uza_mobility_bn.Platform.Pages.{find_page}
use uza_mobility_bn.Platform.Pages.Cover.{joined, pages_cover}
use uza_mobility_bn.Platform.Slug.{
  slugify_text, runs_to_dash, is_space, keep_chars, is_slug_char, drop_last_dash, drop_first_dash,
  candidate,
}
use uza_mobility_bn.Platform.Slug.Shape.{is_slug_from, slugify-slug}
use uza_mobility_bn.Categories.Deletion.{DeletionOutcome, hard_delete-cases}
use uza_mobility_bn.Schema.RequestRows.{Category}
use uza_mobility_bn.Platform.Slug.Tables.{unique_slug, unique_slug_lem}
use uza_mobility_bn.Tests.Natural.{natural, natural_laws}
use uza_mobility_bn.Tests.Memory.{memory, memory_laws}
use uza_mobility_bn.Tests.Stored.{stored}
use uza_mobility_bn.Tests.Data.{context, dealer, car}
use uza_mobility_bn.Tests.Rows.{one_row, shop, station, part}

-- A station in review, which an administrator turns down, and then tries to approve.
abbrev in_review : World
in_review = record shop { charging_stations = stored (station StationStatus.pending_review ∷ []) }

abbrev refuse : StationCall
refuse = turn_down 0 7 (some "blurred photos") context

abbrev tried : World
tried = run_station_call (approve 0 7 context) (run_station_call refuse in_review)

stations_stay-IsUnapproved_example : EveryRow IsUnapproved tried.charging_stations
stations_stay-IsUnapproved_example =
    stations_stay-IsUnapproved (one_row IsUnapproved (station StationStatus.pending_review) refl)
      (call (call begin refuse) (approve 0 7 context))

stations-Chain_example :
    (r : ChargingStation) × (memory.find_unique tried.charging_stations 0 ≡ some r)
    × StatusChain (station StationStatus.pending_review) r
stations-Chain_example =
    stations-Chain 0 (station StationStatus.pending_review) refl
      (call (call begin refuse) (approve 0 7 context))

-- A verified dealer, who is suspended.
abbrev suspension : SellerCall
suspension = suspend 0 7 none context

sellers-IsInOrder_example :
    EveryRow IsInOrder
      (run_seller_call (reactivate 0 7 context) (run_seller_call suspension shop)).sellers
sellers-IsInOrder_example =
    sellers-IsInOrder (one_row IsInOrder (dealer SellerStatus.active true) refl)
      (call (call begin suspension) (reactivate 0 7 context))

reactivated_unverified_example :
    memory.find_unique
      (reactivate_seller 0 7 context (suspend_seller 0 7 none context shop).1).1.sellers
      0
    ≡ some (dealer SellerStatus.active false)
unfolding suspend_seller reactivate_seller
reactivated_unverified_example = reactivated_unverified 0 7 none context shop refl refl refl

-- An approved part that is shown.
abbrev shelf : World
shelf = record shop { parts = stored (part PartStatus.approved true ∷ []) }

active_parts-IsReviewed_example : EveryRow IsReviewed (run_part_call (hide 0 0) shelf).parts
active_parts-IsReviewed_example =
    active_parts-IsReviewed (one_row IsReviewed (part PartStatus.approved true) refl)
      (call begin (hide 0 0))

-- The filters of a visitor who asks for the parts in review.
abbrev in_review_only : FilterPartsDto
in_review_only = record {
  status = some PartStatus.pending_review;
  q = none;
  category = none;
  brand = none;
  model = none;
  condition = none;
  price_min = none;
  price_max = none;
  in_stock = false;
  pages = record { page = none; limit = none };
}

browse_shows-Approved_example : All Approved (browse_parts in_review_only shelf).items
browse_shows-Approved_example =
    browse_shows-Approved in_review_only shelf
      (one_row IsReviewed (part PartStatus.approved true) refl)

-- Three names, on pages of two.
abbrev names : List (Option String)
names = stored ("a" ∷ "b" ∷ "c" ∷ [])

pages_cover_example :
    (joined
        (λ k. (find_page names (λ id r. true) 24 (record { page = some k; limit = some 2 })).items)
        (find_page names (λ id r. true) 24 (record { page = some 1; limit = some 2 })).total_pages
      ≡ memory.find_newest names (λ id r. true))
    × ((k : ℕ)
        → length
            (find_page names (λ id r. true) 24 (record { page = some k; limit = some 2 })).items
          ≤ 2)
pages_cover_example = pages_cover names (λ id r. true) 24 2 (omega arith)

slug_of_a : slugify_text "a" ≡ "a"
unfolding slugify_text runs_to_dash is_space keep_chars is_slug_char drop_last_dash drop_first_dash
slug_of_a = refl

filled : slugify_text "a" ≢ ""
filled e = cons-ne-nil "a" "" (sym slug_of_a ∙ e)

unique_slug_lem_example :
    (k : ℕ) × (unique_slug names (λ s. s) (λ id. false) "a"
      ≡ some (ok (candidate (slugify_text "a") k)))
    × ((id : ℕ) (r : String)
        → memory.find_unique names id ≡ some r
        → false ≡ false
        → r ≢ candidate (slugify_text "a") k)
unique_slug_lem_example = unique_slug_lem names (λ s. s) (λ id. false) "a" filled

slugify-slug_example :
    (slugify_text "Kigali  ÉV-" ≡ "") ⊎ (is_slug_from true (slugify_text "Kigali  ÉV-") ≡ true)
slugify-slug_example = slugify-slug "Kigali  ÉV-"

abbrev named : String → Category
named name = record {
  name = name;
  slug = name;
  kind = "CAR";
  description = none;
  icon_url = none;
  display_order = 0;
  is_active = true;
}

-- Two categories: the car is of the first.
abbrev sorted : World
sorted = record shop { categories = stored (named "cars" ∷ named "vans" ∷ []) }

-- The car, of the first category, in a subcategory of the second.
abbrev crossed : World
crossed = record sorted {
  subcategories = stored (
      record {
        category_id = 1;
        name = "Small";
        slug = "small";
        description = none;
        icon_url = none;
        display_order = 0;
        is_active = true;
      }
      ∷ []);
  listings = stored (record (car ListingStatus.published) { subcategory_id = some 0 } ∷ []);
}

hard_delete-cases_example : DeletionOutcome 1 crossed
hard_delete-cases_example = hard_delete-cases 1 crossed
