-- ===== src/Parts/Browse.antt =====
-- src/modules/parts/parts.service.ts: `buildWhere`, `findPaginated`, `browse`, `adminFindAll`, `findById`.
use uza_mobility_bn.Base.{
  ℕ, Bool, true, false, Option, none, some, String, List, [], ◌∷◌, not, ◌&&◌, ◌||◌, ltb, any, ◌==◌,
}
use uza_mobility_bn.Base.Text.{◌===◌}
use uza_mobility_bn.Js.{Js}
use uza_mobility_bn.Db.{Prisma}
use uza_mobility_bn.Schema.Market.{PartStatus, part_status_enum}
use uza_mobility_bn.Schema.MarketRows.{Part}
use uza_mobility_bn.Schema.World.{World}
use uza_mobility_bn.Api.{Action, not_found, ◌>>=◌, pure, gets, require}
use uza_mobility_bn.Platform.Pages.{PageQuery, Page, find_page, passes}
use uza_mobility_bn.Platform.Settings.{filled}
use uza_mobility_bn.Parts.Rows.{PartView, to_public_part}
use text.Mathlib.Text.{◌==◌ as str_eq}

module _ ⦃N : Js⦄ where
  open N use {Num, le}

  pub record FilterPartsDto : Type 0 where
    pub status : Option PartStatus
    pub q : Option String
    pub category : Option String
    pub brand : Option String
    pub model : Option String
    pub condition : Option String
    pub price_min : Option Num
    pub price_max : Option Num
    pub in_stock : Bool
    pub pages : PageQuery

  module _ ⦃P : Prisma⦄ where
    open P use {contains, find_first}

    abbrev pub is_public_part : Part → Bool
    is_public_part part = part.is_active && part.status === PartStatus.approved

    -- The status of the filter takes the place of the public one.
    unfoldable pub status_passes : FilterPartsDto → Bool → Part → Bool
    status_passes filters public_only part = elim filters.status [
      | some status ↦ (not public_only || part.is_active) && part.status === status
      | none ↦ not public_only || is_public_part part
    ]

    text_passes : String → Part → Bool
    text_passes q part =
        contains part.name q || elim part.description [ none ↦ false | some d ↦ contains d q ]

    unfoldable pub part_where : FilterPartsDto → Bool → ℕ → Part → Bool
    unfolding status_passes text_passes
    part_where filters public_only _ part =
        status_passes filters public_only part
        && passes (filled filters.q) (λ q. text_passes q part)
        && passes (filled filters.category) (str_eq part.category_slug)
        && passes (filled filters.brand) (λ brand. any (str_eq brand) part.compatible_brands)
        && passes (filled filters.model) (λ model. any (str_eq model) part.compatible_models)
        && passes filters.condition (str_eq part.condition)
        && passes filters.price_min (λ low. le low part.price_usd)
        && passes filters.price_max (λ high. le part.price_usd high)
        && (not filters.in_stock || ltb 0 part.stock_quantity)

    abbrev pub views : List (ℕ × Part) → List (ℕ × PartView)
    views [] = []
    views ((id, part) ∷ parts) = (id, to_public_part part) ∷ views parts

    unfoldable pub find_parts : FilterPartsDto → Bool → World → Page (ℕ × PartView)
    unfolding find_page part_where
    find_parts filters public_only w =
        let page = find_page w.parts (part_where filters public_only) 24 filters.pages in
        record {
          items = views page.items;
          total = page.total;
          page = page.page;
          limit = page.limit;
          total_pages = page.total_pages;
        }

    unfoldable pub browse_parts : FilterPartsDto → World → Page (ℕ × PartView)
    unfolding find_parts
    browse_parts filters w = find_parts filters true w

    unfoldable pub admin_find_parts : FilterPartsDto → World → Page (ℕ × PartView)
    unfolding find_parts
    admin_find_parts filters w = find_parts filters false w

    unfoldable pub find_part_by_id : ℕ → Action World PartView
    unfolding to_public_part
    find_part_by_id part_id = do
      found ← gets (λ w. find_first w.parts (λ id part. id == part_id && is_public_part part))
      (_, part) ← require found (not_found "Part not found")
      pure (to_public_part part)
