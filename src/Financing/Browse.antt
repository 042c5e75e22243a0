-- ===== src/Financing/Browse.antt =====
-- src/modules/financing/financing.service.ts: `findMine`, `findAllAdmin`.
use uza_mobility_bn.Base.{
  ℕ, Bool, false, Option, none, some, String, List, [], ◌∷◌, ◌&&◌, ◌||◌, ◌==◌,
}
use uza_mobility_bn.Base.Text.{◌===◌}
use uza_mobility_bn.Js.{Js}
use uza_mobility_bn.Db.{Prisma}
use uza_mobility_bn.Schema.Requests.{FinancingStatus, financing_status_enum}
use uza_mobility_bn.Schema.RequestRows.{FinancingRequest}
use uza_mobility_bn.Schema.World.{World}
use uza_mobility_bn.Platform.Pages.{PageQuery, Page, find_page, passes}
use uza_mobility_bn.Platform.Settings.{filled}
use uza_mobility_bn.Financing.Requests.{to_buyer_response}

pub record FilterFinancingDto : Type 0 where
  pub status : Option FinancingStatus
  pub search : Option String
  pub pages : PageQuery

module _ ⦃N : Js⦄ ⦃P : Prisma⦄ where
  open P use {contains, find_newest}

  text_passes : String → FinancingRequest → Bool
  text_passes q request =
      contains request.buyer_name q
      || contains request.phone q
      || elim request.organization_name [ none ↦ false | some name ↦ contains name q ]

  unfoldable pub financing_where : FilterFinancingDto → ℕ → FinancingRequest → Bool
  unfolding text_passes
  financing_where filters _ request =
      passes filters.status (λ status. request.status === status)
      && passes (filled filters.search) (λ q. text_passes q request)

  unfoldable pub find_all_financing : FilterFinancingDto → World → Page (ℕ × FinancingRequest)
  unfolding financing_where find_page
  find_all_financing filters w =
      find_page w.financing_requests (financing_where filters) 25 filters.pages

  abbrev responses : List (ℕ × FinancingRequest) → List (ℕ × (FinancingRequest × String))
  responses [] = []
  responses ((id, request) ∷ requests) = (id, to_buyer_response request) ∷ responses requests

  unfoldable pub find_my_financing : ℕ → World → List (ℕ × (FinancingRequest × String))
  find_my_financing user_id w =
      responses (find_newest w.financing_requests (λ _ r. r.user_id == user_id))
