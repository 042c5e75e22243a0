-- ===== src/Parts/Shown.antt =====
-- The public sees approved parts alone, through every history of calls.
use uza_mobility_bn.Base.{
  ℕ, ◌≡◌, Bool, true, String, Option, List, [], ◌∷◌, arith, inl, inr, All, Option-cases, Bool-cases,
}
use uza_mobility_bn.Base.Text.{◌===◌}
use uza_mobility_bn.Js.{Js}
use uza_mobility_bn.Db.{Prisma, PrismaLaws}
use uza_mobility_bn.Db.Histories.{EveryRow, History, change-EveryRow, History-keeps}
use uza_mobility_bn.Schema.Market.{PartStatus, part_status_enum}
use uza_mobility_bn.Schema.MarketRows.{Part}
use uza_mobility_bn.Schema.World.{World}
use uza_mobility_bn.Parts.Writes.{
  create_for_seller, admin_create_part, update_own, delete_own, admin_update_part,
  admin_delete_part,
}
use uza_mobility_bn.Parts.Rows.{CreatePartPayload, UpdatePartPayload, PartView, to_public_part}
use uza_mobility_bn.Parts.Review.{admin_approve_part, admin_reject_part, admin_set_active}
use uza_mobility_bn.Base.Alls.{All-skip, All-take, All-imp}
use uza_mobility_bn.Platform.Pages.{find_page}
use uza_mobility_bn.Parts.Browse.{
  FilterPartsDto, status_passes, part_where, views, find_parts, browse_parts,
}
use uza_mobility_bn.Parts.Steps.{
  IsReviewed, PartsChange, create_for_seller-PartsChange, admin_create-PartsChange,
  update_own-PartsChange, delete_own-PartsChange, admin_update-PartsChange, delete-PartsChange,
  approve-PartsChange, reject-PartsChange, set_active-PartsChange,
}

module _ ⦃N : Js⦄ ⦃P : Prisma⦄ where
  pub data PartCall : Type 0 where
    create : ℕ → CreatePartPayload → PartCall
    admin_create : Option ℕ → CreatePartPayload → PartCall
    edit : ℕ → ℕ → UpdatePartPayload → PartCall
    hide : ℕ → ℕ → PartCall
    admin_edit : ℕ → UpdatePartPayload → Option ℕ → PartCall
    admin_delete approve : ℕ → PartCall
    turn_down : ℕ → String → PartCall
    set_active : ℕ → Bool → PartCall

  unfoldable pub run_part_call : PartCall → World → World
  run_part_call (create user dto) w = (create_for_seller user dto w).1
  run_part_call (admin_create seller dto) w = (admin_create_part seller dto w).1
  run_part_call (edit user id dto) w = (update_own user id dto w).1
  run_part_call (hide user id) w = (delete_own user id w).1
  run_part_call (admin_edit id dto seller) w = (admin_update_part id dto seller w).1
  run_part_call (admin_delete id) w = (admin_delete_part id w).1
  run_part_call (approve id) w = (admin_approve_part id w).1
  run_part_call (turn_down id reason) w = (admin_reject_part id reason w).1
  run_part_call (set_active id is_active) w = (admin_set_active id is_active w).1

  part_call-PartsChange : (c : PartCall) (w : World) → PartsChange w (run_part_call c w)
  unfolding run_part_call
  part_call-PartsChange (create user dto) w = create_for_seller-PartsChange user dto w
  part_call-PartsChange (admin_create seller dto) w = admin_create-PartsChange seller dto w
  part_call-PartsChange (edit user id dto) w = update_own-PartsChange user id dto w
  part_call-PartsChange (hide user id) w = delete_own-PartsChange user id w
  part_call-PartsChange (admin_edit id dto seller) w = admin_update-PartsChange id w dto seller
  part_call-PartsChange (admin_delete id) w = delete-PartsChange id w
  part_call-PartsChange (approve id) w = approve-PartsChange id w
  part_call-PartsChange (turn_down id reason) w = reject-PartsChange id w reason
  part_call-PartsChange (set_active id is_active) w = set_active-PartsChange id w is_active

  module _ ⦃L : PrismaLaws⦄ where
    -- Through every history of the calls of sellers and administrators on parts, in any order, with
    -- anything between them that leaves the parts alone: where every active part at the start was
    -- approved, every active part is approved.
    pub active_parts-IsReviewed :
        {start w : World}
        → EveryRow IsReviewed start.parts
        → History run_part_call (λ x. x.parts) start w
        → EveryRow IsReviewed w.parts
    active_parts-IsReviewed every h =
        History-keeps
          (λ c x.
            change-EveryRow (λ r hidden. ground (arith, hidden)) (λ a b keeps. keeps)
              (part_call-PartsChange c x))
          every h

    pub Approved : ℕ × PartView → Type 0
    Approved e = (e.1.part.status === PartStatus.approved) ≡ true

    views-Approved :
        (es : List (ℕ × Part))
        → All (λ e. (e.1.status === PartStatus.approved) ≡ true) es
        → All Approved (views es)
    unfolding Approved to_public_part
    views-Approved [] a = tt
    views-Approved ((id, part) ∷ es) (h, a) = (h, views-Approved es a)

    -- A reviewed part that passes the public test is approved, whatever the filters ask.
    public-approved :
        (filters : FilterPartsDto) (id : ℕ) (part : Part)
        → IsReviewed part
        → part_where filters true id part ≡ true
        → (part.status === PartStatus.approved) ≡ true
    unfolding part_where status_passes
    public-approved filters id part reviewed holds =
        elim (Bool-cases (status_passes filters true part)) [
          | inr n ↦ absurd (ground (arith, holds, n))
          | inl h ↦ elim (Bool-cases part.is_active) [
            | inl a ↦ ground (arith, reviewed, a)
            | inr a ↦ elim (Option-cases filters.status) [
              | inl o ↦ absurd (ground (arith, h, a, o))
              | inr (status, o) ↦ absurd (ground (arith, h, a, o))
            ]
          ]
        ]

    -- Where every active part was approved, the public list shows approved parts alone, also for
    -- filters that ask for another status.
    pub browse_shows-Approved :
        (filters : FilterPartsDto) (w : World)
        → EveryRow IsReviewed w.parts
        → All Approved (browse_parts filters w).items
    unfolding browse_parts find_parts find_page
    browse_shows-Approved filters w every =
        let shown = P.find_newest w.parts (part_where filters true) in
        let approved =
          All-imp (λ e. (e.1.status === PartStatus.approved) ≡ true) shown
            (λ e h. public-approved filters e.0 e.1 (every e.0 e.1 h.0) h.1)
            (L.find_newest-sound w.parts (part_where filters true)) in
        views-Approved _ (All-take _ _ _ (All-skip _ _ shown approved))
