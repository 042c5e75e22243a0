-- ===== src/Parts/Steps.antt =====
-- What each call of the parts service does to the table of parts.
use uza_mobility_bn.Base.{
  ℕ, ◌≡◌, refl, Bool, true, false, String, Option, none, some, arith, inl, inr, ◌⊎◌, Option-cases,
  Bool-cases, not, ◌&&◌, ◌||◌, ◌==◌,
}
use uza_mobility_bn.Base.Text.{◌===◌}
use uza_mobility_bn.Js.{Js}
use uza_mobility_bn.Db.{Prisma}
use uza_mobility_bn.Db.Histories.{TableChange, kept, added, moved, stepped, removed}
use uza_mobility_bn.Schema.Market.{PartStatus, part_status_enum, SellerStatus, seller_status_enum}
use uza_mobility_bn.Schema.MarketRows.{Part}
use uza_mobility_bn.Schema.World.{World}
use uza_mobility_bn.Api.{ApiError, ok, err, not_found, forbidden, bad_request}
use uza_mobility_bn.Api.Reads.{Reads}
use uza_mobility_bn.Platform.Slug.Tables.{unique_slug}
use uza_mobility_bn.Sellers.Profiles.{assert_seller_can_trade, seller_of_user}
use uza_mobility_bn.Parts.Writes.{
  create_part, create_for_seller, check_seller, admin_create_part, get_owned_part,
  announce_resubmission, update_own, delete_own, admin_update_part, admin_delete_part,
}
use uza_mobility_bn.Parts.Rows.{
  CreatePartPayload, UpdatePartPayload, new_part, as_resubmitted, as_edited, as_shown,
}
use uza_mobility_bn.Parts.Review.{
  as_approved_part, as_rejected_part, seller_of_part, notify_seller, admin_approve_part,
  admin_reject_part, admin_set_active,
}

module _ ⦃N : Js⦄ where
  -- A part that is shown was approved.
  abbrev pub IsReviewed : Part → Type 0
  IsReviewed part = (not part.is_active || part.status === PartStatus.approved) ≡ true

  abbrev pub IsHidden : Part → Type 0
  IsHidden part = part.is_active ≡ false

  -- Every change keeps it that a shown part was approved.
  abbrev pub Reviewing : Part → Part → Type 0
  Reviewing a b = IsReviewed a → IsReviewed b

  module _ ⦃P : Prisma⦄ where
    open P use {find_unique}

    abbrev pub PartsChange : World → World → Type 0
    PartsChange w w' = TableChange IsHidden Reviewing w.parts w'.parts

    trade-Reads : (user : ℕ) (w : World) → Reads (assert_seller_can_trade user) w
    unfolding assert_seller_can_trade
    trade-Reads user w = elim (Option-cases (seller_of_user user w)) [
      | inl n ↦ inl (not_found "Seller profile not found", ground (arith, n))
      | inr ((id, seller), f) ↦ elim (Bool-cases (seller.status === SellerStatus.suspended)) [
        | inl s ↦ inl (
          bad_request "Your seller account is suspended. Contact UZA support.",
          ground (arith, f, s),
        )
        | inr s ↦
            elim (Bool-cases
              (not (seller.status === SellerStatus.active) || not seller.is_verified)) [
                | inl a ↦ inl (
                  bad_request "Your seller account must be verified before you can manage listings",
                  ground (arith, f, s, a),
                )
                | inr a ↦ inr ((id, seller), ground (arith, f, s, a))
              ]
      ]
    ]

    seller-Reads : (seller : Option ℕ) (w : World) → Reads (check_seller seller) w
    unfolding check_seller
    seller-Reads none w = inr (tt, refl)
    seller-Reads (some id) w = elim (Option-cases (find_unique w.sellers id)) [
      | inl n ↦ inl (not_found "Seller not found", ground (arith, n))
      | inr (seller, f) ↦ inr (tt, ground (arith, f))
    ]

    -- An owned part is found in the table.
    owned_part-cases :
        (user part_id : ℕ) (w : World)
        → ((e : ApiError) × (get_owned_part user part_id w ≡ (err e, w)))
          ⊎ ((part : Part) × (get_owned_part user part_id w ≡ (ok part, w))
              × (find_unique w.parts part_id ≡ some part))
    unfolding get_owned_part
    owned_part-cases user part_id w = elim (Option-cases (seller_of_user user w)) [
      | inl n ↦ inl (forbidden "Seller profile is required", ground (arith, n))
      | inr ((id, seller), f) ↦ elim (Option-cases (find_unique w.parts part_id)) [
        | inl n ↦ inl (not_found "Part not found", ground (arith, f, n))
        | inr (part, p) ↦ elim (Option-cases part.seller_id) [
          | inl o ↦ inl (not_found "Part not found", ground (arith, f, p, o))
          | inr (owner, o) ↦ elim (Bool-cases (owner == id)) [
            | inl same ↦ inr (part, ground (arith, f, p, o, same), p)
            | inr other ↦ inl (not_found "Part not found", ground (arith, f, p, o, other))
          ]
        ]
      ]
    ]

    create-PartsChange :
        (seller : Option ℕ) (dto : CreatePartPayload) (w : World)
        → PartsChange w (create_part seller dto w).1
    unfolding create_part new_part
    create-PartsChange seller dto w =
        elim (Option-cases (unique_slug w.parts (λ r. r.slug) (λ id. false) dto.name)) [
          | inl n ↦ stepped (kept (ground (arith, n)))
          | inr (ok slug, s) ↦ stepped (added (new_part seller slug dto) refl (ground (arith, s)))
          | inr (err e, s) ↦ stepped (kept (ground (arith, s)))
        ]

    pub create_for_seller-PartsChange :
        (user : ℕ) (dto : CreatePartPayload) (w : World)
        → PartsChange w (create_for_seller user dto w).1
    unfolding create_for_seller create_part new_part
    create_for_seller-PartsChange user dto w = elim (trade-Reads user w) [
      | inl (e, t) ↦ stepped (kept (ground (arith, t)))
      | inr ((id, seller), t) ↦
          elim (Option-cases (unique_slug w.parts (λ r. r.slug) (λ id. false) dto.name)) [
            | inl n ↦ stepped (kept (ground (arith, t, n)))
            | inr (ok slug, s) ↦
                stepped (added (new_part (some id) slug dto) refl (ground (arith, t, s)))
            | inr (err e, s) ↦ stepped (kept (ground (arith, t, s)))
          ]
    ]

    pub admin_create-PartsChange :
        (seller : Option ℕ) (dto : CreatePartPayload) (w : World)
        → PartsChange w (admin_create_part seller dto w).1
    unfolding admin_create_part create_part new_part
    admin_create-PartsChange seller dto w = elim (seller-Reads seller w) [
      | inl (e, t) ↦ stepped (kept (ground (arith, t)))
      | inr (_, t) ↦
          elim (Option-cases (unique_slug w.parts (λ r. r.slug) (λ id. false) dto.name)) [
            | inl n ↦ stepped (kept (ground (arith, t, n)))
            | inr (ok slug, s) ↦
                stepped (added (new_part seller slug dto) refl (ground (arith, t, s)))
            | inr (err e, s) ↦ stepped (kept (ground (arith, t, s)))
          ]
    ]

    pub update_own-PartsChange :
        (user part_id : ℕ) (dto : UpdatePartPayload) (w : World)
        → PartsChange w (update_own user part_id dto w).1
    unfolding update_own announce_resubmission as_resubmitted
    update_own-PartsChange user part_id dto w = elim (trade-Reads user w) [
      | inl (e, t) ↦ stepped (kept (ground (arith, t)))
      | inr (_, t) ↦ elim (owned_part-cases user part_id w) [
        | inl (e, o) ↦ stepped (kept (ground (arith, t, o)))
        | inr (part, o, found) ↦
            elim (Bool-cases
              (part.status === PartStatus.pending_review || part.status === PartStatus.rejected)) [
                | inr s ↦ stepped (kept (ground (arith, t, o, s)))
                | inl s ↦ stepped (
                    moved part_id part (as_resubmitted dto) found (λ r. refl)
                      (ground (arith, t, o, s)))
              ]
      ]
    ]

    pub delete_own-PartsChange :
        (user part_id : ℕ) (w : World) → PartsChange w (delete_own user part_id w).1
    unfolding delete_own
    delete_own-PartsChange user part_id w = elim (trade-Reads user w) [
      | inl (e, t) ↦ stepped (kept (ground (arith, t)))
      | inr (_, t) ↦ elim (owned_part-cases user part_id w) [
        | inl (e, o) ↦ stepped (kept (ground (arith, t, o)))
        | inr (part, o, found) ↦
            stepped (moved part_id part (as_shown false) found (λ r. refl) (ground (arith, t, o)))
      ]
    ]

    module _ (part_id : ℕ) (w : World) where
      pub admin_update-PartsChange :
          (dto : UpdatePartPayload) (seller : Option ℕ)
          → PartsChange w (admin_update_part part_id dto seller w).1
      unfolding admin_update_part as_edited
      admin_update-PartsChange dto seller = elim (Option-cases (find_unique w.parts part_id)) [
        | inl n ↦ stepped (kept (ground (arith, n)))
        | inr (part, found) ↦ elim (seller-Reads seller w) [
          | inl (e, s) ↦ stepped (kept (ground (arith, found, s)))
          | inr (_, s) ↦
              stepped (
                moved part_id part (as_edited dto seller) found (λ r. r) (ground (arith, found, s)))
        ]
      ]

      pub delete-PartsChange : PartsChange w (admin_delete_part part_id w).1
      unfolding admin_delete_part
      delete-PartsChange = elim (Option-cases (find_unique w.parts part_id)) [
        | inl n ↦ stepped (kept (ground (arith, n)))
        | inr (part, found) ↦ removed (λ id _. id == part_id) (ground (arith, found))
      ]

      pub approve-PartsChange : PartsChange w (admin_approve_part part_id w).1
      unfolding admin_approve_part notify_seller
      approve-PartsChange = elim (Option-cases (find_unique w.parts part_id)) [
        | inl n ↦ stepped (kept (ground (arith, n)))
        | inr (part, found) ↦ elim (Bool-cases (part.status === PartStatus.pending_review)) [
          | inr s ↦ stepped (kept (ground (arith, found, s)))
          | inl s ↦ elim (Option-cases (seller_of_part part.seller_id w)) [
            | inl n ↦ stepped (
                moved part_id part as_approved_part found (λ r. refl) (ground (arith, found, s, n)))
            | inr (seller, n) ↦ stepped (
                moved part_id part as_approved_part found (λ r. refl) (ground (arith, found, s, n)))
          ]
        ]
      ]

      pub reject-PartsChange :
          (reason : String) → PartsChange w (admin_reject_part part_id reason w).1
      unfolding admin_reject_part notify_seller
      reject-PartsChange reason = elim (Option-cases (find_unique w.parts part_id)) [
        | inl n ↦ stepped (kept (ground (arith, n)))
        | inr (part, found) ↦ elim (Bool-cases (part.status === PartStatus.pending_review)) [
          | inr s ↦ stepped (kept (ground (arith, found, s)))
          | inl s ↦ elim (Option-cases (seller_of_part part.seller_id w)) [
            | inl n ↦ stepped (
                moved part_id part (as_rejected_part reason) found (λ r. refl)
                  (ground (arith, found, s, n)))
            | inr (seller, n) ↦ stepped (
                moved part_id part (as_rejected_part reason) found (λ r. refl)
                  (ground (arith, found, s, n)))
          ]
        ]
      ]

      pub set_active-PartsChange :
          (is_active : Bool) → PartsChange w (admin_set_active part_id is_active w).1
      unfolding admin_set_active
      set_active-PartsChange is_active = elim (Option-cases (find_unique w.parts part_id)) [
        | inl n ↦ stepped (kept (ground (arith, n)))
        | inr (part, found) ↦
            elim (Bool-cases (is_active && not (part.status === PartStatus.approved))) [
              | inl s ↦ stepped (kept (ground (arith, found, s)))
              | inr s ↦ stepped (
                  moved part_id part (as_shown is_active) found (λ r. ground (arith, s))
                    (ground (arith, found, s)))
            ]
      ]
