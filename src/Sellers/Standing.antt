-- ===== src/Sellers/Standing.antt =====
-- The standing of a dealer through every history of the administrators' calls.
use uza_mobility_bn.Base.{
  ℕ, ◌≡◌, refl, true, false, String, Option, some, arith, inl, inr, Option-cases, Bool-cases, not,
  ◌||◌, ==_refl,
}
use uza_mobility_bn.Base.Text.{◌===◌}
use uza_mobility_bn.Js.{Js}
use uza_mobility_bn.Db.{Prisma, PrismaLaws}
use uza_mobility_bn.Db.Histories.{TableStep, kept, moved, EveryRow, History, History-EveryRow}
use uza_mobility_bn.Schema.Catalog.{seller_type_enum}
use uza_mobility_bn.Schema.Market.{SellerStatus, seller_status_enum}
use uza_mobility_bn.Schema.Rows.{Seller}
use uza_mobility_bn.Schema.World.{World}
use uza_mobility_bn.Api.{ok}
use uza_mobility_bn.Platform.Audit.{RequestAuditContext}
use uza_mobility_bn.Sellers.Profiles.{is_marketplace_seller_type}
use uza_mobility_bn.Sellers.Moderation.{
  as_verified, as_suspended, as_reactivated, seller_role_exists, grant_seller_role, verify_seller,
  suspend_seller, reactivate_seller,
}

-- A verified dealer is active.
abbrev pub IsInOrder : Seller → Type 0
IsInOrder seller = (not seller.is_verified || seller.status === SellerStatus.active) ≡ true

abbrev Keeps : Seller → Seller → Type 0
Keeps a b = IsInOrder a → IsInOrder b

abbrev Nobody : Seller → Type 0
Nobody seller = ⊥

module _ ⦃N : Js⦄ ⦃P : Prisma⦄ where
  open P use {find_unique}

  pub data SellerCall : Type 0 where
    verify reactivate : ℕ → ℕ → RequestAuditContext → SellerCall
    suspend : ℕ → ℕ → Option String → RequestAuditContext → SellerCall

  unfoldable pub run_seller_call : SellerCall → World → World
  run_seller_call (verify id admin ctx) w = (verify_seller id admin ctx w).1
  run_seller_call (reactivate id admin ctx) w = (reactivate_seller id admin ctx w).1
  run_seller_call (suspend id admin reason ctx) w = (suspend_seller id admin reason ctx w).1

  seller-TableStep :
      (c : SellerCall) (w : World) → TableStep Nobody Keeps w.sellers (run_seller_call c w).sellers
  unfolding run_seller_call verify_seller suspend_seller reactivate_seller grant_seller_role
  seller-TableStep (verify id admin ctx) w = elim (Option-cases (find_unique w.sellers id)) [
    | inl n ↦ kept (ground (arith, n))
    | inr (seller, found) ↦ elim (Bool-cases (is_marketplace_seller_type seller.seller_type)) [
      | inr m ↦ kept (ground (arith, found, m))
      | inl m ↦ elim (Bool-cases (seller.status === SellerStatus.suspended)) [
        | inl s ↦ kept (ground (arith, found, m, s))
        | inr s ↦ elim (Bool-cases (seller_role_exists w)) [
          | inl r ↦
              moved id seller (as_verified w.now) found (λ h. refl) (ground (arith, found, m, s, r))
          | inr r ↦
              moved id seller (as_verified w.now) found (λ h. refl) (ground (arith, found, m, s, r))
        ]
      ]
    ]
  ]
  seller-TableStep (suspend id admin reason ctx) w =
      elim (Option-cases (find_unique w.sellers id)) [
        | inl n ↦ kept (ground (arith, n))
        | inr (seller, found) ↦ elim (Bool-cases (is_marketplace_seller_type seller.seller_type)) [
          | inr m ↦ kept (ground (arith, found, m))
          | inl m ↦ elim (Bool-cases (seller.status === SellerStatus.suspended)) [
            | inl s ↦ kept (ground (arith, found, m, s))
            | inr s ↦ moved id seller as_suspended found (λ h. refl) (ground (arith, found, m, s))
          ]
        ]
      ]
  seller-TableStep (reactivate id admin ctx) w = elim (Option-cases (find_unique w.sellers id)) [
    | inl n ↦ kept (ground (arith, n))
    | inr (seller, found) ↦ elim (Bool-cases (is_marketplace_seller_type seller.seller_type)) [
      | inr m ↦ kept (ground (arith, found, m))
      | inl m ↦ elim (Bool-cases (seller.status === SellerStatus.suspended)) [
        | inr s ↦ kept (ground (arith, found, m, s))
        | inl s ↦
            moved id seller (as_reactivated seller.is_verified) found (λ h. ground arith)
              (ground (arith, found, m, s))
      ]
    ]
  ]

  module _ ⦃L : PrismaLaws⦄ where
    open L use {find-update}

    -- Through every history of verifications, suspensions and reactivations, in any order, with
    -- anything between them that leaves the sellers alone: where every verified seller at the start
    -- was active, every verified seller is active.
    pub sellers-IsInOrder :
        {start w : World}
        → EveryRow IsInOrder start.sellers
        → History run_seller_call (λ x. x.sellers) start w
        → EveryRow IsInOrder w.sellers
    sellers-IsInOrder every h =
        History-EveryRow seller-TableStep (λ r nobody. absurd nobody) (λ a b keeps. keeps) every h

    -- A dealer who is suspended and then reactivated, where both calls return, is active and not
    -- verified, whatever the dealer was before.
    pub reactivated_unverified :
        (id admin : ℕ) (reason : Option String) (ctx : RequestAuditContext) (w : World)
        {seller suspended reactivated : Seller}
        → find_unique w.sellers id ≡ some seller
        → (suspend_seller id admin reason ctx w).0 ≡ ok suspended
        → (reactivate_seller id admin ctx (suspend_seller id admin reason ctx w).1).0
          ≡ ok reactivated
        → find_unique
            (reactivate_seller id admin ctx (suspend_seller id admin reason ctx w).1).1.sellers
            id
          ≡ some (record seller { status = SellerStatus.active; is_verified = false })
    unfolding suspend_seller reactivate_seller
    reactivated_unverified id admin reason ctx w {seller} found s r =
        elim (Bool-cases (is_marketplace_seller_type seller.seller_type)) [
          | inr m ↦ absurd (ground (arith, found, m, s))
          | inl m ↦ elim (Bool-cases (seller.status === SellerStatus.suspended)) [
            | inl b ↦ absurd (ground (arith, found, m, b, s))
            | inr b ↦
                let between : find_unique (P.update w.sellers id as_suspended) id
                    ≡ some (as_suspended seller) =
                  rw (find-update, ==_refl id, found) refl in
                let after : find_unique
                      (P.update (P.update w.sellers id as_suspended) id (as_reactivated false)) id
                    ≡ some (as_reactivated false (as_suspended seller)) =
                  rw (find-update, ==_refl id, between) refl in
                ground (arith, found, m, b, between, after)
          ]
        ]
