-- ===== src/Invoices/Fulfillment/Keeps.antt =====
-- The invoices made of inquiries are for listings without an active one.
use uza_mobility_bn.Base.{ℕ, ◌≡◌, List, [], ◌∷◌, ◌⊎◌, ap, arith, inl, inr, Option-cases}
use uza_mobility_bn.Js.{Js}
use uza_mobility_bn.Db.{Prisma, PrismaLaws}
use uza_mobility_bn.Schema.MarketRows.{Inquiry}
use uza_mobility_bn.Schema.World.{World}
use uza_mobility_bn.Api.{Result, for_each, ok, err}
use uza_mobility_bn.Invoices.Request.{request_invoice, is_active_for}
use uza_mobility_bn.Invoices.Request.Outcome.{OneActive, request_keeps_OneActive}
use uza_mobility_bn.Invoices.Fulfillment.{
  plain_request, no_context, is_buy_inquiry_of, fulfill_inquiry, fulfill_pending_buy_inquiries,
}

module _ ⦃N : Js⦄ ⦃P : Prisma⦄ where
  open P use {find_unique, find_first, find_many}

  -- A turn does nothing or requests an invoice, and it never throws.
  turn-cases :
      (user_id id : ℕ) (inquiry : Inquiry) (w : World)
      → (fulfill_inquiry user_id (id, inquiry) w ≡ (ok tt, w))
        ⊎ ((listing_id : ℕ) × (fulfill_inquiry user_id (id, inquiry) w
              ≡ (ok tt, (request_invoice user_id (plain_request listing_id) no_context w).1)))
  unfolding fulfill_inquiry
  turn-cases user_id id inquiry w = elim (Option-cases inquiry.listing_id) [
    | inl n ↦ inl (ground (arith, n))
    | inr (listing_id, l) ↦
        elim (Option-cases (find_first w.invoices (is_active_for user_id listing_id))) [
          | inr (existing, f) ↦ inl (ground (arith, l, f))
          | inl n ↦ inr (listing_id, ground (arith, l, n))
        ]
  ]

  next_turn :
      (user_id : ℕ) (e : ℕ × Inquiry) (es : List (ℕ × Inquiry)) (w w' : World)
      → fulfill_inquiry user_id e w ≡ (ok tt, w')
      → for_each (fulfill_inquiry user_id) (e ∷ es) w ≡ for_each (fulfill_inquiry user_id) es w'
  unfolding for_each
  next_turn user_id e es w w' turn =
      ap
        (λ (p : Result (Unit {0}) × World). elim p.0 [
          | ok a ↦ for_each (fulfill_inquiry user_id) es p.1
          | err x ↦ (err x, p.1)
        ])
        turn

  -- Without a profile nothing is done; with one, the loop runs over the inquiries.
  fulfill-cases :
      (user_id : ℕ) (w : World)
      → (fulfill_pending_buy_inquiries user_id w ≡ (ok tt, w))
        ⊎ (fulfill_pending_buy_inquiries user_id w
            ≡ for_each
                (fulfill_inquiry user_id)
                (find_many w.inquiries (is_buy_inquiry_of user_id))
                w)
  unfolding fulfill_pending_buy_inquiries
  fulfill-cases user_id w = elim (Option-cases (find_unique w.users user_id)) [
    | inl n ↦ inl (ground (arith, n))
    | inr (user, f) ↦ elim (Option-cases user.buyer_profile) [
      | inl n ↦ inl (ground (arith, f, n))
      | inr (profile, p) ↦ inr (ground (arith, f, p))
    ]
  ]

  module _ ⦃L : PrismaLaws⦄ where
    loop_keeps_OneActive :
        (user_id : ℕ) (inquiries : List (ℕ × Inquiry)) (w : World)
        → OneActive w.invoices
        → OneActive (for_each (fulfill_inquiry user_id) inquiries w).1.invoices
    unfolding for_each
    loop_keeps_OneActive user_id [] w one = one
    loop_keeps_OneActive user_id ((id, inquiry) ∷ es) w one =
        elim (turn-cases user_id id inquiry w) [
          | inl idle ↦
              rw (next_turn user_id (id, inquiry) es w w idle)
                (loop_keeps_OneActive user_id es w one)
          | inr (listing_id, turn) ↦ rw (next_turn user_id (id, inquiry) es w _ turn) (
              loop_keeps_OneActive user_id es _
                (request_keeps_OneActive user_id (plain_request listing_id) no_context w one))
        ]

    pub fulfill_keeps_OneActive :
        (user_id : ℕ) (w : World)
        → OneActive w.invoices
        → OneActive (fulfill_pending_buy_inquiries user_id w).1.invoices
    fulfill_keeps_OneActive user_id w one = elim (fulfill-cases user_id w) [
      | inl idle ↦ rw idle one
      | inr loop ↦ rw loop (loop_keeps_OneActive user_id _ w one)
    ]
