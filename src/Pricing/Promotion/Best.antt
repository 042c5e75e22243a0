-- ===== src/Pricing/Promotion/Best.antt =====
-- The loop of `pick_best_discount_promotion` finds a promotion with the highest saving.
use uza_mobility_bn.Base.{
  ◌≡◌, refl, subst, Option, none, some, true, false, arith, List, [], ◌∷◌, All, Memᴰ, inl, inr, ◌⊎◌,
  Bool-cases,
}
use uza_mobility_bn.Js.{Js, JsLaws}
use uza_mobility_bn.Pricing.Promotion.{
  Promotion, has_discount_value, saving_of, better, pick_loop, pick_best_discount_promotion,
}

module _ ⦃N : Js⦄ where
  open N use {Num, from_ℕ, le}

  -- Nothing in the list saves more than `bound`.
  abbrev pub AtMost : Num → Num → List Promotion → Type 0
  AtMost price bound ps =
      All (λ p. (has_discount_value p ≡ false) ⊎ (le (saving_of price p) bound ≡ true)) ps

  -- A promotion that was chosen from the list: with a discount, and saving more than nothing.
  pub record IsChosen (price : Num) (ps : List Promotion) (p : Promotion) : Type 0 where
    pub listed : Memᴰ p ps
    pub has_value : has_discount_value p ≡ true
    pub saves : le (saving_of price p) (from_ℕ 0) ≡ false
    pub best : AtMost price (saving_of price p) ps

  module _ ⦃L : JsLaws⦄ (price : Num) where
    open L use {le_refl, le_trans, le_total}

    -- The best saving only grows.
    better-grows :
        (p : Promotion) (o : Option Promotion) (s : Num) → le s (better price p (o, s)).1 ≡ true
    unfolding better
    better-grows p o s = elim (Bool-cases (has_discount_value p)) [
      | inr h ↦ rw h (le_refl s)
      | inl h ↦ elim (Bool-cases (le (saving_of price p) s)) [
        | inl l ↦ rw (h, l) (le_refl s)
        | inr l ↦ rw (h, l) (le_total _ _ l)
      ]
    ]

    better-covers :
        (p : Promotion) (o : Option Promotion) (s : Num)
        → has_discount_value p ≡ true
        → le (saving_of price p) (better price p (o, s)).1 ≡ true
    unfolding better
    better-covers p o s h = elim (Bool-cases (le (saving_of price p) s)) [
      | inl l ↦ rw (h, l) l
      | inr l ↦ rw (h, l) (le_refl _)
    ]

    loop-grows :
        (ps : List Promotion) (state : Option Promotion × Num)
        → le state.1 (pick_loop price ps state).1 ≡ true
    unfolding pick_loop
    loop-grows [] state = le_refl _
    loop-grows (p ∷ ps) state =
        le_trans _ _ _ (better-grows p state.0 state.1) (loop-grows ps (better price p state))

    loop-AtMost :
        (ps : List Promotion) (state : Option Promotion × Num)
        → AtMost price (pick_loop price ps state).1 ps
    unfolding pick_loop
    loop-AtMost [] state = tt
    loop-AtMost (p ∷ ps) state = (
      elim (Bool-cases (has_discount_value p)) [
        | inr h ↦ inl h
        | inl h ↦ inr (
            le_trans _ _ _ (better-covers p state.0 state.1 h)
              (loop-grows ps (better price p state)))
      ],
      loop-AtMost ps (better price p state),
    )

    -- The state names a promotion whose saving it holds.
    abbrev Names : List Promotion → Option Promotion × Num → Type 0
    Names all (none, s) = s ≡ from_ℕ 0
    Names all (some p, s) =
        (Memᴰ p all)
        × (has_discount_value p ≡ true)
        × (s ≡ saving_of price p)
        × (le s (from_ℕ 0) ≡ false)

    better-Names :
        (all : List Promotion) (p : Promotion) (state : Option Promotion × Num)
        → Memᴰ p all
        → le (from_ℕ 0) state.1 ≡ true
        → Names all state
        → Names all (better price p state)
    unfolding better
    better-Names all p (o, s) m nonneg n = elim (Bool-cases (has_discount_value p)) [
      | inr h ↦ rw h n
      | inl h ↦ elim (Bool-cases (le (saving_of price p) s)) [
        | inl l ↦ rw (h, l) n
        | inr l ↦ rw (h, l) (m, h, refl, above_zero l)
      ]
    ]
      where
        above_zero : le (saving_of price p) s ≡ false → le (saving_of price p) (from_ℕ 0) ≡ false
        above_zero l = elim (Bool-cases (le (saving_of price p) (from_ℕ 0))) [
          | inr e ↦ e
          | inl e ↦ absurd (ground (arith, l, le_trans _ _ _ e nonneg))
        ]

    loop-Names :
        (all ps : List Promotion) (state : Option Promotion × Num)
        → ((p : Promotion) → Memᴰ p ps → Memᴰ p all)
        → le (from_ℕ 0) state.1 ≡ true
        → Names all state
        → Names all (pick_loop price ps state)
    unfolding pick_loop
    loop-Names all [] state within nonneg n = n
    loop-Names all (p ∷ ps) state within nonneg n =
        loop-Names all ps (better price p state) (λ q m. within q (Memᴰ.tail m))
          (le_trans _ _ _ nonneg (better-grows p state.0 state.1))
          (better-Names all p state (within p (Memᴰ.head refl)) nonneg n)

    -- What the loop's last state says of the promotion that it names.
    conclude :
        (all : List Promotion) (o : Option Promotion) (s : Num)
        → AtMost price s all
        → Names all (o, s)
        → ((o ≡ none) × AtMost price (from_ℕ 0) all)
          ⊎ ((p : Promotion) × (o ≡ some p) × IsChosen price all p)
    conclude all none s most n = inl (refl, subst (λ x. AtMost price x all) n most)
    conclude all (some p) s most (m, h, e, pos) = inr (
      p,
      refl,
      record {
        listed = m;
        has_value = h;
        saves = subst (λ x. le x (from_ℕ 0) ≡ false) e pos;
        best = subst (λ x. AtMost price x all) e most;
      },
    )

    -- Either no promotion with a discount saves anything and none is picked, or the picked one is in
    -- the list, has a discount, saves something, and no other with a discount saves more.
    pub picks_best :
        (promotions : List Promotion)
        → ((pick_best_discount_promotion price promotions ≡ none)
            × AtMost price (from_ℕ 0) promotions)
          ⊎ ((p : Promotion) × (pick_best_discount_promotion price promotions ≡ some p)
              × IsChosen price promotions p)
    unfolding pick_best_discount_promotion
    picks_best promotions =
        let state = pick_loop price promotions (none, from_ℕ 0) in
        conclude promotions state.0 state.1 (loop-AtMost promotions (none, from_ℕ 0))
          (loop-Names promotions promotions (none, from_ℕ 0) (λ p m. m) (le_refl _) refl)
