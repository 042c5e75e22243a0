-- ===== src/Platform/Slug/Unique.antt =====
-- The search for a slug ends: among more candidates than there are slugs in use, one is free.
use Prim.Native.String as Text
use Prim.Native.String.{String}
use text.Mathlib.TextLemmas.{append_cancel_left, append-nil, append-eq-nil_iff, cons-ne-nil}
use mathlib.Core.List.Memᴰ.{cases_cons}
use uza_mobility_bn.Base.{
  ℕ, zero, suc, ◌≡◌, ◌≢◌, ◌≤◌, ◌<◌, ◌+◌, refl, sym, ◌∙◌, ap, Bool, true, false, some, List, [], ◌∷◌,
  Memᴰ, length, arith, inl, inr, ◌⊎◌, Bool-cases, subst, ◌==◌, ==_iff,
}
use uza_mobility_bn.Base.Text.{◌<>◌}
use uza_mobility_bn.Js.{Js, JsLaws}
use uza_mobility_bn.Api.{ok}
use uza_mobility_bn.Platform.Slug.{candidate, first_free, slugify_text, resolve_unique_slug}

later : (m n : ℕ) → m ≤ n → (m == n) ≡ false → suc m ≤ n
later m n below other = ground (arith, below, other)

module _ {A : Type 0} where
  -- A list without one member has the others.
  without :
      (x : A) (xs : List A)
      → Memᴰ x xs
      → (ys : List A) × (length xs ≡ suc (length ys)) × ((y : A) → Memᴰ y xs → y ≢ x → Memᴰ y ys)
  without x [] m = elim m [ ]
  without x (z ∷ xs) (Memᴰ.head e) = (
    xs,
    refl,
    λ y there other. elim (cases_cons there) [
      | inl same ↦ absurd (other (same ∙ sym e))
      | inr deeper ↦ deeper
    ],
  )
  without x (z ∷ xs) (Memᴰ.tail m) =
      let (ys, shorter, rest) = without x xs m in
      (
        z ∷ ys,
        ap suc shorter,
        λ y there other. elim (cases_cons there) [
          | inl same ↦ Memᴰ.head same
          | inr deeper ↦ Memᴰ.tail (rest y deeper other)
        ],
      )

  -- A list that has `n + 1` different members is longer than `n`.
  pigeonhole :
      (c : ℕ → A)
      → ((i j : ℕ) → c i ≡ c j → i ≡ j)
      → (n : ℕ) (xs : List A) → ((i : ℕ) → i ≤ n → Memᴰ (c i) xs)
      → n < length xs
  pigeonhole c inj zero xs every =
      let (ys, longer, _) = without (c 0) xs (every 0 (omega arith)) in omega (arith, longer)
  pigeonhole c inj (suc n) xs every =
      let (ys, longer, rest) = without (c (suc n)) xs (every (suc n) (omega arith)) in
      let shorter : n < length ys = pigeonhole c inj n ys (λ i small.
        rest (c i) (every i (omega arith)) (λ same. absurd (omega (arith, inj i (suc n) same)))) in
      omega (arith, longer, shorter)

module _ ⦃N : Js⦄ ⦃L : JsLaws⦄ where
  open N use {to_text}

  base_alone : (base n : String) → base ≡ base <> "-" <> n → ⊥
  base_alone base n e =
      let rest : "" ≡ "-" <> n = append_cancel_left base "" ("-" <> n) (append-nil base ∙ e) in
      cons-ne-nil "-" "" ((append-eq-nil_iff {p = "-"} {q = n}).0 (sym rest)).0

  candidate_inj : (base : String) (i j : ℕ) → candidate base i ≡ candidate base j → i ≡ j
  unfolding candidate
  candidate_inj base zero zero e = refl
  candidate_inj base zero (suc j) e = absurd (base_alone base (to_text (suc j)) e)
  candidate_inj base (suc i) zero e = absurd (base_alone base (to_text (suc i)) (sym e))
  candidate_inj base (suc i) (suc j) e =
      L.to_text_inj (suc i) (suc j) (append_cancel_left "-" _ _ (append_cancel_left base _ _ e))

  -- The loop ends with the first candidate that is free, or gives up after too few turns.
  search_cases :
      (is_taken : String → Bool) (base : String) (fuel attempt : ℕ)
      → ((k : ℕ) × (first_free is_taken base fuel attempt ≡ some (candidate base k))
          × (is_taken (candidate base k) ≡ false)
          × ((j : ℕ) → attempt ≤ j → j < k → is_taken (candidate base j) ≡ true))
        ⊎ ((j : ℕ) → attempt ≤ j → j < attempt + fuel → is_taken (candidate base j) ≡ true)
  unfolding first_free
  search_cases is_taken base zero attempt =
      inr (λ j from below. absurd (omega (arith, from, below)))
  search_cases is_taken base (suc fuel) attempt =
      elim (Bool-cases (is_taken (candidate base attempt))) [
        | inr free ↦ inl (
          attempt,
          ground (arith, free),
          free,
          λ j from below. absurd (omega (arith, from, below)),
        )
        | inl busy ↦ elim (search_cases is_taken base fuel (suc attempt)) [
          | inl (k, result, free, before) ↦ inl (
            k,
            ground (arith, busy, result),
            free,
            λ j from below. elim (Bool-cases (attempt == j)) [
              | inl here ↦
                  subst (λ i. is_taken (candidate base i) ≡ true) ((==_iff attempt j).0 here) busy
              | inr other ↦ before j (later attempt j from other) below
            ],
          )
          | inr all ↦ inr (λ j from below. elim (Bool-cases (attempt == j)) [
            | inl here ↦
                subst (λ i. is_taken (candidate base i) ≡ true) ((==_iff attempt j).0 here) busy
            | inr other ↦ all j (later attempt j from other) (omega (arith, below))
          ])
        ]
      ]

  -- With one turn more than there are texts in a list of the taken ones, the loop ends: it returns
  -- the first candidate that is free, and all before that are taken.
  pub first_free_ends :
      (is_taken : String → Bool) (base : String) (taken : List String)
      → ((s : String) → is_taken s ≡ true → Memᴰ s taken)
      → (k : ℕ) × (first_free is_taken base (suc (length taken)) 0 ≡ some (candidate base k))
        × (is_taken (candidate base k) ≡ false)
        × ((j : ℕ) → j < k → is_taken (candidate base j) ≡ true)
  first_free_ends is_taken base taken known =
      elim (search_cases is_taken base (suc (length taken)) 0) [
        | inl (k, result, free, before) ↦ (k, result, free, λ j below. before j (omega arith) below)
        | inr all_taken ↦ absurd (
            omega (
              arith,
              pigeonhole (candidate base) (candidate_inj base) (length taken) taken (λ i small.
                  known (candidate base i) (all_taken i (omega arith) (omega (arith, small)))),
            ))
      ]

  pub resolve_ends :
      (is_taken : String → Bool) (fuel : ℕ) (name base : String) {slug : String}
      → slugify_text name ≡ base
      → base ≢ ""
      → first_free is_taken base fuel 0 ≡ some slug
      → resolve_unique_slug is_taken fuel name ≡ some (ok slug)
  unfolding resolve_unique_slug
  resolve_ends is_taken fuel name Text.[] same filled ends = absurd (filled refl)
  resolve_ends is_taken fuel name (Text.◌∷◌ c s) same filled ends = ground (arith, same, ends)
