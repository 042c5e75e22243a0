-- ===== src/Platform/Slug/Shape.antt =====
-- The shape of a slug: words of letters and digits, with one dash between two of them.
use Prim.Native.String.{String, [], ◌∷◌}
use Prim.Native.Char.{Char}
use uza_mobility_bn.Base.{
  ◌≡◌, ◌⊎◌, inl, inr, refl, Bool, true, false, ◌&&◌, not, arith, ap, Bool-cases, if◌then◌else◌,
}
use uza_mobility_bn.Js.{Js}
use uza_mobility_bn.Platform.Slug.{
  is_dash, is_slug_char, runs_to_dash, keep_chars, drop_last_dash, drop_first_dash, slugify_text,
  is_space,
}

-- All characters are of the class `[a-z0-9-]`.
unfoldable in_class : String → Bool
in_class [] = true
in_class (c ∷ s) = let rest = in_class s in is_slug_char c && rest

-- No two dashes in a row; `within` tells whether a dash stands before.
unfoldable single : Bool → String → Bool
single within [] = true
single within (c ∷ s) =
    let inside = single true s in
    let outside = single false s in
    elim (is_dash c) [ true ↦ not within && inside | false ↦ is_slug_char c && outside ]

-- The rest of a slug, after a character that was a dash or not: every dash stands between two
-- characters of a word.
unfoldable pub is_slug_from : Bool → String → Bool
is_slug_from after_dash [] = not after_dash
is_slug_from after_dash (c ∷ s) =
    let inside = is_slug_from true s in
    let outside = is_slug_from false s in
    elim (is_dash c) [ true ↦ not after_dash && inside | false ↦ is_slug_char c && outside ]

keep_chars-in_class : (s : String) → in_class (keep_chars is_slug_char s) ≡ true
unfolding in_class keep_chars
keep_chars-in_class [] = refl
keep_chars-in_class (c ∷ s) = elim (Bool-cases (is_slug_char c)) [
  | inl h ↦ ground (arith, h, keep_chars-in_class s)
  | inr h ↦ ground (arith, h, keep_chars-in_class s)
]

last_char :
    (c : Char) (b : Bool) → is_dash c ≡ b → drop_last_dash (c ∷ "") ≡ (if b then "" else c ∷ "")
unfolding drop_last_dash
last_char c true d = ap (λ (b : Bool). elim b [ true ↦ "" | false ↦ c ∷ "" ]) d
last_char c false d = ap (λ (b : Bool). elim b [ true ↦ "" | false ↦ c ∷ "" ]) d

runs-single :
    (within : Bool) (s : String)
    → in_class s ≡ true
    → single within (runs_to_dash is_dash within s) ≡ true
unfolding in_class single runs_to_dash
runs-single within [] h = refl
runs-single true (c ∷ s) h = elim (Bool-cases (is_dash c)) [
  | inl d ↦ ground (arith, d, h, runs-single true s (ground (arith, h)))
  | inr d ↦ ground (arith, d, h, runs-single false s (ground (arith, h)))
]
runs-single false (c ∷ s) h = elim (Bool-cases (is_dash c)) [
  | inl d ↦ ground (arith, d, h, runs-single true s (ground (arith, h)))
  | inr d ↦ ground (arith, d, h, runs-single false s (ground (arith, h)))
]

drop_first-single : (s : String) → single false s ≡ true → single true (drop_first_dash s) ≡ true
unfolding single drop_first_dash
drop_first-single [] h = refl
drop_first-single (c ∷ s) h = elim (Bool-cases (is_dash c)) [
  | inl d ↦ ground (arith, d, h)
  | inr d ↦ ground (arith, d, h)
]

drop_last_lem :
    (within : Bool) (c : Char) (s : String)
    → single within (c ∷ s) ≡ true
    → is_slug_from within (drop_last_dash (c ∷ s)) ≡ true
unfolding single is_slug_from drop_last_dash
drop_last_lem within c [] h = elim (Bool-cases (is_dash c)) [
  | inl d ↦ rw (last_char c _ d) (ground (arith, d, h))
  | inr d ↦ rw (last_char c _ d) (ground (arith, d, h))
]
drop_last_lem within c (e ∷ s) h = elim (Bool-cases (is_dash c)) [
  | inl d ↦ let rest = drop_last_lem true e s (ground (arith, d, h)) in ground (arith, d, h, rest)
  | inr d ↦ let rest = drop_last_lem false e s (ground (arith, d, h)) in ground (arith, d, h, rest)
]

drop_last-slug :
    (s : String)
    → single true s ≡ true
    → (drop_last_dash s ≡ "") ⊎ (is_slug_from true (drop_last_dash s) ≡ true)
unfolding drop_last_dash
drop_last-slug [] h = inl refl
drop_last-slug (c ∷ s) h = inr (drop_last_lem true c s h)

module _ ⦃N : Js⦄ where
  -- Whatever the text, its slug is empty, or words of lower-case letters and digits with exactly
  -- one dash between two words and none at the ends.
  pub slugify-slug :
      (value : String) → (slugify_text value ≡ "") ⊎ (is_slug_from true (slugify_text value) ≡ true)
  unfolding slugify_text
  slugify-slug value = drop_last-slug _ (
      drop_first-single _ (
        runs-single false _
          (keep_chars-in_class (runs_to_dash is_space false (N.trim (N.to_lower value))))))
