-- ===== src/Platform/Slug.antt =====
-- src/common/utils/slug.util.ts: the part of an address that names a row, made from its name.
pub mod Shape
pub mod Unique
pub mod Tables
use Prim.Native.String.{String, [], ◌∷◌}
use Prim.Native.Char.{Char, code}
use uza_mobility_bn.Base.{
  ℕ, zero, suc, Bool, true, false, Option, none, some, ◌||◌, ◌&&◌, not, leb, ◌==◌,
}
use uza_mobility_bn.Base.Text.{◌<>◌}
use uza_mobility_bn.Js.{Js}
use uza_mobility_bn.Api.{Result, ok, err, internal}

abbrev pub between : ℕ → ℕ → Char → Bool
between low high c = leb low (code c) && leb (code c) high

abbrev pub is_dash : Char → Bool
is_dash c = code c == 45

-- The class `\s`.
unfoldable pub is_space : Char → Bool
is_space c =
    between 9 13 c
    || between 32 32 c
    || between 160 160 c
    || between 5760 5760 c
    || between 8192 8202 c
    || between 8232 8233 c
    || between 8239 8239 c
    || between 8287 8287 c
    || between 12288 12288 c
    || between 65279 65279 c

-- The class `[a-z0-9-]`.
unfoldable pub is_slug_char : Char → Bool
is_slug_char c = between 97 122 c || between 48 57 c || is_dash c

-- `replace(/p+/g, '-')`: each run of characters that pass the test becomes one dash; `within` tells
-- whether the character before stood in a run.
unfoldable pub runs_to_dash : (Char → Bool) → Bool → String → String
runs_to_dash test within [] = []
runs_to_dash test within (c ∷ s) =
    let inside = runs_to_dash test true s in
    let outside = runs_to_dash test false s in
    elim (test c) [
      | true ↦ elim within [ true ↦ inside | false ↦ "-" ∷ inside ]
      | false ↦ c ∷ outside
    ]

-- `replace(/[^p]/g, '')`
unfoldable pub keep_chars : (Char → Bool) → String → String
keep_chars test [] = []
keep_chars test (c ∷ s) =
    let rest = keep_chars test s in elim (test c) [ true ↦ c ∷ rest | false ↦ rest ]

-- `replace(/-$/, '')`
unfoldable pub drop_last_dash : String → String
drop_last_dash [] = []
drop_last_dash (c ∷ []) = elim (is_dash c) [ true ↦ [] | false ↦ c ∷ [] ]
drop_last_dash (c ∷ d ∷ s) = c ∷ drop_last_dash (d ∷ s)

-- `replace(/^-/, '')`
unfoldable pub drop_first_dash : String → String
drop_first_dash [] = []
drop_first_dash (c ∷ s) = elim (is_dash c) [ true ↦ s | false ↦ c ∷ s ]

module _ ⦃N : Js⦄ where
  open N use {to_lower, trim, to_text}

  unfoldable pub slugify_text : String → String
  slugify_text value = drop_last_dash (
      drop_first_dash (
        runs_to_dash is_dash false
          (keep_chars is_slug_char (runs_to_dash is_space false (trim (to_lower value))))))

  -- The candidate of an attempt: the base, and then the base with the number of the attempt.
  unfoldable pub candidate : String → ℕ → String
  candidate base zero = base
  candidate base (suc attempt) = base <> "-" <> to_text (suc attempt)

  -- The `while` loop from one attempt on, for as many turns as `fuel`.
  unfoldable pub first_free : (String → Bool) → String → ℕ → ℕ → Option String
  first_free is_taken base zero attempt = none
  first_free is_taken base (suc fuel) attempt =
      let later = first_free is_taken base fuel (suc attempt) in
      elim (is_taken (candidate base attempt)) [
        | true ↦ later
        | false ↦ some (candidate base attempt)
      ]

  -- `none` stands for a loop that has not ended within the fuel.
  unfoldable pub resolve_unique_slug : (String → Bool) → ℕ → String → Option (Result String)
  resolve_unique_slug is_taken fuel text = elim (slugify_text text) [
    | [] ↦ some (err (internal "Cannot generate slug from empty text"))
    | c ∷ s ↦ elim (first_free is_taken (c ∷ s) fuel 0) [ none ↦ none | some slug ↦ some (ok slug) ]
  ]
