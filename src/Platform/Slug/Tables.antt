-- ===== src/Platform/Slug/Tables.antt =====
-- The slug of a new row: `resolveUniqueSlug(name, slug => table.findUnique({ where: { slug } }))`.
use uza_mobility_bn.Base.{
  ℕ, suc, ◌≡◌, ◌≢◌, refl, ap, subst, String, Bool, true, false, Option, none, some, List, [], ◌∷◌,
  Memᴰ, length, arith, inl, inr, Option-cases, is_some, map, not, ◌&&◌,
}
use uza_mobility_bn.Js.{Js, JsLaws}
use uza_mobility_bn.Db.{Prisma, PrismaLaws}
use uza_mobility_bn.Api.{Result, Action, ok, err, internal, pure, throw}
use uza_mobility_bn.Platform.Slug.{resolve_unique_slug, slugify_text, candidate}
use uza_mobility_bn.Platform.Slug.Unique.{first_free_ends, resolve_ends}
use mathlib.Core.List.Memᴰ.{map as Memᴰ_map}
use text.Mathlib.Text.{◌==◌ as str_eq}
use text.Mathlib.TextEquality.{eq_iff}

-- The slug for a handler, which throws for a name that makes none. The search never runs out of
-- turns.
unfoldable pub resolve_slug : {S : Type 0} → Option (Result String) → Action S String
resolve_slug none = throw (internal "the search for a slug")
resolve_slug (some (ok slug)) = pure slug
resolve_slug (some (err e)) = throw e

module _ ⦃N : Js⦄ ⦃P : Prisma⦄ {R : Type 0} where
  open P use {Table, find_unique, find_first, find_many}

  abbrev pub has_slug : (R → String) → (ℕ → Bool) → String → ℕ → R → Bool
  has_slug column skip slug id r = not (skip id) && str_eq (column r) slug

  -- A row other than the ones that `skip` names has the slug.
  abbrev pub slug_taken : Table R → (R → String) → (ℕ → Bool) → String → Bool
  slug_taken t column skip slug = is_some (find_first t (has_slug column skip slug))

  abbrev pub every_row : Table R → List (ℕ × R)
  every_row t = find_many t (λ id r. true)

  -- Enough turns for the loop: one more than the table has rows.
  unfoldable pub unique_slug : Table R → (R → String) → (ℕ → Bool) → String → Option (Result String)
  unique_slug t column skip name =
      resolve_unique_slug (slug_taken t column skip) (suc (length (every_row t))) name

  length-map :
      (column : R → String) (xs : List (ℕ × R)) → length (map (λ e. column e.1) xs) ≡ length xs
  length-map column [] = refl
  length-map column (x ∷ xs) = ap suc (length-map column xs)

  module _ ⦃L : PrismaLaws⦄ ⦃J : JsLaws⦄ where
    open L use {find_first-some, find_first-none, find_many-complete}

    -- A slug that is taken stands in the table.
    taken-Memᴰ :
        (t : Table R) (column : R → String) (skip : ℕ → Bool) (s : String)
        → slug_taken t column skip s ≡ true
        → Memᴰ s (map (λ e. column e.1) (every_row t))
    taken-Memᴰ t column skip s e = elim (Option-cases (find_first t (has_slug column skip s))) [
      | inl n ↦ absurd (ground (arith, e, n))
      | inr ((id, r), f) ↦
          let (there, holds) = find_first-some t (has_slug column skip s) id r f in
          let same : column r ≡ s = (eq_iff (column r) s).0 (ground (arith, holds)) in
          subst (λ x. Memᴰ x (map (λ e. column e.1) (every_row t))) same
            (Memᴰ_map (λ e. column e.1) (find_many-complete t (λ id r. true) id r there refl))
    ]

    -- A slug that is free stands in no row.
    not_found_free :
        (t : Table R) (column : R → String) (skip : ℕ → Bool) (s : String)
        → slug_taken t column skip s ≡ false
        → (id : ℕ) (r : R) → find_unique t id ≡ some r
        → skip id ≡ false
        → str_eq (column r) s ≡ true
        → ⊥
    not_found_free t column skip s free id r there kept same =
        elim (Option-cases (find_first t (has_slug column skip s))) [
          | inl n ↦
              absurd (
                ground (arith, kept, same, find_first-none t (has_slug column skip s) id r n there))
          | inr (x, f) ↦ absurd (ground (arith, free, f))
        ]

    -- Where the slug of the name is not empty, the search for a free one ends with a text that is made
    -- from that slug and that no row of the table has, but for the rows that the search skips.
    pub unique_slug_lem :
        (t : Table R) (column : R → String) (skip : ℕ → Bool) (name : String)
        → slugify_text name ≢ ""
        → (k : ℕ) × (unique_slug t column skip name ≡ some (ok (candidate (slugify_text name) k)))
          × ((id : ℕ) (r : R)
              → find_unique t id ≡ some r
              → skip id ≡ false
              → column r ≢ candidate (slugify_text name) k)
    unfolding unique_slug resolve_unique_slug
    unique_slug_lem t column skip name filled =
        let (k, ends, free, _) =
          first_free_ends (slug_taken t column skip) (slugify_text name)
            (map (λ e. column e.1) (every_row t)) (λ s taken. taken-Memᴰ t column skip s taken) in
        (
          k,
          resolve_ends (slug_taken t column skip) (suc (length (every_row t))) name
              (slugify_text name) refl filled (rw (length-map column (every_row t)) at ends),
          λ id r there kept same.
              not_found_free t column skip _ free id r there kept ((eq_iff _ _).1 same),
        )
