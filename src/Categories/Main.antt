-- ===== src/Categories/Main.antt =====
-- src/modules/categories/categories.service.ts: `create`, `update`, `deactivate`, `reactivate`,
-- `hardDeleteCategory`, `findBySlug`, `ensureExists`.
use uza_mobility_bn.Base.{
  ℕ, ltb, Bool, true, false, Option, none, some, String, not, ◌&&◌, ◌==◌, is_some, get_or,
}
use uza_mobility_bn.Base.Text.{◌<>◌}
use uza_mobility_bn.Js.{Js}
use uza_mobility_bn.Db.{Prisma}
use uza_mobility_bn.Db.Columns.{given, given_option}
use uza_mobility_bn.Schema.Rows.{Listing}
use uza_mobility_bn.Schema.RequestRows.{Category}
use uza_mobility_bn.Schema.World.{World}
use uza_mobility_bn.Api.{
  Action, bad_request, not_found, conflict, internal, ◌>>=◌, ◌>>◌, pure, gets, modify, throw_if,
  require,
}
use uza_mobility_bn.Platform.Slug.Tables.{unique_slug, resolve_slug}
use text.Mathlib.Text.{◌==◌ as str_eq}

pub record CreateCategoryPayload : Type 0 where
  pub name : String
  pub kind : String
  pub description : Option String
  pub icon_url : Option String
  pub display_order : Option ℕ

pub record UpdateCategoryPayload : Type 0 where
  pub name : Option String
  pub kind : Option String
  pub description : Option String
  pub icon_url : Option String
  pub display_order : Option ℕ
  pub is_active : Option Bool

abbrev pub new_category : String → CreateCategoryPayload → Category
new_category slug dto = record {
  name = dto.name;
  slug = slug;
  kind = dto.kind;
  description = dto.description;
  icon_url = dto.icon_url;
  display_order = get_or dto.display_order 0;
  is_active = true;
}

unfoldable pub with_category_data : UpdateCategoryPayload → Category → Category
with_category_data dto category = record category {
  name = given dto.name category.name;
  kind = given dto.kind category.kind;
  description = given_option dto.description category.description;
  icon_url = given_option dto.icon_url category.icon_url;
  display_order = given dto.display_order category.display_order;
  is_active = given dto.is_active category.is_active;
}

abbrev pub category_shown : Bool → Category → Category
category_shown is_active category = record category { is_active = is_active }

module _ ⦃N : Js⦄ ⦃P : Prisma⦄ where
  open N use {to_text}
  open P use {find_unique, find_first, insert, update, update_many, delete_many, new_id, count}

  unfoldable pub find_category_by_slug : String → Action World (ℕ × Category)
  find_category_by_slug slug = do
    found ← gets (λ w. find_first w.categories (λ _ c. str_eq c.slug slug && c.is_active))
    require found (not_found "Category not found")

  -- The unique index on the names, which the data base checks.
  abbrev pub category_named : String → (ℕ → Bool) → World → Bool
  category_named name skip w =
      is_some (find_first w.categories (λ id c. not (skip id) && str_eq c.name name))

  unfoldable pub create_category : CreateCategoryPayload → Action World (ℕ × Category)
  unfolding resolve_slug
  create_category dto = do
    candidate ← gets (λ w. unique_slug w.categories (λ r. r.slug) (λ id. false) dto.name)
    slug ← resolve_slug candidate
    taken ← gets (category_named dto.name (λ id. false))
    throw_if taken (conflict "Category name already exists")
    category_id ← gets (λ w. new_id w.categories)
    modify (λ w. record w { categories = insert w.categories (new_category slug dto) })
    pure (category_id, new_category slug dto)

  abbrev pub ensure_exists : ℕ → Action World Category
  ensure_exists category_id = do
    found ← gets (λ w. find_unique w.categories category_id)
    require found (not_found "Category not found")

  abbrev pub name_clashes : Option String → ℕ → World → Bool
  name_clashes none category_id w = false
  name_clashes (some name) category_id w = category_named name (λ id. id == category_id) w

  unfoldable pub update_category : ℕ → UpdateCategoryPayload → Action World Category
  update_category category_id dto = do
    category ← ensure_exists category_id
    clash ← gets (name_clashes dto.name category_id)
    throw_if clash (internal "the unique index of the name")
    modify (λ w. record w { categories = update w.categories category_id (with_category_data dto) })
    pure (with_category_data dto category)

  unfoldable pub deactivate_category : ℕ → Action World Category
  deactivate_category category_id = do
    category ← ensure_exists category_id
    modify (λ w. record w { categories = update w.categories category_id (category_shown false) })
    pure (category_shown false category)

  unfoldable pub reactivate_category : ℕ → Action World Category
  reactivate_category category_id = do
    category ← ensure_exists category_id
    modify (λ w. record w { categories = update w.categories category_id (category_shown true) })
    pure (category_shown true category)

  -- A listing of a subcategory of the category.
  abbrev pub is_under : ℕ → World → ℕ → Listing → Bool
  is_under category_id w _ listing = elim listing.subcategory_id [
    | none ↦ false
    | some id ↦ elim (find_unique w.subcategories id) [
      | none ↦ false
      | some s ↦ s.category_id == category_id
    ]
  ]

  abbrev pub without_subcategory : Listing → Listing
  without_subcategory listing = record listing { subcategory_id = none }

  -- The foreign keys: the subcategories are deleted with the category, and the listings of these
  -- subcategories lose them.
  unfoldable pub hard_delete_category : ℕ → Action World String
  hard_delete_category category_id = do
    _ ← ensure_exists category_id
    listings ← gets (λ w. count w.listings (λ _ l. l.category_id == category_id))
    throw_if (ltb 0 listings) (
        bad_request (
          "Cannot delete category: "
          <> to_text listings
          <> " listing(s) still reference it. Deactivate instead."))
    modify (λ w. record w {
      categories = delete_many w.categories (λ id _. id == category_id);
      subcategories = delete_many w.subcategories (λ _ s. s.category_id == category_id);
      listings = update_many w.listings (is_under category_id w) without_subcategory;
    })
    pure "Category permanently deleted"
