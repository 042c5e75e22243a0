-- ===== src/Categories/Subcategories.antt =====
-- src/modules/categories/categories.service.ts: `addSubcategory`, `updateSubcategory`,
-- `deleteSubcategory`, `getSubcategoryInCategoryOrThrow`.
use uza_mobility_bn.Base.{
  ℕ, ltb, Bool, true, false, Option, none, some, String, not, ◌&&◌, ◌==◌, is_some, get_or,
  if◌then◌else◌,
}
use uza_mobility_bn.Base.Text.{◌<>◌}
use uza_mobility_bn.Js.{Js}
use uza_mobility_bn.Db.{Prisma}
use uza_mobility_bn.Db.Columns.{given}
use uza_mobility_bn.Schema.RequestRows.{Subcategory}
use uza_mobility_bn.Schema.World.{World}
use uza_mobility_bn.Api.{
  Action, bad_request, not_found, conflict, ◌>>=◌, ◌>>◌, pure, gets, modify, throw_if, require,
}
use uza_mobility_bn.Platform.Settings.{non_empty}
use uza_mobility_bn.Platform.Slug.Tables.{unique_slug, resolve_slug}
use uza_mobility_bn.Categories.Main.{ensure_exists}
use text.Mathlib.Text.{◌==◌ as str_eq}

pub record CreateSubcategoryPayload : Type 0 where
  pub name : String
  pub description : Option String
  pub icon_url : Option String
  pub display_order : Option ℕ

pub record UpdateSubcategoryPayload : Type 0 where
  pub name : Option String
  pub description : Option String
  pub icon_url : Option String
  pub display_order : Option ℕ

abbrev pub new_subcategory : ℕ → String → CreateSubcategoryPayload → Subcategory
new_subcategory category_id slug dto = record {
  category_id = category_id;
  name = dto.name;
  slug = slug;
  description = dto.description;
  icon_url = dto.icon_url;
  display_order = get_or dto.display_order 0;
  is_active = true;
}

module _ ⦃N : Js⦄ where
  open N use {trim, to_text}

  -- `description.trim() ? description : null`
  abbrev written : Option String → Option String → Option String
  written none old = old
  written (some text) old = if str_eq (trim text) "" then none else some text

  -- `iconUrl || null`
  abbrev icon_of : Option String → Option String → Option String
  icon_of none old = old
  icon_of (some url) old = non_empty url

  -- `slug` is the new one, if the name changed.
  unfoldable pub with_subcategory_data :
      UpdateSubcategoryPayload → Option String → Subcategory → Subcategory
  with_subcategory_data dto slug subcategory = record subcategory {
    name = given dto.name subcategory.name;
    slug = given slug subcategory.slug;
    description = written dto.description subcategory.description;
    icon_url = icon_of dto.icon_url subcategory.icon_url;
    display_order = given dto.display_order subcategory.display_order;
  }

  module _ ⦃P : Prisma⦄ where
    open P use {find_unique, find_first, insert, update, delete_many, new_id, count}

    -- `subcategory.findFirst({ where: { id, categoryId } })`
    abbrev pub subcategory_in : ℕ → ℕ → World → Option Subcategory
    subcategory_in category_id subcategory_id w =
        elim (find_unique w.subcategories subcategory_id) [
          | none ↦ none
          | some s ↦ if s.category_id == category_id then some s else none
        ]

    unfoldable pub get_subcategory_in_category_or_throw : ℕ → ℕ → Action World Subcategory
    get_subcategory_in_category_or_throw category_id subcategory_id = do
      found ← gets (subcategory_in category_id subcategory_id)
      require found (not_found "Subcategory not found for this category")

    unfoldable pub delete_subcategory : ℕ → ℕ → Action World String
    unfolding get_subcategory_in_category_or_throw
    delete_subcategory category_id subcategory_id = do
      _ ← get_subcategory_in_category_or_throw category_id subcategory_id
      listings ← gets (λ w.
          count w.listings
            (λ _ l. elim l.subcategory_id [ none ↦ false | some id ↦ id == subcategory_id ]))
      throw_if (ltb 0 listings) (
          bad_request (
            "Cannot delete subcategory: " <> to_text listings <> " listing(s) still reference it."))
      modify (λ w. record w {
        subcategories = delete_many w.subcategories (λ id _. id == subcategory_id);
      })
      pure "Subcategory deleted"

    -- The unique index on category and name, which the data base checks.
    abbrev pub subcategory_named : ℕ → String → (ℕ → Bool) → World → Bool
    subcategory_named category_id name skip w = is_some (
        find_first w.subcategories
          (λ id s. not (skip id) && s.category_id == category_id && str_eq s.name name))

    -- The new slug of a name that changed.
    unfoldable pub renamed_slug : Option String → String → ℕ → Action World (Option String)
    unfolding resolve_slug
    renamed_slug none old subcategory_id = pure none
    renamed_slug (some name) old subcategory_id =
        if str_eq name old
        then pure none
        else (gets
              (λ w. unique_slug w.subcategories (λ r. r.slug) (λ id. id == subcategory_id) name)
            >>= λ candidate. resolve_slug candidate >>= λ slug. pure (some slug))

    abbrev pub subname_clashes : Option String → ℕ → ℕ → World → Bool
    subname_clashes none category_id subcategory_id w = false
    subname_clashes (some name) category_id subcategory_id w =
        subcategory_named category_id name (λ id. id == subcategory_id) w

    unfoldable pub update_subcategory : ℕ → ℕ → UpdateSubcategoryPayload → Action World Subcategory
    unfolding get_subcategory_in_category_or_throw renamed_slug
    update_subcategory category_id subcategory_id dto = do
      existing ← get_subcategory_in_category_or_throw category_id subcategory_id
      slug ← renamed_slug dto.name existing.name subcategory_id
      clash ← gets (subname_clashes dto.name category_id subcategory_id)
      throw_if clash (conflict "Subcategory name already exists for this category")
      modify (λ w. record w {
        subcategories = update w.subcategories subcategory_id (with_subcategory_data dto slug);
      })
      pure (with_subcategory_data dto slug existing)

    unfoldable pub add_subcategory : ℕ → CreateSubcategoryPayload → Action World (ℕ × Subcategory)
    unfolding resolve_slug
    add_subcategory category_id dto = do
      _ ← ensure_exists category_id
      candidate ← gets (λ w. unique_slug w.subcategories (λ r. r.slug) (λ id. false) dto.name)
      slug ← resolve_slug candidate
      taken ← gets (subcategory_named category_id dto.name (λ id. false))
      throw_if taken (conflict "Subcategory name already exists for this category")
      subcategory_id ← gets (λ w. new_id w.subcategories)
      modify (λ w. record w {
        subcategories = insert w.subcategories (new_subcategory category_id slug dto);
      })
      pure (subcategory_id, new_subcategory category_id slug dto)
