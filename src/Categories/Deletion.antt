-- ===== src/Categories/Deletion.antt =====
-- What a permanent deletion of a category leaves.
use uza_mobility_bn.Base.{
  ℕ, ◌≡◌, ◌≢◌, ◌⊎◌, refl, sym, ◌∙◌, Bool, true, false, none, some, arith, inl, inr, ltb,
  Option-cases, Bool-cases, ◌==◌, if◌then◌else◌, subst, ap, ==_iff,
}
use uza_mobility_bn.Base.Text.{◌<>◌}
use uza_mobility_bn.Js.{Js}
use uza_mobility_bn.Db.{Prisma, PrismaLaws, unless}
use uza_mobility_bn.Schema.Rows.{Listing}
use uza_mobility_bn.Schema.RequestRows.{Subcategory}
use uza_mobility_bn.Schema.World.{World}
use uza_mobility_bn.Api.{ApiError, ok, err, not_found, bad_request}
use uza_mobility_bn.Categories.Main.{is_under, without_subcategory, hard_delete_category}

module _ ⦃N : Js⦄ ⦃P : Prisma⦄ where
  open P use {find_unique, count, delete_many, update_many}

  abbrev lists : ℕ → ℕ → Listing → Bool
  lists category_id _ listing = listing.category_id == category_id

  -- A listing afterwards is the one before, whose subcategory, if it is there, is of another category;
  -- or it has lost a subcategory of the category.
  abbrev pub KeptListing : ℕ → World → ℕ → Listing → Type 0
  KeptListing category_id w id l =
      (l.category_id ≢ category_id)
      × ((before : Listing) × (find_unique w.listings id ≡ some before)
          × (((l ≡ before)
                × ((sub : ℕ) (s : Subcategory)
                    → l.subcategory_id ≡ some sub
                    → find_unique w.subcategories sub ≡ some s
                    → s.category_id ≢ category_id))
              ⊎ ((l ≡ record before { subcategory_id = none })
                  × ((sub : ℕ) × (s : Subcategory) × (before.subcategory_id ≡ some sub)
                      × (find_unique w.subcategories sub ≡ some s)
                      × (s.category_id ≡ category_id)))))

  module _ ⦃L : PrismaLaws⦄ (category_id : ℕ) (w : World) where
    open L use {find-delete_many, find-update_many, count-pos}

    unlisted-other :
        (id : ℕ) (listing : Listing)
        → ltb 0 (count w.listings (lists category_id)) ≡ false
        → find_unique w.listings id ≡ some listing
        → listing.category_id ≢ category_id
    unlisted-other id listing unlisted there same =
        let held : (listing.category_id == category_id) ≡ true = (==_iff _ _).1 same in
        absurd
          (ground (arith, unlisted, count-pos w.listings (lists category_id) id listing there held))

    differs : (n : ℕ) → (n == category_id) ≡ false → n ≢ category_id
    differs n d e = absurd (ground (arith, d, (==_iff n category_id).1 e))

    still_there :
        (id : ℕ) (before : Listing)
        → find_unique w.listings id ≡ some before
        → (l : Listing) × (find_unique
              (update_many w.listings (is_under category_id w) without_subcategory)
              id
            ≡ some l)
    still_there id before f = (
      if is_under category_id w id before then without_subcategory before else before,
      rw (find-update_many, f) refl,
    )

    -- The subcategory of a listing that is under the category, and of one that is not.
    under-found :
        (id : ℕ) (l : Listing)
        → is_under category_id w id l ≡ true
        → (sub : ℕ) × (s : Subcategory) × (l.subcategory_id ≡ some sub)
          × (find_unique w.subcategories sub ≡ some s)
          × (s.category_id ≡ category_id)
    under-found id l u = elim (Option-cases l.subcategory_id) [
      | inl n ↦ absurd (ground (arith, u, n))
      | inr (sub, h) ↦ elim (Option-cases (find_unique w.subcategories sub)) [
        | inl n ↦ absurd (ground (arith, u, h, n))
        | inr (s, f) ↦ (sub, s, h, f, (==_iff _ _).0 (ground (arith, u, h, f)))
      ]
    ]

    outside_differs :
        (id : ℕ) (l : Listing) (sub : ℕ) (s : Subcategory)
        → is_under category_id w id l ≡ false
        → l.subcategory_id ≡ some sub
        → find_unique w.subcategories sub ≡ some s
        → s.category_id ≢ category_id
    outside_differs id l sub s outside h f = differs s.category_id (ground (arith, outside, h, f))

    updated-KeptListing :
        (id : ℕ) (l : Listing)
        → ltb 0 (count w.listings (lists category_id)) ≡ false
        → find_unique (update_many w.listings (is_under category_id w) without_subcategory) id
          ≡ some l
        → KeptListing category_id w id l
    updated-KeptListing id l unlisted there = elim (Option-cases (find_unique w.listings id)) [
      | inl n ↦ absurd (ground (arith, rw find-update_many at there, n))
      | inr (before, f) ↦
          let written : some
                (if is_under category_id w id before then without_subcategory before else before)
              ≡ some l =
            rw (find-update_many, f) at there in
          elim (Bool-cases (is_under category_id w id before)) [
            | inl u ↦
                let lost : l ≡ record before { subcategory_id = none } =
                  ground (arith, written, u) in
                (
                  subst (λ x. x.category_id ≢ category_id) (sym lost)
                      (unlisted-other id before unlisted f),
                  (before, f, inr (lost, under-found id before u)),
                )
            | inr u ↦
                let same : l ≡ before = ground (arith, written, u) in
                (
                  subst (λ x. x.category_id ≢ category_id) (sym same)
                      (unlisted-other id before unlisted f),
                  (
                    before,
                    f,
                    inl (
                      same,
                      λ sub s h g.
                          outside_differs id before sub s u
                            (ap (λ x. x.subcategory_id) (sym same) ∙ h) g,
                    ),
                  ),
                )
          ]
    ]

    -- No listing refers to a subcategory that was deleted.
    no_dangling :
        (id : ℕ) (l : Listing) (sub : ℕ) (s : Subcategory)
        → KeptListing category_id w id l
        → l.subcategory_id ≡ some sub
        → find_unique w.subcategories sub ≡ some s
        → find_unique (delete_many w.subcategories (λ _ x. x.category_id == category_id)) sub
          ≡ some s
    no_dangling id l sub s (_, (before, _, inl (_, outside))) h f =
        elim (Bool-cases (s.category_id == category_id)) [
          | inl gone ↦ absurd (outside sub s h f ((==_iff _ _).0 gone))
          | inr stays ↦ rw (find-delete_many, f, stays) refl
        ]
    no_dangling id l sub s (_, (before, _, inr (lost, _))) h f =
        absurd (ground (arith, h, ap (λ x. x.subcategory_id) lost))

    abbrev pub DeletionOutcome : Type 0
    DeletionOutcome =
        let call = hard_delete_category category_id in
        let w' = (call w).1 in
        ((e : ApiError) × (call w ≡ (err e, w))
          × ((find_unique w.categories category_id ≡ none)
              ⊎ (ltb 0 (count w.listings (lists category_id)) ≡ true)))
        ⊎ (((call w).0 ≡ ok "Category permanently deleted")
            × ((j : ℕ)
                → find_unique w'.categories j
                  ≡ (if j == category_id then none else find_unique w.categories j))
            × ((id : ℕ)
                → find_unique w'.subcategories id
                  ≡ unless (λ s. s.category_id == category_id) (find_unique w.subcategories id))
            × ((id : ℕ) (before : Listing)
                → find_unique w.listings id ≡ some before
                → (l : Listing) × (find_unique w'.listings id ≡ some l))
            × ((id : ℕ) (l : Listing)
                → find_unique w'.listings id ≡ some l
                → KeptListing category_id w id l)
            × ((id : ℕ) (l : Listing) (sub : ℕ) (s : Subcategory)
                → find_unique w'.listings id ≡ some l
                → l.subcategory_id ≡ some sub
                → find_unique w.subcategories sub ≡ some s
                → find_unique w'.subcategories sub ≡ some s))

    deleted_row :
        (j : ℕ)
        → find_unique (delete_many w.categories (λ id _. id == category_id)) j
          ≡ (if j == category_id then none else find_unique w.categories j)
    deleted_row j = elim (Option-cases (find_unique w.categories j)) [
      | inl n ↦ elim (Bool-cases (j == category_id)) [
        | inl h ↦ rw (find-delete_many, n, h) refl
        | inr h ↦ rw (find-delete_many, n, h) refl
      ]
      | inr (c, f) ↦ rw (find-delete_many, f) refl
    ]

    -- The permanent deletion of a category throws and writes nothing, and then there is no such
    -- category, or a listing of it; or the category alone is gone, its subcategories alone are gone,
    -- and every listing is still there, is of another category, and is as it was, but that it loses a
    -- subcategory of the deleted category; so where a listing then names a subcategory that was there,
    -- that is still there.
    pub hard_delete-cases : DeletionOutcome
    unfolding hard_delete_category
    hard_delete-cases = elim (Option-cases (find_unique w.categories category_id)) [
      | inl n ↦ inl (not_found "Category not found", ground (arith, n), inl n)
      | inr (category, f) ↦ elim (Bool-cases (ltb 0 (count w.listings (lists category_id)))) [
        | inl listed ↦ inl (
          bad_request (
              "Cannot delete category: "
              <> N.to_text (count w.listings (lists category_id))
              <> " listing(s) still reference it. Deactivate instead."),
          ground (arith, f, listed),
          inr listed,
        )
        | inr unlisted ↦
            let deleted : (hard_delete_category category_id w).1 ≡ record w {
              categories = delete_many w.categories (λ id _. id == category_id);
              subcategories = delete_many w.subcategories (λ _ s. s.category_id == category_id);
              listings = update_many w.listings (is_under category_id w) without_subcategory;
            } =
              ground (arith, f, unlisted) in
            inr (
              ground (arith, f, unlisted),
              rw deleted deleted_row,
              rw deleted
                  (λ id. find-delete_many w.subcategories (λ _ s. s.category_id == category_id) id),
              rw deleted still_there,
              rw deleted (λ id l there. updated-KeptListing id l unlisted there),
              rw deleted (λ id l sub s there h g.
                  no_dangling id l sub s (updated-KeptListing id l unlisted there) h g),
            )
      ]
    ]
