-- ===== src/Platform/Pages.antt =====
-- The pages of the lists that services return: `{ items, meta: { total, page, limit, totalPages } }`.
-- Totals are far below 2 ^ 53, where the quotient of the source is rounded up as here.
pub mod Cover
use uza_mobility_bn.Base.{
  ℕ, zero, suc, ◌+◌, ◌-◌, ◌*◌, ◌/◌, ◌%◌, ◌≤◌, ◌<◌, ◌≡◌, refl, ap, Bool, true, Option, none, some,
  List, [], ◌∷◌, ◌++◌, arith, length, take, skip, if◌then◌else◌, ◌==◌, get_or, map,
}
use uza_mobility_bn.Db.{Prisma, PrismaLaws}

-- A filter that is not given passes everything.
abbrev pub passes : {A : Type 0} → Option A → (A → Bool) → Bool
passes none test = true
passes (some a) test = test a

pub record PageQuery : Type 0 where
  pub page : Option ℕ
  pub limit : Option ℕ

pub record Page (A : Type 0) : Type 0 where
  pub items : List A
  pub total : ℕ
  pub page : ℕ
  pub limit : ℕ
  pub total_pages : ℕ

-- `Math.ceil(total / limit) || 1`
unfoldable pub total_pages : ℕ → ℕ → ℕ
total_pages total limit =
    let pages = (total + (limit - 1)) / limit in if pages == 0 then 1 else pages

module _ ⦃P : Prisma⦄ {R : Type 0} where
  open P use {Table, find_newest, count}

  -- The default of the limit comes from the service.
  unfoldable pub find_page : Table R → (ℕ → R → Bool) → ℕ → PageQuery → Page (ℕ × R)
  find_page t where_ default_limit query =
      let page = get_or query.page 1 in
      let limit = get_or query.limit default_limit in
      record {
        items = take limit (skip ((page - 1) * limit) (find_newest t where_));
        total = count t where_;
        page = page;
        limit = limit;
        total_pages = total_pages (count t where_) limit;
      }
