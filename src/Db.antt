-- ===== src/Db.antt =====
-- The part of the Prisma client that the services use, as an unknown data base with the documented
-- behaviour of its calls. A row's key is its `id`, a text that the program only compares,
-- so a number here.
pub mod Origins
pub mod Histories
pub mod Columns
use uza_mobility_bn.Base.{
  ℕ, ◌<◌, ◌≡◌, Option, none, some, Bool, true, false, List, String, Memᴰ, All, ◌==◌, length,
  if◌then◌else◌,
}

pub record Prisma : Type 1 where
  pub Table : Type 0 → Type 0
  -- `findUnique({ where: { id } })`
  pub find_unique : {R : Type 0} → Table R → ℕ → Option R
  -- `findFirst({ where })`, with the row's id
  pub find_first : {R : Type 0} → Table R → (ℕ → R → Bool) → Option (ℕ × R)
  -- `findFirst({ where, orderBy: { column: 'desc' } })`, for a column of texts
  pub find_last_by : {R : Type 0} → Table R → (R → String) → (R → Bool) → Option R
  -- `findMany({ where })`
  pub find_many : {R : Type 0} → Table R → (ℕ → R → Bool) → List (ℕ × R)
  -- `findMany({ where, orderBy: { createdAt: 'desc' } })`, where rows of the same time come in one
  -- order, the same in every call
  pub find_newest : {R : Type 0} → Table R → (ℕ → R → Bool) → List (ℕ × R)
  -- `{ contains: text, mode: 'insensitive' }`, the column first
  pub contains : String → String → Bool
  -- `count({ where })`
  pub count : {R : Type 0} → Table R → (ℕ → R → Bool) → ℕ
  -- `create({ data })` puts a row under an id that the data base makes
  pub new_id : {R : Type 0} → Table R → ℕ
  pub insert : {R : Type 0} → Table R → R → Table R
  -- `update({ where: { id }, data })` and `updateMany({ where, data })`
  pub update : {R : Type 0} → Table R → ℕ → (R → R) → Table R
  pub update_many : {R : Type 0} → Table R → (ℕ → R → Bool) → (R → R) → Table R
  -- `deleteMany({ where })`
  pub delete_many : {R : Type 0} → Table R → (ℕ → R → Bool) → Table R

-- What is left where the rows that pass a test are taken away.
abbrev pub unless : {R : Type 0} → (R → Bool) → Option R → Option R
unless p none = none
unless p (some r) = if p r then none else some r

abbrev pub on_row : {R : Type 0} → (R → R) → Option R → Option R
on_row f none = none
on_row f (some r) = some (f r)

pub record PrismaLaws ⦃P : Prisma⦄ : Type 1 where
  pub find-new_id : {R : Type 0} (t : P.Table R) → P.find_unique t (P.new_id t) ≡ none
  pub find-insert :
      {R : Type 0} (t : P.Table R) (r : R) (j : ℕ)
      → P.find_unique (P.insert t r) j ≡ (if P.new_id t == j then some r else P.find_unique t j)
  pub find-update :
      {R : Type 0} (t : P.Table R) (i : ℕ) (f : R → R) (j : ℕ)
      → P.find_unique (P.update t i f) j
        ≡ (if i == j then on_row f (P.find_unique t j) else P.find_unique t j)
  pub find-update_many :
      {R : Type 0} (t : P.Table R) (p : ℕ → R → Bool) (f : R → R) (j : ℕ)
      → P.find_unique (P.update_many t p f) j
        ≡ on_row (λ r. if p j r then f r else r) (P.find_unique t j)
  pub find-delete_many :
      {R : Type 0} (t : P.Table R) (p : ℕ → R → Bool) (j : ℕ)
      → P.find_unique (P.delete_many t p) j ≡ unless (p j) (P.find_unique t j)
  pub find_first-some :
      {R : Type 0} (t : P.Table R) (p : ℕ → R → Bool) (i : ℕ) (r : R)
      → P.find_first t p ≡ some (i, r)
      → (P.find_unique t i ≡ some r) × (p i r ≡ true)
  pub find_first-none :
      {R : Type 0} (t : P.Table R) (p : ℕ → R → Bool) (i : ℕ) (r : R)
      → P.find_first t p ≡ none
      → P.find_unique t i ≡ some r
      → p i r ≡ false
  pub find_many-sound :
      {R : Type 0} (t : P.Table R) (p : ℕ → R → Bool)
      → All (λ e. (P.find_unique t e.0 ≡ some e.1) × (p e.0 e.1 ≡ true)) (P.find_many t p)
  pub find_many-complete :
      {R : Type 0} (t : P.Table R) (p : ℕ → R → Bool) (i : ℕ) (r : R)
      → P.find_unique t i ≡ some r
      → p i r ≡ true
      → Memᴰ (i, r) (P.find_many t p)
  pub count-pos :
      {R : Type 0} (t : P.Table R) (p : ℕ → R → Bool) (i : ℕ) (r : R)
      → P.find_unique t i ≡ some r
      → p i r ≡ true
      → 0 < P.count t p
  pub count-zero :
      {R : Type 0} (t : P.Table R) (p : ℕ → R → Bool) → P.find_many t p ≡ List.[] → P.count t p ≡ 0
  pub find_newest-length :
      {R : Type 0} (t : P.Table R) (p : ℕ → R → Bool) → length (P.find_newest t p) ≡ P.count t p
  pub find_newest-sound :
      {R : Type 0} (t : P.Table R) (p : ℕ → R → Bool)
      → All (λ e. (P.find_unique t e.0 ≡ some e.1) × (p e.0 e.1 ≡ true)) (P.find_newest t p)
