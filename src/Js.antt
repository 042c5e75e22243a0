-- ===== src/Js.antt =====
-- What the program uses of JavaScript's numbers and texts. The checked language has no floats, so
-- a finite double is an element of an unknown type, and the laws are those that IEEE arithmetic
-- has at finite values: rounding to nearest is monotone in each operand and keeps the
-- sign, and the order is total. No law says that an operation is exact.
use uza_mobility_bn.Base.{ℕ, ◌≡◌, Option, Bool, true, false, String, ◌<◌}

pub record Js : Type 1 where
  pub Num : Type 0
  pub from_ℕ : ℕ → Num
  -- the literal `m / 10 ^ k`
  pub decimal : ℕ → ℕ → Num
  pub add : Num → Num → Num
  pub sub : Num → Num → Num
  pub mul : Num → Num → Num
  pub div : Num → Num → Num
  -- `a <= b`
  pub le : Num → Num → Bool
  -- `Math.round`
  pub round : Num → Num
  -- `Number(text)`, where it is finite
  pub parse_number : String → Option Num
  -- `text.trim()`, `text.toUpperCase()`, `text.toLowerCase()`
  pub trim : String → String
  pub to_upper : String → String
  pub to_lower : String → String
  pub ends_with : String → String → Bool
  -- `amount.toLocaleString('en-US', { maximumFractionDigits: 0 })`
  pub locale_string : Num → String
  -- `date.toISOString().slice(0, 10)`
  pub iso_day : ℕ → String
  -- `date.getFullYear()`
  pub year_of : ℕ → ℕ
  -- `String(n)`, `text.padStart(n, '0')`, `text.slice(n)`, `parseInt(text, 10)` where it is finite
  pub to_text : ℕ → String
  pub pad_start : ℕ → String → String
  pub slice_from : ℕ → String → String
  pub parse_int : String → Option ℕ
  -- `encodeURIComponent(text)`
  pub encode_uri : String → String
  -- `url.split('/').pop()` and `url.split('?')[0]`
  pub last_path_part : String → String
  pub before_query : String → String

-- The laws of finite IEEE doubles that the proofs rely on.
pub record JsLaws ⦃N : Js⦄ : Type 0 where
  pub le_refl : (a : N.Num) → N.le a a ≡ true
  pub le_trans : (a b c : N.Num) → N.le a b ≡ true → N.le b c ≡ true → N.le a c ≡ true
  pub le_total : (a b : N.Num) → N.le a b ≡ false → N.le b a ≡ true
  pub sub_self_le : (a b : N.Num) → N.le (N.from_ℕ 0) b ≡ true → N.le (N.sub a b) a ≡ true
  pub sub_mono :
      (a b c d : N.Num) → N.le a b ≡ true → N.le d c ≡ true → N.le (N.sub a c) (N.sub b d) ≡ true
  pub mul_nonneg :
      (a b : N.Num)
      → N.le (N.from_ℕ 0) a ≡ true
      → N.le (N.from_ℕ 0) b ≡ true
      → N.le (N.from_ℕ 0) (N.mul a b) ≡ true
  -- by a positive number
  pub div_nonneg :
      (a c : N.Num)
      → N.le c (N.from_ℕ 0) ≡ false
      → N.le (N.from_ℕ 0) a ≡ true
      → N.le (N.from_ℕ 0) (N.div a c) ≡ true
  pub from_ℕ_pos : (n : ℕ) → 0 < n → N.le (N.from_ℕ n) (N.from_ℕ 0) ≡ false
  pub round_mono : (a b : N.Num) → N.le a b ≡ true → N.le (N.round a) (N.round b) ≡ true
  -- two numbers with one text are equal
  pub to_text_inj : (m n : ℕ) → N.to_text m ≡ N.to_text n → m ≡ n
