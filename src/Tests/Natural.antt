-- ===== src/Tests/Natural.antt =====
-- An instance of the number interface: whole amounts that are not negative, as natural numbers.
use text.Mathlib.TextLemmas.{append_cancel_left, append-eq-nil_iff, cons-ne-nil}
use uza_mobility_bn.Base.Text.{◌<>◌}
use uza_mobility_bn.Base.{
  ℕ, zero, suc, String, ◌≡◌, refl, sym, ap, ◌+◌, ◌-◌, ◌*◌, ◌/◌, false, none, arith, leb,
}
use uza_mobility_bn.Js.{Js, JsLaws}

-- A number as that many strokes.
abbrev unary : ℕ → String
unary zero = ""
unary (suc n) = "1" <> unary n

unary_inj : (m n : ℕ) → unary m ≡ unary n → m ≡ n
unary_inj zero zero e = refl
unary_inj zero (suc n) e =
    absurd (cons-ne-nil "1" "" ((append-eq-nil_iff {p = "1"} {q = unary n}).0 (sym e)).0)
unary_inj (suc m) zero e =
    absurd (cons-ne-nil "1" "" ((append-eq-nil_iff {p = "1"} {q = unary m}).0 e).0)
unary_inj (suc m) (suc n) e = ap suc (unary_inj m n (append_cancel_left "1" (unary m) (unary n) e))

instance abbrev pub natural : Js
natural = record {
  Num = ℕ;
  from_ℕ = λ n. n;
  decimal = λ m k. m;
  add = λ a b. a + b;
  sub = λ a b. a - b;
  mul = λ a b. a * b;
  div = λ a b. a / b;
  le = leb;
  round = λ a. a;
  parse_number = λ s. none;
  trim = λ s. s;
  to_upper = λ s. s;
  to_lower = λ s. s;
  ends_with = λ s suffix. false;
  locale_string = λ a. "1,000";
  iso_day = λ date. "2026-01-01";
  year_of = λ date. 2026;
  to_text = unary;
  pad_start = λ n s. s;
  slice_from = λ n s. s;
  parse_int = λ s. none;
  encode_uri = λ s. s;
  last_path_part = λ s. s;
  before_query = λ s. s;
}

instance pub natural_laws : JsLaws
natural_laws = record {
  le_refl = λ a. ground arith;
  le_trans = λ a b c h k. ground arith;
  le_total = λ a b h. ground arith;
  sub_self_le = λ a b h. ground arith;
  sub_mono = λ a b c d h k. ground arith;
  mul_nonneg = λ a b h k. ground arith;
  div_nonneg = λ a c h k. ground arith;
  from_ℕ_pos = λ n h. ground arith;
  round_mono = λ a b h. h;
  to_text_inj = unary_inj;
}
