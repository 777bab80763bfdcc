-- ===== src/Tests/Numbers.antt =====
-- A number type for the tests: the natural numbers, with the laws of floats and of exact arithmetic.
use python_async_api_barebon.Base.{
  ℕ, ◌+◌, ◌-◌, ◌*◌, ◌≤◌, ◌<◌, some, ltb, leb, ◌≡◌, ◌∙◌, sym, ap, arith, if◌then◌else◌, ◌==◌,
}
use Prim.Native.Nat.{◌/◌, ◌%◌}
use native.Mathlib.Nat.{add-mul, mul-le-mul_right, div-add-mod', mod-lt}
use python_async_api_barebon.Base.Float.{Float, FloatLaws}
use python_async_api_barebon.Limiter.Rate.{ExactLaws}

-- Division rounds up, except where the divisor is 0.
abbrev pub div_up : ℕ → ℕ → ℕ
div_up d r = if d % r == 0 then d / r else d / r + 1

instance abbrev pub nat_float : Float ℕ
nat_float = record {
  zero = 0;
  one = 1;
  add = λ a b. a + b;
  sub = λ a b. a - b;
  mul = λ a b. a * b;
  div = div_up;
  le = leb;
  lt = ltb;
  of_int = λ n. some n;
  int_div = λ a b. a / b;
  format1 = λ a. "";
}

pub nat_laws : FloatLaws ℕ nat_float
nat_laws = record {
  le_refl = λ a. ground arith;
  le_trans = λ a b c p q. ground arith;
  le_of_lt = λ a b p. ground arith;
  lt_asymm = λ a b p. ground arith;
  le_of_not_lt = λ a b p. ground arith;
  sub_nonneg = λ a b p. ground arith;
  sub_le = λ a b p. ground arith;
  add_nonneg = λ a b p q. ground arith;
  mul_nonneg = λ a b p q. ground arith;
}

gain_split : (a b c r : ℕ) → a ≤ b → b ≤ c → (b - a) * r + (c - b) * r ≡ (c - a) * r
gain_split a b c r p q = sym (add-mul (b - a) (c - b) r) ∙ ap (λ n. n * r) (omega arith)

div_up-mul : (d r : ℕ) → 0 < r → d ≤ div_up d r * r
div_up-mul d r p = ground (arith, div-add-mod' d r, mod-lt d p, add-mul (d / r) 1 r)

pub exact_nat : ExactLaws ℕ nat_float
exact_nat = record {
  add_mono = λ a b c d p q. ground arith;
  add_assoc = λ a b c. omega arith;
  le-add = λ a b p. ground arith;
  add-sub = λ a b p. ground arith;
  zero-add = λ a. omega arith;
  le_of_sub_pos = λ a b p. ground arith;
  gain_split = λ a b c r p q. gain_split a b c r (ground arith) (ground arith);
  le_of_not_le = λ a b p. ground arith;
  mul_mono = λ a b r p q. ground (arith, mul-le-mul_right {m = a} {n = b} r (ground arith));
  div-mul = λ d r p. ground (arith, div_up-mul d r (ground arith));
}
