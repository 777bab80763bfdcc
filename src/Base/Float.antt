-- ===== src/Base/Float.antt =====
-- Python's floats, as an interface: the operations that the program uses, and the laws of their
-- order that some theorems rely on. A NaN is outside the laws, and the program's values are none.
use mathlib.Core.Path.{◌≡◌}
use native.Mathlib.Omega.{arith}
use mathlib.Core.Bool.{Bool, true, false}
use python_async_api_barebon.Base.Tests.{if◌then◌else◌, Bool-cases}
use mathlib.Core.Logic.{inl, inr}
use mathlib.Core.Option.{Option}
use Prim.Native.Nat.{ℕ}
use Prim.Native.String.{String}

pub record Float (F : Type 0) : Type 0 where
  pub zero : F
  pub one : F
  pub add : F → F → F
  pub sub : F → F → F
  pub mul : F → F → F
  pub div : F → F → F
  pub le : F → F → Bool
  pub lt : F → F → Bool
  -- `float(n)` of an int; `none` is the OverflowError of an int that is too large
  pub of_int : ℕ → Option F
  -- `n / m` of two ints
  pub int_div : ℕ → ℕ → F
  -- `f"{x:.1f}"`
  pub format1 : F → String

-- What holds of the order of floats, and of a subtraction and an addition rounded to nearest.
pub record FloatLaws (F : Type 0) (o : Float F) : Type 0 where
  pub le_refl : (a : F) → o.le a a ≡ true
  pub le_trans : (a b c : F) → o.le a b ≡ true → o.le b c ≡ true → o.le a c ≡ true
  pub le_of_lt : (a b : F) → o.lt a b ≡ true → o.le a b ≡ true
  pub lt_asymm : (a b : F) → o.lt a b ≡ true → o.lt b a ≡ false
  pub le_of_not_lt : (a b : F) → o.lt a b ≡ false → o.le b a ≡ true
  pub sub_nonneg : (a b : F) → o.le b a ≡ true → o.le o.zero (o.sub a b) ≡ true
  pub sub_le : (a b : F) → o.le o.zero b ≡ true → o.le (o.sub a b) a ≡ true
  pub add_nonneg :
      (a b : F) → o.le o.zero a ≡ true → o.le o.zero b ≡ true → o.le o.zero (o.add a b) ≡ true
  pub mul_nonneg :
      (a b : F) → o.le o.zero a ≡ true → o.le o.zero b ≡ true → o.le o.zero (o.mul a b) ≡ true

module _ {F : Type 0} ⦃o : Float F⦄ where
  -- `min(a, b)` and `max(a, b)`: the first of equal arguments
  unfoldable pub min : F → F → F
  min a b = if o.lt b a then b else a

  unfoldable pub max : F → F → F
  max a b = if o.lt a b then b else a

  module _ (laws : FloatLaws F o) where
    pub min-le_left : (a b : F) → o.le (min a b) a ≡ true
    unfolding min
    min-le_left a b = elim (Bool-cases (o.lt b a)) [
      | inl h ↦ rw h (laws.le_of_lt b a h)
      | inr h ↦ rw h (laws.le_refl a)
    ]

    pub min-le_right : (a b : F) → o.le (min a b) b ≡ true
    unfolding min
    min-le_right a b = elim (Bool-cases (o.lt b a)) [
      | inl h ↦ rw h (laws.le_refl b)
      | inr h ↦ rw h (laws.le_of_not_lt b a h)
    ]

    -- A minimum is no less than what is no more than both.
    pub le-min : (c a b : F) → o.le c a ≡ true → o.le c b ≡ true → o.le c (min a b) ≡ true
    unfolding min
    le-min c a b ha hb = ground arith

    pub le-max_left : (a b : F) → o.le a (max a b) ≡ true
    unfolding max
    le-max_left a b = elim (Bool-cases (o.lt a b)) [
      | inl h ↦ rw h (laws.le_of_lt a b h)
      | inr h ↦ rw h (laws.le_refl a)
    ]
