-- ===== src/Base/TextOrder.antt =====
-- The order of Python's `str`, by code points: total and transitive.
use Prim.Native.Nat.{Ordering}
use Prim.Native.String.{String, [], ◌∷◌, compare}
use Prim.Native.String.compare
use mathlib.Core.Path.{◌≡◌}
use mathlib.Core.Bool.{Bool, true, false}
use mathlib.Core.Logic.{◌≢◌}
use native.Mathlib.Omega.{arith}
use text.Mathlib.Text.{is_lt}
use text.Mathlib.TextEquality.{path_by_compare}

abbrev pub text_lt : String → String → Bool
text_lt s t = is_lt (compare s t)

abbrev flip : Ordering → Ordering
flip Ordering.lt = Ordering.gt
flip Ordering.eq = Ordering.eq
flip Ordering.gt = Ordering.lt

compare-flip : (s t : String) → compare t s ≡ flip (compare s t)
compare-flip [] [] = ground (arith, compare.nil-nil)
compare-flip [] (d ∷ t) = ground (arith, compare.nil-cons d t, compare.cons-nil d t)
compare-flip (c ∷ s) [] = ground (arith, compare.nil-cons c s, compare.cons-nil c s)
compare-flip (c ∷ s) (d ∷ t) =
    ground (arith, compare.cons-cons c d s t, compare.cons-cons d c t s, compare-flip s t)

-- Of two different texts one is before the other.
pub text_lt_flip : (s t : String) → s ≢ t → text_lt s t ≡ false → text_lt t s ≡ true
text_lt_flip s t ne h = ground (arith, compare-flip s t, path_by_compare s t)

pub text_lt_asymm : (s t : String) → text_lt s t ≡ true → text_lt t s ≡ false
text_lt_asymm s t h = ground (arith, compare-flip s t)

pub text_lt_trans : (s t u : String) → text_lt s t ≡ true → text_lt t u ≡ true → text_lt s u ≡ true
text_lt_trans [] [] u p q = ground (arith, compare.nil-nil)
text_lt_trans [] (d ∷ t) [] p q = ground (arith, compare.cons-nil d t)
text_lt_trans [] (d ∷ t) (e ∷ u) p q = ground (arith, compare.nil-cons e u)
text_lt_trans (c ∷ s) [] u p q = ground (arith, compare.cons-nil c s)
text_lt_trans (c ∷ s) (d ∷ t) [] p q = ground (arith, compare.cons-nil d t)
text_lt_trans (c ∷ s) (d ∷ t) (e ∷ u) p q = ground (
  arith,
  compare.cons-cons c d s t,
  compare.cons-cons d e t u,
  compare.cons-cons c e s u,
  text_lt_trans s t u,
)
