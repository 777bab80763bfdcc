-- ===== src/Base/Sums.antt =====
-- Sums over a list, and what a change at one element makes of them.
use Prim.Native.Nat.{ℕ, zero, suc, ◌+◌, ◌≤◌}
use mathlib.Core.List.{List, [], ◌∷◌, ◌++◌, Perm, Permᴰ}
use mathlib.Core.Logic.{inr, inl, ∥∥₁_elim}
use mathlib.Core.Option.{some}
use mathlib.Core.Path.{◌≡◌, refl, ap, ◌∙◌}
use native.Mathlib.Omega.{arith}
use python_async_api_barebon.Base.{leb, Bool-cases}
use python_async_api_barebon.Base.Lists.{length, get_elem?, set}

module _ {A : Type 0} (weight : A → ℕ) where
  abbrev pub total : List A → ℕ
  total [] = 0
  total (x ∷ xs) = weight x + total xs

  pub total-append : (xs ys : List A) → total (xs ++ ys) ≡ total xs + total ys
  total-append [] ys = omega arith
  total-append (x ∷ xs) ys = omega (arith, total-append xs ys)

  pub total-set :
      (xs : List A) (i : ℕ) (old new : A)
      → get_elem? xs i ≡ some old
      → total (set xs i new) + weight old ≡ total xs + weight new
  total-set [] i old new e = cc
  total-set (x ∷ xs) zero old new e = ground arith
  total-set (x ∷ xs) (suc i) old new e = ground (arith, total-set xs i old new e)

  -- One task's part in a sum, and what the sum is when it is replaced.
  pub total-split :
      (xs : List A) (i : ℕ) (x y : A)
      → get_elem? xs i ≡ some x
      → (n : ℕ) × (total xs ≡ n + weight x) × (total (set xs i y) ≡ n + weight y)
  total-split [] i x y e = cc
  total-split (z ∷ xs) zero x y e =
      let same : z ≡ x = cc in (total xs, rw same (omega arith), omega arith)
  total-split (z ∷ xs) (suc i) x y e =
      let (n, old, new) = total-split xs i x y e in
      (n + weight z, omega (arith, old), omega (arith, new))

  -- One element's part is at most the sum.
  pub le-total : (xs : List A) (i : ℕ) (x : A) → get_elem? xs i ≡ some x → weight x ≤ total xs
  le-total xs i x e = let (n, old, new) = total-split xs i x x e in omega (arith, old)

pub total_mono :
    {A : Type 0} (f g : A → ℕ) (xs : List A) → ((x : A) → f x ≤ g x) → total f xs ≤ total g xs
total_mono f g [] h = omega arith
total_mono f g (x ∷ xs) h = omega (arith, h x, total_mono f g xs h)

module _ {A : Type 0} (weight : A → ℕ) where
  total-Permᴰ : {xs ys : List A} → Permᴰ xs ys → total weight xs ≡ total weight ys
  total-Permᴰ Permᴰ.nil = refl
  total-Permᴰ (Permᴰ.cons e d) = omega (arith, ap weight e, total-Permᴰ d)
  total-Permᴰ (Permᴰ.swap e f) = omega (arith, ap weight e, ap weight f)
  total-Permᴰ (Permᴰ.trans d e) = total-Permᴰ d ∙ total-Permᴰ e

  -- The order does not matter.
  pub total-Perm : {xs ys : List A} → Perm xs ys → total weight xs ≡ total weight ys
  total-Perm {xs} {ys} p = ∥∥₁_elim p (hlevel) total-Permᴰ

pub length-total : {A : Type 0} (xs : List A) → length xs ≡ total (λ (x : A). 1) xs
length-total [] = refl
length-total (x ∷ xs) = omega (arith, length-total xs)

-- A sum that is not 0 has an element that counts.
pub total-some :
    {A : Type 0} (weight : A → ℕ) (xs : List A)
    → 1 ≤ total weight xs
    → (i : ℕ) × (x : A) × (get_elem? xs i ≡ some x) × (1 ≤ weight x)
total-some weight [] h = absurd (omega arith)
total-some weight (x ∷ xs) h = elim (Bool-cases (leb 1 (weight x))) [
  | inl e ↦ (0, x, refl, ground (arith, e))
  | inr e ↦
      let (i, y, found, counts) = total-some weight xs (ground (arith, e)) in
      (suc i, y, found, counts)
]
