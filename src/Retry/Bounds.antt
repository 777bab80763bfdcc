-- ===== src/Retry/Bounds.antt =====
-- The bounds of the delays that retry.py computes.
use python_async_api_barebon.Base.{
  ℕ, ◌^◌, String, Bool, true, false, Option, none, some, ◌≡◌, ◌≢◌, eq_iff, ◌↔◌, inl, inr, arith,
  Option-cases, Bool-cases,
}
use python_async_api_barebon.Base.Float.{
  Float, FloatLaws, min, max, min-le_left, min-le_right, le-min, le-max_left,
}
use python_async_api_barebon.Config.{RetryPolicy}
use python_async_api_barebon.Retry.{
  is_positive, or_zero, jittered, backoff_seconds, parse_retry_after,
}

module _ {F : Type 0} ⦃o : Float F⦄ (laws : FloatLaws F o) where
  -- A draw from `[0, target]` stays there.
  abbrev pub DrawsWithin : (F → F → F) → Type 0
  DrawsWithin uniform =
      (t : F)
      → o.le o.zero t ≡ true
      → (o.le o.zero (uniform o.zero t) ≡ true) × (o.le (uniform o.zero t) t ≡ true)

  jittered_bounds :
      (jitter : Bool) (uniform : F → F → F)
      → DrawsWithin uniform
      → (t : F) → o.le o.zero t ≡ true
      → (o.le o.zero (jittered jitter uniform t) ≡ true)
        × (o.le (jittered jitter uniform t) t ≡ true)
  jittered_bounds true uniform draws t h = draws t h
  jittered_bounds false uniform draws t h = (h, laws.le_refl t)

  is_positive-le : (r : Option F) → is_positive r ≡ true → o.le o.zero (or_zero r) ≡ true
  is_positive-le none h = laws.le_refl o.zero
  is_positive-le (some s) h = laws.le_of_lt o.zero s h

  max_zero : (a : F) → o.le o.zero a ≡ true → o.le (max o.zero a) a ≡ true
  unfolding max
  max_zero a h = elim (Bool-cases (o.lt o.zero a)) [
    | inl p ↦ rw p (laws.le_refl a)
    | inr p ↦ rw p h
  ]

  full_jitter :
      (policy : RetryPolicy F) (uniform : F → F → F) (p : F)
      → o.le o.zero policy.max_delay ≡ true
      → DrawsWithin uniform
      → o.le o.zero p ≡ true
      → let target = min (max o.zero policy.max_delay) (o.mul (max o.zero policy.base_delay) p) in
        (o.le o.zero (jittered policy.jitter uniform target) ≡ true)
        × (o.le (jittered policy.jitter uniform target) policy.max_delay ≡ true)
  full_jitter policy uniform p cap draws hp =
      let cap_le = max_zero policy.max_delay cap in
      let base_pos = le-max_left laws o.zero policy.base_delay in
      let cap_pos = le-max_left laws o.zero policy.max_delay in
      let product = laws.mul_nonneg _ p base_pos hp in
      let target_pos = le-min laws o.zero _ _ cap_pos product in
      let (low, high) = jittered_bounds policy.jitter uniform draws _ target_pos in
      (low, laws.le_trans _ _ _ high (laws.le_trans _ _ _ (min-le_left laws _ _) cap_le))

  -- Over lawful floats, with a cap of zero or more, a draw that stays in its range and powers that
  -- are not negative, every delay that `backoff_seconds` returns lies between 0 and `max_delay`.
  pub backoff_seconds_bounds :
      (policy : RetryPolicy F) (attempt : ℕ) (retry_after : Option F) (uniform : F → F → F) (d : F)
      → o.le o.zero policy.max_delay ≡ true
      → DrawsWithin uniform
      → ((n : ℕ) (p : F) → o.of_int n ≡ some p → o.le o.zero p ≡ true)
      → backoff_seconds policy attempt retry_after uniform ≡ some d
      → (o.le o.zero d ≡ true) × (o.le d policy.max_delay ≡ true)
  unfolding backoff_seconds
  backoff_seconds_bounds policy attempt retry_after uniform d cap draws ints e =
      elim (Bool-cases (is_positive retry_after)) [
        | inl h ↦ ground (
          arith,
          le-min laws o.zero (or_zero retry_after) policy.max_delay (is_positive-le retry_after h)
              cap,
          min-le_right laws (or_zero retry_after) policy.max_delay,
        )
        | inr h ↦ elim (Option-cases (o.of_int (2 ^ attempt))) [
          | inl huge ↦ ground arith
          | inr (p, fits) ↦
              ground (arith, full_jitter policy uniform p cap draws (ints (2 ^ attempt) p fits))
        ]
      ]

  -- Over lawful floats, a parsed Retry-After is never negative, and an absent or an empty header is
  -- none.
  pub parse_retry_after_nonneg :
      (read : String → Option F) (value : Option String) (d : F)
      → parse_retry_after read value ≡ some d
      → (o.le o.zero d ≡ true) × (value ≢ none) × (value ≢ some "")
  unfolding parse_retry_after
  parse_retry_after_nonneg read none d e = cc
  parse_retry_after_nonneg read (some v) d e = elim (Option-cases (read v)) [
    | inl h ↦ ground arith
    | inr (s, h) ↦ ground (arith, le-max_left laws o.zero s, eq_iff v "")
  ]

module _ {F : Type 0} ⦃o : Float F⦄ where
  -- `backoff_seconds` raises an OverflowError exactly when no positive Retry-After is given and the
  -- power of two does not fit a float, whatever the rest of the policy says.
  pub backoff_seconds_overflow_iff :
      (policy : RetryPolicy F) (attempt : ℕ) (retry_after : Option F) (uniform : F → F → F)
      → (backoff_seconds policy attempt retry_after uniform ≡ none)
        ↔ ((is_positive retry_after ≡ false) × (o.of_int (2 ^ attempt) ≡ none))
  unfolding backoff_seconds
  backoff_seconds_overflow_iff policy attempt retry_after uniform = ground arith
