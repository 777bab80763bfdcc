-- ===== src/Retry.antt =====
-- async_hardened_client/retry.py: the retry decision, the backoff and the Retry-After header.
pub mod Bounds
use python_async_api_barebon.Base.{
  ℕ, ◌^◌, String, Bool, true, false, not, Option, none, some, ltb, ◌&&◌, str_eq, if◌then◌else◌,
}
use python_async_api_barebon.Base.Float.{Float, min, max}
use python_async_api_barebon.Config.{RetryPolicy}
use mathlib.Core.Option

module _ {F : Type 0} ⦃o : Float F⦄ where
  unfoldable pub should_retry : RetryPolicy F → ℕ → Bool
  should_retry policy attempt = ltb attempt policy.max_retries

  -- `retry_after is not None and retry_after > 0`
  abbrev pub is_positive : Option F → Bool
  is_positive none = false
  is_positive (some s) = o.lt o.zero s

  abbrev pub or_zero : Option F → F
  or_zero none = o.zero
  or_zero (some s) = s

  -- `rng.uniform(0.0, target)`, or the target itself without jitter
  abbrev pub jittered : Bool → (F → F → F) → F → F
  jittered jitter uniform target = if jitter then uniform o.zero target else target

  -- `uniform` is the generator's draw. `none` is the OverflowError of `base * (2 ** attempt)` when
  -- the power is too large for a float.
  unfoldable pub backoff_seconds : RetryPolicy F → ℕ → Option F → (F → F → F) → Option F
  backoff_seconds policy attempt retry_after uniform =
      if is_positive retry_after
      then some (min (or_zero retry_after) policy.max_delay)
      else Option.map
          (λ power.
            jittered policy.jitter uniform
              (min (max o.zero policy.max_delay) (o.mul (max o.zero policy.base_delay) power)))
          (o.of_int (2 ^ attempt))

  -- `read` is `float(value.strip())`, with `none` for a ValueError.
  unfoldable pub parse_retry_after : (String → Option F) → Option String → Option F
  parse_retry_after read none = none
  parse_retry_after read (some value) =
      if str_eq value "" then none else Option.map (max o.zero) (read value)
