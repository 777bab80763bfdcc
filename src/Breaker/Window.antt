-- ===== src/Breaker/Window.antt =====
-- circuit_breaker.py: the rolling window as the last outcomes, and the run of failures that opens a
-- closed breaker.
use python_async_api_barebon.Base.{
  ℕ, zero, suc, ◌+◌, ◌≤◌, String, Bool, true, false, List, [], ◌∷◌, ◌≡◌, ◌≢◌, arith, refl, ap, ◌⊎◌,
  ◌↔◌,
}
use python_async_api_barebon.Base.Float.{Float}
use python_async_api_barebon.Base.Lists.{length, take}
use python_async_api_barebon.Breaker.Defs.{
  failure_rate, opened, half_open, CircuitBreaker, new_breaker, on_success, on_failure,
}
use python_async_api_barebon.Config.{CircuitBreakerConfig}

take-take-suc : {A : Type 0} (n : ℕ) (xs : List A) → take n (take (suc n) xs) ≡ take n xs
take-take-suc zero xs = refl
take-take-suc (suc n) [] = refl
take-take-suc (suc n) (x ∷ xs) = ap (◌∷◌ x) (take-take-suc n xs)

take-nil : (n : ℕ) → take {A = Bool} n [] ≡ []
take-nil zero = refl
take-nil (suc n) = refl

take-cons-take :
    {A : Type 0} (n : ℕ) (x : A) (xs : List A) → take n (x ∷ take n xs) ≡ take n (x ∷ xs)
take-cons-take zero x xs = refl
take-cons-take (suc n) x xs = ap (◌∷◌ x) (take-take-suc n xs)

-- The latest failures in a row.
abbrev pub streak : List Bool → ℕ
streak [] = 0
streak (true ∷ xs) = 0
streak (false ∷ xs) = streak xs + 1

module _ {F : Type 0} ⦃o : Float F⦄ where
  -- An outcome that is reported at a time.
  unfoldable pub report : F → Bool → CircuitBreaker F → CircuitBreaker F
  report now true b = on_success b
  report now false b = on_failure now b

  -- The outcomes of a list, the latest first, reported in order.
  unfoldable pub report_all : List (F × Bool) → CircuitBreaker F → CircuitBreaker F
  report_all [] b = b
  report_all ((now, x) ∷ earlier) b = report now x (report_all earlier b)

  abbrev pub verdicts : List (F × Bool) → List Bool
  verdicts [] = []
  verdicts ((now, x) ∷ earlier) = x ∷ verdicts earlier

  -- The history calls for an open breaker: at some failure the failures in a row had reached the
  -- threshold, or the last `rolling_window` outcomes were that many and their rate was reached.
  abbrev pub Triggers : CircuitBreakerConfig F → List Bool → Type 0
  Triggers c [] = ⊥
  Triggers c (true ∷ xs) = Triggers c xs
  Triggers c (false ∷ xs) =
      Triggers c xs
      ⊎ (c.failure_threshold ≤ streak (false ∷ xs))
      ⊎ ((length (take c.rolling_window (false ∷ xs)) ≡ c.rolling_window)
          × (o.le c.failure_rate (failure_rate (take c.rolling_window (false ∷ xs))) ≡ true))

  -- What a breaker that was never probed knows of its history.
  record Tracks (c : CircuitBreakerConfig F) (xs : List Bool) (b : CircuitBreaker F) : Type 0 where
    same : b.cfg ≡ c
    recent : b.outcomes ≡ take c.rolling_window xs
    in_a_row : b.consecutive_failures ≡ streak xs
    unprobed : b.state ≢ half_open
    opens : b.state ≡ opened → Triggers c xs
    stays : Triggers c xs → b.state ≡ opened

  report-Tracks :
      (c : CircuitBreakerConfig F) (now : F) (x : Bool) (xs : List Bool) (b : CircuitBreaker F)
      → Tracks c xs b
      → Tracks c (x ∷ xs) (report now x b)
  unfolding report on_success on_failure
  report-Tracks c now true xs b t = ground (arith, take-cons-take c.rolling_window true xs)
  report-Tracks c now false xs b t = ground (arith, take-cons-take c.rolling_window false xs)

  report_all-Tracks :
      (host : String) (c : CircuitBreakerConfig F) (rs : List (F × Bool))
      → Tracks c (verdicts rs) (report_all rs (new_breaker host c))
  unfolding report_all new_breaker
  report_all-Tracks host c [] = ground (arith, take-nil c.rolling_window)
  report_all-Tracks host c ((now, x) ∷ earlier) =
      report-Tracks c now x (verdicts earlier) _ (report_all-Tracks host c earlier)

  -- Until its first probe, a new breaker holds exactly the last `rolling_window` outcomes and the
  -- length of the last run of failures, and it is open exactly when the history has triggered it.
  pub report_all-history :
      (host : String) (c : CircuitBreakerConfig F) (rs : List (F × Bool))
      → let b = report_all rs (new_breaker host c) in
        (b.outcomes ≡ take c.rolling_window (verdicts rs))
        × (b.consecutive_failures ≡ streak (verdicts rs))
        × ((b.state ≡ opened) ↔ Triggers c (verdicts rs))
  report_all-history host c rs =
      let t = report_all-Tracks host c rs in (t.recent, t.in_a_row, (t.opens, t.stays))
