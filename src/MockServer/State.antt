-- ===== src/MockServer/State.antt =====
-- The server's state, its profile, and the stages in which a request stands.
use python_async_api_barebon.Base.{
  str_eq, Bool, ⊤, ◌+◌, ◌==◌, if◌then◌else◌, List, Option, String, ℕ, some, none, true, [], ◌∷◌,
}
use python_async_api_barebon.Base.Float.{Float}
use python_async_api_barebon.Errors.{overflow_error, PyError}
use python_async_api_barebon.Exec.{Exec, Result, ok, err}
use python_async_api_barebon.Models.{Value, int}

-- A seed is any JSON value. A burst and a warm-up are not negative.
pub record FailureProfile (F : Type 0) : Type 0 where
  pub p_429 : F
  pub p_500 : F
  pub latency_seconds : F
  pub enforce_rate_per_second : Option F
  pub enforce_burst : ℕ
  pub seed : Value F
  pub succeed_first : ℕ

-- The lock is left out: no task waits while it holds it.
pub record ServerState (F R : Type 0) : Type 0 where
  pub profile : FailureProfile F
  pub rng : R
  pub counters : List (ℕ × ℕ)
  pub request_count : ℕ
  pub bucket_tokens : F
  pub bucket_last_refill : F

-- The generator of random.Random, by its states R, the conversions `float` and `int` of a JSON
-- value, and `f"{x:.3f}"`.
pub record Builtins (F R : Type 0) : Type 0 where
  pub seeded : Value F → Result F R
  pub random : R → F × R
  pub choice : List ℕ → R → ℕ × R
  pub float_of : Value F → Result F F
  pub int_of : Value F → Result F ℕ
  pub format3 : F → String

-- `counters.get(code, 0)`, and `counters[code] = counters.get(code, 0) + 1`
unfoldable pub counter : ℕ → List (ℕ × ℕ) → ℕ
counter code [] = 0
counter code ((k, n) ∷ counters) = if k == code then n else counter code counters

unfoldable pub increment : ℕ → List (ℕ × ℕ) → List (ℕ × ℕ)
increment code [] = (code, 1) ∷ []
increment code ((k, n) ∷ counters) =
    if k == code then (k, n + 1) ∷ counters else (k, n) ∷ increment code counters

-- A request to /flaky: in its artificial latency with its two rolls, waiting for its body, or
-- answered: by the rate limit with a Retry-After, by a status, by the echo of the body and a number,
-- or by the exception of the handler, of which the framework makes its own response.
pub data Handler (F : Type 0) : Type 0 where
  sleeping : String → F → F → F → Handler F
  reading : String → Handler F
  throttled : String → Handler F
  responds : ℕ → Handler F
  echoes : String → Value F → ℕ → Handler F
  crashes : PyError F → Handler F

abbrev pub has_body : String → Bool
has_body method = if str_eq method "POST" then true else str_eq method "PUT"

module _ {F R : Type 0} where
  -- `GET /metrics`: the counters and the number of requests.
  unfoldable pub metrics : ServerState F R → List (ℕ × ℕ) × ℕ
  metrics s = (s.counters, s.request_count)

  abbrev pub counted : ℕ → ServerState F R → ServerState F R
  counted code s = record s { counters = increment code s.counters }

module _ {F R : Type 0} ⦃o : Float F⦄ (b : Builtins F R) where
  abbrev refilled : F → Option F → Exec F (ServerState F R) ⊤
  refilled now none s = (err overflow_error, s)
  refilled now (some burst) s =
      (ok tt, record s { bucket_tokens = burst; bucket_last_refill = now })

  abbrev reseeded : FailureProfile F → F → Result F R → Exec F (ServerState F R) ⊤
  reseeded p now (err e) s = (err e, s)
  reseeded p now (ok r) s =
      refilled now (o.of_int p.enforce_burst)
        (record s { rng = r; counters = []; request_count = 0 })

  -- An exception leaves what stands before it done.
  unfoldable pub reset_for_profile : FailureProfile F → F → Exec F (ServerState F R) ⊤
  reset_for_profile p now s = reseeded p now (b.seeded p.seed) (record s { profile = p })

  abbrev default_profile : FailureProfile F
  default_profile = record {
    p_429 = o.zero;
    p_500 = o.zero;
    latency_seconds = o.zero;
    enforce_rate_per_second = none;
    enforce_burst = 5;
    seed = int 0;
    succeed_first = 0;
  }

  -- The state behind a new app; `fresh` is the generator that a new state has.
  unfoldable pub build_app : Option (FailureProfile F) → R → F → Result F ⊤ × ServerState F R
  unfolding reset_for_profile
  build_app p fresh now =
      let profile : FailureProfile F = elim p [ none ↦ default_profile | some q ↦ q ] in
      reset_for_profile profile now (record {
        profile = default_profile;
        rng = fresh;
        counters = [];
        request_count = 0;
        bucket_tokens = o.zero;
        bucket_last_refill = o.zero;
      })
