-- ===== src/Breaker/Hosts.antt =====
-- The class HostCircuitBreakers. A breaker is never replaced in the registry, so a reference to one
-- is its host, and a method on it is an update of the registry at that host.
use python_async_api_barebon.Base.{
  String, Option, none, some, [], ◌∷◌, ◌≡◌, ◌≢◌, arith, eq_iff, str_eq, if◌then◌else◌,
}
use python_async_api_barebon.Base.Dict.{Dict, get, put, get-put}
use python_async_api_barebon.Base.Float.{Float}
use python_async_api_barebon.Exec.{Result, ok, err}
use python_async_api_barebon.Config.{CircuitBreakerConfig}
use python_async_api_barebon.Breaker.Defs.{CircuitState, CircuitBreaker, new_breaker}

pub record HostCircuitBreakers (F : Type 0) : Type 0 where
  pub cfg : CircuitBreakerConfig F
  pub breakers : Dict (CircuitBreaker F)

-- `host_of`, with `netloc` for `urlparse(url).netloc.lower()`, which raises for some texts.
abbrev or_url : {F : Type 0} → String → Result F String → Result F String
or_url url (ok host) = ok (if str_eq host "" then url else host)
or_url url (err e) = err e

unfoldable pub host_of : {F : Type 0} → (String → Result F String) → String → Result F String
host_of netloc url = or_url url (netloc url)

module _ {F : Type 0} ⦃o : Float F⦄ where
  abbrev found_or_new :
      String
      → Option (CircuitBreaker F)
      → HostCircuitBreakers F
      → CircuitBreaker F × HostCircuitBreakers F
  found_or_new host (some b) r = (b, r)
  found_or_new host none r =
      let b = new_breaker host r.cfg in (b, record r { breakers = put r.breakers host b })

  -- `for_url`, at the host of the URL: the breaker, and the registry that now holds it.
  unfoldable pub for_host :
      String → HostCircuitBreakers F → CircuitBreaker F × HostCircuitBreakers F
  for_host host r = found_or_new host (get r.breakers host) r

  -- The breaker that a reference leads to, after a method has changed it.
  unfoldable pub store : String → CircuitBreaker F → HostCircuitBreakers F → HostCircuitBreakers F
  store host b r = record r { breakers = put r.breakers host b }

  -- `snapshot`
  unfoldable pub snapshot : Dict (CircuitBreaker F) → Dict CircuitState
  snapshot [] = []
  snapshot ((host, b) ∷ rest) = (host, b.state) ∷ snapshot rest

  -- A breaker that `for_url` finds is the one that was stored last at its host, and neither storing
  -- nor finding at a host changes the breakers of other hosts.
  pub for_host-store :
      (host other : String) (b : CircuitBreaker F) (r : HostCircuitBreakers F)
      → host ≢ other
      → ((for_host host (store host b r)).0 ≡ b)
        × (get (store host b r).breakers other ≡ get r.breakers other)
        × ((j : String) → j ≢ host → get (for_host host r).1.breakers j ≡ get r.breakers j)
  unfolding for_host store
  for_host-store host other b r ne = (
    ground (arith, get-put r.breakers host host b, eq_iff host host),
    ground (arith, get-put r.breakers host other b, eq_iff host other),
    λ j nj. ground (arith, get-put r.breakers host j (new_breaker host r.cfg), eq_iff host j),
  )
