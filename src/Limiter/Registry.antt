-- ===== src/Limiter/Registry.antt =====
-- The class HostRateLimiter. Buckets are shared objects: the dictionary holds references into a
-- heap, since a caller that waits keeps the bucket that it found, also after an override.
use python_async_api_barebon.Base.{
  ℕ, String, Option, none, some, List, [], ◌∷◌, ◌++◌, str_eq, if◌then◌else◌,
}
use python_async_api_barebon.Base.Lists.{length}
use python_async_api_barebon.Base.Dict.{Dict, get, put, pop}
use python_async_api_barebon.Base.Float.{Float}
use python_async_api_barebon.Config.{RateLimitConfig}
use python_async_api_barebon.Exec.{Result, ok, err, Exec}
use python_async_api_barebon.Limiter.Bucket.{TokenBucket, new_bucket}

pub record HostRateLimiter (F : Type 0) : Type 0 where
  pub default : RateLimitConfig F
  pub overrides : Dict (RateLimitConfig F)
  pub buckets : Dict ℕ
  pub heap : List (TokenBucket F)

-- `host_of`, with `netloc` for `urlparse(url).netloc.lower()`, which raises for some texts.
abbrev or_url : {F : Type 0} → String → Result F String → Result F String
or_url url (ok host) = ok (if str_eq host "" then url else host)
or_url url (err e) = err e

unfoldable pub host_of : {F : Type 0} → (String → Result F String) → String → Result F String
host_of netloc url = or_url url (netloc url)

module _ {F : Type 0} ⦃o : Float F⦄ where
  unfoldable pub new_limiter : RateLimitConfig F → HostRateLimiter F
  new_limiter default = record { default = default; overrides = []; buckets = []; heap = [] }

  unfoldable pub set_override : String → RateLimitConfig F → HostRateLimiter F → HostRateLimiter F
  set_override host config l = record l {
    overrides = put l.overrides host config;
    buckets = pop l.buckets host;
  }

  abbrev config_of : Option (RateLimitConfig F) → RateLimitConfig F → RateLimitConfig F
  config_of none default = default
  config_of (some c) default = c

  abbrev install : String → Result F (TokenBucket F) → Exec F (HostRateLimiter F) ℕ
  install host (err e) l = (err e, l)
  install host (ok b) l =
      let id = length l.heap in
      (ok id, record l { buckets = put l.buckets host id; heap = l.heap ++ b ∷ [] })

  abbrev found_or_new : F → String → Option ℕ → Exec F (HostRateLimiter F) ℕ
  found_or_new now host (some id) l = (ok id, l)
  found_or_new now host none l =
      let cfg = config_of (get l.overrides host) l.default in
      install host (new_bucket cfg.rate_per_second cfg.burst now) l

  -- `acquire(url)` up to the bucket: the reference on which it then waits.
  unfoldable pub bucket_of : F → String → Exec F (HostRateLimiter F) ℕ
  bucket_of now host l = found_or_new now host (get l.buckets host) l
