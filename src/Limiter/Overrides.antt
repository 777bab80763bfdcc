-- ===== src/Limiter/Overrides.antt =====
-- async_hardened_client/rate_limiter.py: the registry of buckets, and what an override changes.
use python_async_api_barebon.Base.{
  ℕ, String, some, ◌≡◌, ◌≢◌, arith, [], ◌∷◌, ◌++◌, eq_iff, inl, inr, Option-cases,
}
use python_async_api_barebon.Base.Lists.{length}
use python_async_api_barebon.Base.Dict.{get, pop, get-put, get-pop}
use python_async_api_barebon.Base.Float.{Float}
use python_async_api_barebon.Config.{RateLimitConfig}
use python_async_api_barebon.Errors.{PyError}
use python_async_api_barebon.Exec.{ok, err}
use python_async_api_barebon.Limiter.Bucket.{TokenBucket, new_bucket}
use python_async_api_barebon.Limiter.Registry.{HostRateLimiter, set_override, bucket_of}

module _ {F : Type 0} ⦃o : Float F⦄ where
  -- An override whose bucket can be built takes effect at the host's next request, on a full bucket
  -- of its own: the bucket in use before stays on the heap, and no other host's entry changes.
  pub set_override_applies :
      (host : String) (config : RateLimitConfig F) (now : F) (l : HostRateLimiter F)
      (b : TokenBucket F)
      → new_bucket config.rate_per_second config.burst now ≡ ok b
      → let (r, l') = bucket_of now host (set_override host config l) in
        (r ≡ ok (length l.heap))
        × (l'.heap ≡ l.heap ++ b ∷ [])
        × (get l'.buckets host ≡ some (length l.heap))
        × ((j : String) → j ≢ host → get l'.buckets j ≡ get l.buckets j)
  unfolding bucket_of set_override
  set_override_applies host config now l b made =
      let placed = λ (j : String). get-put (pop l.buckets host) host j (length l.heap) in
      let dropped = λ (j : String). get-pop l.buckets host j in
      let config_found = get-put l.overrides host host config in
      (
        ground (arith, dropped host, eq_iff host host, config_found),
        ground (arith, dropped host, eq_iff host host, config_found),
        ground (arith, dropped host, eq_iff host host, config_found, placed host),
        λ j ne. ground (
          arith,
          dropped host,
          dropped j,
          eq_iff host host,
          config_found,
          placed j,
          eq_iff host j,
        ),
      )

  -- A host whose bucket cannot be built raises, and the registry stays as it is.
  pub bucket_of_refused :
      (host : String) (now : F) (l : HostRateLimiter F) (e : PyError F)
      → (bucket_of now host l).0 ≡ err e
      → (bucket_of now host l).1 ≡ l
  unfolding bucket_of
  bucket_of_refused host now l e h = ground arith

  -- A host keeps its bucket: a second request finds the one that the first found or built, and
  -- changes nothing.
  pub bucket_of_again :
      (host : String) (now later : F) (l : HostRateLimiter F) (id : ℕ)
      → (bucket_of now host l).0 ≡ ok id
      → bucket_of later host (bucket_of now host l).1 ≡ (ok id, (bucket_of now host l).1)
  unfolding bucket_of
  bucket_of_again host now later l id h = elim (Option-cases (get l.buckets host)) [
    | inl missing ↦ ground (arith, get-put l.buckets host host (length l.heap), eq_iff host host)
    | inr (i, there) ↦ ground arith
  ]
