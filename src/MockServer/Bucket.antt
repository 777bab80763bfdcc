-- ===== src/MockServer/Bucket.antt =====
-- The server's quota and its warm-up.
use python_async_api_barebon.Base.{
  ◌+◌, if◌then◌else◌, ◌<◌, arith, String, ◌≡◌, some, none, true, false,
}
use python_async_api_barebon.Base.Float.{min-le_left, FloatLaws, min, Float}
use python_async_api_barebon.Exec.{ok}
use python_async_api_barebon.MockServer.State.{
  has_body, increment, ServerState, Builtins, reading, echoes,
}
use python_async_api_barebon.MockServer.Flaky.{rolled, roll, checked, check_rate_limit, flaky}
use python_async_api_barebon.Models.{null}

module _ {F R : Type 0} ⦃o : Float F⦄ (b : Builtins F R) where
  -- The tokens that the bucket has before a request takes one.
  abbrev pub refill : F → F → F → ServerState F R → F
  refill now rate burst s =
      min burst (o.add s.bucket_tokens (o.mul (o.sub now s.bucket_last_refill) rate))

  -- A request that passes the quota takes one token of a refilled bucket that has one, and one that does
  -- not is counted as a 429 and told to wait for what is missing of one.
  pub check_rate_limit_lem :
      (now rate burst : F) (s : ServerState F R)
      → s.profile.enforce_rate_per_second ≡ some rate
      → o.of_int s.profile.enforce_burst ≡ some burst
      → let have = refill now rate burst s in
        let (r, t) = check_rate_limit b now s in
        (r ≡ ok none
          → (o.lt have o.one ≡ false)
            × (t.bucket_tokens ≡ o.sub have o.one)
            × (t.counters ≡ s.counters))
        × ((wait : String)
            → r ≡ ok (some wait)
            → (o.lt have o.one ≡ true)
              × (t.bucket_tokens ≡ have)
              × (wait ≡ b.format3 (o.div (o.sub o.one have) rate))
              × (t.counters ≡ increment 429 s.counters))
  unfolding check_rate_limit
  check_rate_limit_lem now rate burst s e h = (λ x. ground arith, λ wait x. ground arith)

  -- Over lawful floats in which 0 is at most 1, a check of an enforced quota leaves no more tokens
  -- in the mock server's bucket than its burst, whatever it held before.
  pub check_rate_limit-le :
      FloatLaws F o
      → (now rate burst : F) (s : ServerState F R) → s.profile.enforce_rate_per_second ≡ some rate
      → o.of_int s.profile.enforce_burst ≡ some burst
      → o.le o.zero o.one ≡ true
      → o.le (check_rate_limit b now s).1.bucket_tokens burst ≡ true
  unfolding check_rate_limit
  check_rate_limit-le laws now rate burst s e h positive =
      let have = refill now rate burst s in
      let a =
        min-le_left laws burst
          (o.add s.bucket_tokens (o.mul (o.sub now s.bucket_last_refill) rate)) in
      let c = laws.le_trans (o.sub have o.one) have burst (laws.sub_le have o.one positive) a in
      ground arith

  -- Without a quota a request of the warm-up is never failed.
  pub flaky-warm_up :
      (method : String) (now : F) (s : ServerState F R)
      → s.profile.enforce_rate_per_second ≡ none
      → s.request_count < s.profile.succeed_first
      → (flaky b method now s).1
        ≡ (if has_body method then reading method else echoes method null (s.request_count + 1))
  unfolding flaky check_rate_limit checked roll rolled
  flaky-warm_up method now s e h = ground arith
