-- ===== src/MockServer/Flaky.antt =====
-- The quota, the random failures and the handler of /flaky.
use python_async_api_barebon.Base.{
  leb, ◌&&◌, ◌+◌, if◌then◌else◌, Option, String, ℕ, some, none, [], ◌∷◌,
}
use python_async_api_barebon.Base.Float.{min, Float}
use python_async_api_barebon.Errors.{other, overflow_error}
use python_async_api_barebon.Exec.{Exec, Result, ok, err}
use python_async_api_barebon.MockServer.State.{
  counted, has_body, Handler, ServerState, Builtins, sleeping, reading, throttled, responds, echoes,
  crashes,
}
use python_async_api_barebon.Models.{Value, null}

module _ {F R : Type 0} ⦃o : Float F⦄ (b : Builtins F R) where
  -- `a / b` of floats; `none` is a ZeroDivisionError
  abbrev pub quotient : F → F → Option F
  quotient a b = if o.le b o.zero && o.le o.zero b then none else some (o.div a b)

  abbrev turned_away : Option F → Exec F (ServerState F R) (Option String)
  turned_away none s = (err (other "ZeroDivisionError" "float division by zero"), s)
  turned_away (some wait) s = (ok (some (b.format3 wait)), counted 429 s)

  abbrev spent : F → Exec F (ServerState F R) (Option String)
  spent rate s =
      if o.lt s.bucket_tokens o.one
      then turned_away (quotient (o.sub o.one s.bucket_tokens) rate) s
      else (ok none, record s { bucket_tokens = o.sub s.bucket_tokens o.one })

  abbrev topped_up : F → F → Option F → Exec F (ServerState F R) (Option String)
  topped_up now rate none s = (err overflow_error, s)
  topped_up now rate (some burst) s =
      let elapsed = o.sub now s.bucket_last_refill in
      spent rate (record s {
        bucket_tokens = min burst (o.add s.bucket_tokens (o.mul elapsed rate));
        bucket_last_refill = now;
      })

  abbrev rate_limited : F → Option F → Exec F (ServerState F R) (Option String)
  rate_limited now none s = (ok none, s)
  rate_limited now (some rate) s = topped_up now rate (o.of_int s.profile.enforce_burst) s

  -- `some` is the Retry-After of the HTTPException with status 429.
  unfoldable pub check_rate_limit : F → Exec F (ServerState F R) (Option String)
  unfolding min
  check_rate_limit now s = rate_limited now s.profile.enforce_rate_per_second s

  -- `_maybe_random_failure` up to its sleep: nothing in the warm-up, else the delay and two rolls.
  unfoldable pub roll : ServerState F R → Option (F × F × F) × ServerState F R
  roll s =
      let t = record s { request_count = s.request_count + 1 } in
      if leb t.request_count t.profile.succeed_first
      then (none, t)
      else let latency = t.profile.latency_seconds in
        let (x, r) = b.random t.rng in
        let (y, r') = b.random r in
        (some (if o.lt o.zero latency then latency else o.zero, x, y), record t { rng = r' })

  abbrev fails : ℕ × R → ServerState F R → Option ℕ × ServerState F R
  fails (code, r) s = (some code, counted code (record s { rng = r }))

  -- `_maybe_random_failure` behind its sleep: the status of the failure.
  unfoldable pub judge : F → F → ServerState F R → Option ℕ × ServerState F R
  judge roll_429 roll_500 s =
      if o.lt roll_429 s.profile.p_429
      then (some 429, counted 429 s)
      else if o.lt roll_500 s.profile.p_500
      then fails (b.choice (500 ∷ 502 ∷ 503 ∷ []) s.rng) s
      else (none, s)

  abbrev pub succeeds : String → Value F → ServerState F R → ServerState F R × Handler F
  succeeds method body s = (counted 200 s, echoes method body s.request_count)

  abbrev pub passes : String → ServerState F R → ServerState F R × Handler F
  passes method s = if has_body method then (s, reading method) else succeeds method null s

  abbrev pub judged : String → Option ℕ × ServerState F R → ServerState F R × Handler F
  judged method (none, s) = passes method s
  judged method (some code, s) = (s, responds code)

  unfoldable pub rolled :
      String → Option (F × F × F) × ServerState F R → ServerState F R × Handler F
  unfolding judge
  rolled method (none, s) = passes method s
  rolled method (some (delay, x, y), s) =
      if o.lt o.zero delay then (s, sleeping method delay x y) else judged method (judge x y s)

  unfoldable pub checked :
      String → Result F (Option String) × ServerState F R → ServerState F R × Handler F
  unfolding roll rolled
  checked method (err e, s) = (s, crashes e)
  checked method (ok (some retry_after), s) = (s, throttled retry_after)
  checked method (ok none, s) = rolled method (roll s)

  -- A request to /flaky, up to its first wait.
  unfoldable pub flaky : String → F → ServerState F R → ServerState F R × Handler F
  unfolding check_rate_limit checked
  flaky method now s = checked method (check_rate_limit now s)

  -- The handler when it is resumed; `body` is what reading the body comes to, by its JSON value or
  -- its text, or an exception of both attempts.
  unfoldable pub resume :
      Result F (Value F) → Handler F → ServerState F R → ServerState F R × Handler F
  unfolding judge
  resume body (sleeping method delay x y) s = judged method (judge x y s)
  resume (ok body) (reading method) s = succeeds method body s
  resume (err e) (reading method) s = (s, crashes e)
  resume body (throttled retry_after) s = (s, throttled retry_after)
  resume body (responds code) s = (s, responds code)
  resume body (echoes method x n) s = (s, echoes method x n)
  resume body (crashes e) s = (s, crashes e)
