-- ===== src/MockServer/Counts.antt =====
-- The server's counters against the answers that its handlers gave, over all orders of steps.
use python_async_api_barebon.Base.{
  ◌∙◌, subst, Option, arith, ◌+◌, ◌==◌, List, String, if◌then◌else◌, ◌≡◌, ⊤, ℕ, some, none, [], ◌∷◌,
  refl,
}
use python_async_api_barebon.Base.Float.{Float}
use python_async_api_barebon.Base.Lists.{get_elem?, All}
use python_async_api_barebon.Base.Sums.{total-set, total, total-append}
use python_async_api_barebon.Exec.{Result, ok, err}
use python_async_api_barebon.MockServer.Admin.{
  resume_handler, Server, handle, serve, ServerEvent, flaky_arrives, handler_runs, profile_posted,
  reset_posted,
}
use python_async_api_barebon.MockServer.Flaky.{
  flaky, resume, checked, rolled, check_rate_limit, roll, judged, passes, judge,
}
use python_async_api_barebon.MockServer.State.{
  Builtins, Handler, ServerState, increment, counter, sleeping, reading, throttled, responds,
  echoes, crashes,
}
use python_async_api_barebon.Models.{Value}

counter-increment :
    (code k : ℕ) (counters : List (ℕ × ℕ))
    → counter code (increment k counters) ≡ counter code counters + (if k == code then 1 else 0)
unfolding counter increment
counter-increment code k [] = ground arith
counter-increment code k ((j, n) ∷ counters) = ground (arith, counter-increment code k counters)

module _ {F : Type 0} where
  -- 1 if the handler has answered with the code. The 500 of the framework for an exception of a
  -- handler is not an answer of the handler.
  abbrev pub answers : ℕ → Handler F → ℕ
  answers code (sleeping method delay x y) = 0
  answers code (reading method) = 0
  answers code (throttled retry_after) = if 429 == code then 1 else 0
  answers code (responds k) = if k == code then 1 else 0
  answers code (echoes method body n) = if 200 == code then 1 else 0
  answers code (crashes e) = 0

  -- An event that resets nothing.
  abbrev pub IsServing : ServerEvent F → Type 0
  IsServing (flaky_arrives method now) = ⊤
  IsServing (handler_runs i body) = ⊤
  IsServing (profile_posted doc now) = ⊥
  IsServing (reset_posted now) = ⊥

module _ {F R : Type 0} (code : ℕ) where
  -- What a stage adds to the counter of the code is what its handler has answered with it.
  abbrev Adds : ServerState F R → ServerState F R × Handler F → Type 0
  Adds s (t, h) = counter code t.counters ≡ counter code s.counters + answers code h

module _ {F R : Type 0} ⦃o : Float F⦄ (b : Builtins F R) (code : ℕ) where
  passes-Adds : (method : String) (s : ServerState F R) → Adds code s (passes b method s)
  passes-Adds method s = ground (arith, counter-increment code 200 s.counters)

  judge-Adds :
      (method : String) (x y : F) (s : ServerState F R)
      → Adds code s (judged b method (judge b x y s))
  unfolding judge
  judge-Adds method x y s = ground (
    arith,
    passes-Adds method s,
    counter-increment code 429 s.counters,
    counter-increment code (b.choice (500 ∷ 502 ∷ 503 ∷ []) s.rng).0 s.counters,
  )

  roll_keeps : (s : ServerState F R) → (roll b s).1.counters ≡ s.counters
  unfolding roll
  roll_keeps s = ground arith

  rolled-Adds :
      (method : String) (x : Option (F × F × F) × ServerState F R) (s : ServerState F R)
      → x.1.counters ≡ s.counters
      → Adds code s (rolled b method x)
  unfolding rolled
  rolled-Adds method (none, t) s e =
      subst
        (λ l.
          counter code (passes b method t).0.counters
          ≡ counter code l + answers code (passes b method t).1)
        e (passes-Adds method t)
  rolled-Adds method (some (delay, x, y), t) s e = ground (arith, judge-Adds method x y t)

  abbrev Checks : ServerState F R → Result F (Option String) × ServerState F R → Type 0
  Checks s (err e, t) = t.counters ≡ s.counters
  Checks s (ok none, t) = t.counters ≡ s.counters
  Checks s (ok (some wait), t) =
      counter code t.counters ≡ counter code s.counters + (if 429 == code then 1 else 0)

  check_rate_limit-Checks : (now : F) (s : ServerState F R) → Checks s (check_rate_limit b now s)
  unfolding check_rate_limit
  check_rate_limit-Checks now s = ground (arith, counter-increment code 429 s.counters)

  checked-Adds :
      (method : String) (s : ServerState F R) (x : Result F (Option String) × ServerState F R)
      → Checks s x
      → Adds code s (checked b method x)
  unfolding checked
  checked-Adds method s (err e, t) h = ground arith
  checked-Adds method s (ok (some wait), t) h = h
  checked-Adds method s (ok none, t) h = rolled-Adds method (roll b t) s (roll_keeps t ∙ h)

  flaky-Adds :
      (method : String) (now : F) (s : ServerState F R) → Adds code s (flaky b method now s)
  unfolding flaky
  flaky-Adds method now s =
      checked-Adds method s (check_rate_limit b now s) (check_rate_limit-Checks now s)

  resume-Adds :
      (body : Result F (Value F)) (h : Handler F) (s : ServerState F R)
      → counter code (resume b body h s).0.counters + answers code h
        ≡ counter code s.counters + answers code (resume b body h s).1
  unfolding resume
  resume-Adds body (sleeping method delay x y) s = ground (arith, judge-Adds method x y s)
  resume-Adds (ok body) (reading method) s = ground (arith, counter-increment code 200 s.counters)
  resume-Adds (err e) (reading method) s = refl
  resume-Adds body (throttled retry_after) s = refl
  resume-Adds body (responds k) s = refl
  resume-Adds body (echoes method x n) s = refl
  resume-Adds body (crashes e) s = refl

  abbrev counts : Server F R → ℕ
  counts v = counter code v.state.counters

  abbrev answered : Server F R → ℕ
  answered v = total (answers code) v.handlers

  resumed-Adds :
      (i : ℕ) (body : Result F (Value F)) (x : Option (Handler F)) (v : Server F R)
      → get_elem? v.handlers i ≡ x
      → counts (resume_handler b i body x v) + answered v
        ≡ counts v + answered (resume_handler b i body x v)
  resumed-Adds i body none v e = refl
  resumed-Adds i body (some h) v e = omega (
    arith,
    resume-Adds body h v.state,
    total-set (answers code) v.handlers i h (resume b body h v.state).1 e,
  )

  handle-Adds :
      (v : Server F R) (e : ServerEvent F)
      → IsServing e
      → counts (handle b v e) + answered v ≡ counts v + answered (handle b v e)
  unfolding handle
  handle-Adds v (flaky_arrives method now) serving = omega (
    arith,
    flaky-Adds method now v.state,
    total-append (answers code) v.handlers ((flaky b method now v.state).1 ∷ []),
  )
  handle-Adds v (handler_runs i body) serving = resumed-Adds i body (get_elem? v.handlers i) v refl
  handle-Adds v (profile_posted doc now) serving = elim serving [ ]
  handle-Adds v (reset_posted now) serving = elim serving [ ]

  -- While nobody resets the mock server, over any order of arrivals and resumptions of its
  -- handlers, the counter of each code grows by exactly the number of handlers that come to answer
  -- with that code.
  pub serve-counters :
      (v : Server F R) (es : List (ServerEvent F))
      → All IsServing es
      → counter code (serve b v es).state.counters + total (answers code) v.handlers
        ≡ counter code v.state.counters + total (answers code) (serve b v es).handlers
  unfolding serve
  serve-counters v [] h = refl
  serve-counters v (e ∷ es) h =
      omega (arith, handle-Adds v e h.0, serve-counters (handle b v e) es h.1)
