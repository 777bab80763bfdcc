-- ===== src/Client/System/Unserved.antt =====
-- async_hardened_client/client.py: a `start` that an exception ends leaves a client that a second
-- `start` takes as started.
use python_async_api_barebon.Base.{
  ap, sym, ◌≢◌, ◌&&◌, ◌++◌, Option-cases, arith, ◌≡◌, ◌≤◌, if◌then◌else◌, some, none, true, false,
  [], ◌∷◌, refl, inl, inr, List, ℕ, Bool, String, Option,
}
use python_async_api_barebon.Base.Float.{Float}
use python_async_api_barebon.Base.Lists.{get_elem?}
use python_async_api_barebon.Client.Start.{
  recover_rows, recovered, workers_online, start, start_client, running, fails,
}
use python_async_api_barebon.Client.Start.Restart.{opened}
use python_async_api_barebon.Client.State.{refused, Caller, Client, World}
use python_async_api_barebon.Client.System.Balances.{caller_step-balanced}
use python_async_api_barebon.Client.System.Carriers.{in_flight}
use python_async_api_barebon.Client.System.Crashed.{online_system}
use python_async_api_barebon.Client.System.Defs.{
  no_pending, resume_caller, Event, System, cancel_workers, run, step, requests, caller_runs,
  worker_runs, timer_runs, stop_begins, stop_cancels, session_closes, storage_closes, stop_workers,
  close_session, close_database, no_busy, all_ended,
}
use python_async_api_barebon.Client.System.Futures.{in_flight-get_or_create}
use python_async_api_barebon.Client.Tasks.{joined_or_owner, submit}
use python_async_api_barebon.Dedup.{get_or_create, InFlightRegistry}
use python_async_api_barebon.Dedup.Invariant.{get_or_create-IsValid, IsValid}
use python_async_api_barebon.Errors.{PyError}
use python_async_api_barebon.Exec.{Result, err, ok}
use python_async_api_barebon.Models.{idempotency_key, Response, Request}
use python_async_api_barebon.Storage.{
  Storage, InflightRow, open_storage, list_inflight, close_storage,
}

module _ {F : Type 0} ⦃o : Float F⦄ (w : World F) where
  -- A sound registry, and no task that could settle a future.
  pub record IsUnserved (s : System F) : Type 0 where
    pub registry : IsValid s.client.dedup
    pub no_workers : s.workers ≡ []
    pub no_timers : s.timers ≡ []

  -- A step leaves the system so, and no fewer futures pending.
  abbrev Waits : String → System F → System F → Type 0
  Waits k s t = IsUnserved t × (in_flight k s.client.dedup ≤ in_flight k t.client.dedup)

  submitted-Waits :
      (k : String) (s : System F) (req : Request F)
      (answer : ℕ × Bool × InFlightRegistry F (Response F))
      → get_or_create (idempotency_key w.platform req) s.client.dedup ≡ answer
      → IsUnserved s
      → let (c, x) = joined_or_owner w req answer s.client in
        Waits k s (record s { client = c; callers = s.callers ++ x ∷ [] })
  submitted-Waits k s req (id, owner, g) e h =
      let key = idempotency_key w.platform req in
      let valid = get_or_create-IsValid key s.client.dedup h.registry in
      let gained = in_flight-get_or_create k key s.client.dedup h.registry in
      (
        record {
          registry = ground (arith, e, valid);
          no_workers = h.no_workers;
          no_timers = h.no_timers;
        },
        ground (arith, e, gained),
      )

  asked-Waits :
      (k : String) (has_session : Bool) (s : System F) (req : Request F) (e : PyError F)
      → IsUnserved s
      → let (c, x) =
          if has_session
          then joined_or_owner w req
              (get_or_create (idempotency_key w.platform req) s.client.dedup)
              s.client
          else (s.client, refused e) in
        Waits k s (record s { client = c; callers = s.callers ++ x ∷ [] })
  asked-Waits k true s req e h = submitted-Waits k s req _ refl h
  asked-Waits k false s req e h = (
    record { registry = h.registry; no_workers = h.no_workers; no_timers = h.no_timers },
    omega arith,
  )

  calls-Waits :
      (k : String) (s : System F) (i : ℕ) (wall : F) (x : Caller F)
      → IsUnserved s
      → Waits k s (resume_caller w wall i (some x) s)
  calls-Waits k s i wall x h =
      let kept = (caller_step-balanced w k wall x s.client).2 in
      (
        record {
          registry = rw kept h.registry;
          no_workers = h.no_workers;
          no_timers = h.no_timers;
        },
        ground (arith, kept),
      )

  stops-Waits :
      (k : String) (s : System F) (has_session : Bool)
      → IsUnserved s
      → let c = s.client in
        Waits k s (if has_session then record s { client = record c { stopping = true } } else s)
  stops-Waits k s true h = (
    record { registry = h.registry; no_workers = h.no_workers; no_timers = h.no_timers },
    omega arith,
  )
  stops-Waits k s false h = (h, omega arith)

  cancels-Waits :
      (k : String) (s : System F) (free : Bool)
      → IsUnserved s
      → Waits k s (if free then record s { workers = cancel_workers s.workers } else s)
  unfolding cancel_workers
  cancels-Waits k s true h = (
    record {
      registry = h.registry;
      no_workers = ground (arith, h.no_workers);
      no_timers = h.no_timers;
    },
    omega arith,
  )
  cancels-Waits k s false h = (h, omega arith)

  leaves-Waits :
      (k : String) (s : System F) (free : Bool)
      → IsUnserved s
      → Waits k s
          (if free then record s { client = record (s.client) { has_session = false } } else s)
  leaves-Waits k s true h = (
    record { registry = h.registry; no_workers = h.no_workers; no_timers = h.no_timers },
    omega arith,
  )
  leaves-Waits k s false h = (h, omega arith)

  closes-Waits :
      (k : String) (s : System F) (has_session : Bool)
      → IsUnserved s
      → Waits k s (
          if has_session
          then s
          else record s { client = record (s.client) { storage = close_storage s.client.storage } })
  closes-Waits k s false h = (
    record { registry = h.registry; no_workers = h.no_workers; no_timers = h.no_timers },
    omega arith,
  )
  closes-Waits k s true h = (h, omega arith)

  step-Waits : (k : String) (s : System F) (e : Event F) → IsUnserved s → Waits k s (step w s e)
  unfolding step submit stop_workers close_session close_database
  step-Waits k s (requests id at m url ps hs b n) h = asked-Waits k s.client.has_session s _ _ h
  step-Waits k s (caller_runs i wall) h = elim (Option-cases (get_elem? s.callers i)) [
    | inl e ↦ rw e (h, omega arith)
    | inr (x, e) ↦ rw e (calls-Waits k s i wall x h)
  ]
  step-Waits k s (worker_runs i input) h =
      let none_there : get_elem? s.workers i ≡ none = rw h.no_workers refl in
      rw none_there (h, omega arith)
  step-Waits k s (timer_runs i) h =
      let none_there : get_elem? s.timers i ≡ none = rw h.no_timers refl in
      rw none_there (h, omega arith)
  step-Waits k s stop_begins h = stops-Waits k s s.client.has_session h
  step-Waits k s stop_cancels h =
      cancels-Waits k s (s.client.stopping && (no_busy s.workers && no_pending s.timers)) h
  step-Waits k s session_closes h = leaves-Waits k s (s.client.stopping && all_ended s.workers) h
  step-Waits k s storage_closes h = closes-Waits k s s.client.has_session h

  run-Waits :
      (k : String) (s : System F) (es : List (Event F)) → IsUnserved s → Waits k s (run w s es)
  unfolding run
  run-Waits k s [] h = (h, omega arith)
  run-Waits k s (e ∷ es) h =
      let (still, more) = step-Waits k s e h in
      let (after, even_more) = run-Waits k (step w s e) es still in
      (after, omega (arith, more, even_more))

  workers_online_returns :
      (found : Option (Client F)) (e : PyError F) (d : Client F) → workers_online found ≢ fails e d
  workers_online_returns none e d = λ h. cc
  workers_online_returns (some c) e d = λ h. cc

  recovered_failed :
      (r : Result F (List (InflightRow F)) × Storage F) (c d : Client F) (e : PyError F)
      → recovered r c ≡ fails e d
      → (d.has_session ≡ c.has_session) × (d.dedup ≡ c.dedup)
  recovered_failed (err x, s) c d e h =
      let same : record c { storage = s } ≡ d = cc in
      (sym (ap (λ z. z.has_session) same), sym (ap (λ z. z.dedup) same))
  recovered_failed (ok rows, s) c d e h =
      absurd (workers_online_returns (recover_rows rows (record c { storage = s })) e d h)

  -- The session is there, although `start` has raised.
  start_failed :
      (fresh_id : String) (now : F) (c d : Client F) (e : PyError F)
      → start fresh_id now c ≡ fails e d
      → (d.has_session ≡ true) × (d.dedup ≡ c.dedup)
  unfolding start
  start_failed fresh_id now c d e h =
      recovered_failed (list_inflight fresh_id now (open_storage c.storage)) (opened c) d e h

  -- When `start` of a client with a sound registry raises, a second `start` of what it leaves
  -- returns at once with no worker; and if it has no tasks, then through every order of steps it
  -- gets no worker, and no key in flight ever stops being in flight.
  pub failed_start_unserved :
      (first second : String) (now later : F) (c d : Client F) (e : PyError F)
      (es fs : List (Event F)) (k : String)
      → IsValid c.dedup
      → start first now c ≡ fails e d
      → let t = run w (online_system w d []) es in
        (start_client second later d [] ≡ running d [])
        × ((run w t fs).workers ≡ [])
        × (in_flight k t.client.dedup ≤ in_flight k (run w t fs).client.dedup)
  unfolding start_client
  failed_start_unserved first second now later c d e es fs k valid failed =
      let s = online_system w d [] in
      let (online, same) = start_failed first now c d e failed in
      let begun : IsUnserved s = record {
        registry = rw same valid;
        no_workers = refl;
        no_timers = refl;
      } in
      let (waiting, _) = run-Waits k s es begun in
      let (after, more) = run-Waits k (run w s es) fs waiting in
      (rw online refl, after.no_workers, more)
