-- ===== src/Client/System/Invariant.antt =====
-- The invariant of the system, for every order of its steps.
use python_async_api_barebon.Storage.{close_storage}
use python_async_api_barebon.Client.System.Consistent.{
  IsConsistent, resume_caller-IsConsistent, resume_timer-IsConsistent, resume_worker-IsConsistent,
  requested,
}
use python_async_api_barebon.Base.{
  ◌&&◌, ◌≤◌, String, Bool, true, false, List, [], ◌∷◌, ◌≡◌, refl, arith, if◌then◌else◌, Bool-cases,
  Option-cases, inl, inr,
}
use python_async_api_barebon.Base.Float.{Float}
use python_async_api_barebon.Base.Lists.{get_elem?}
use python_async_api_barebon.Base.Sums.{total}
use python_async_api_barebon.Client.State.{World}
use python_async_api_barebon.Client.System.Balances.{cancel_workers-balanced, no_busy-total}
use python_async_api_barebon.Client.System.Carriers.{busy, carriers, in_flight}
use python_async_api_barebon.Client.System.Defs.{
  no_pending, System, Event, requests, caller_runs, worker_runs, timer_runs, stop_begins,
  stop_cancels, session_closes, storage_closes, step, run, stop_workers, close_session,
  close_database, no_busy, all_ended,
}
use python_async_api_barebon.Client.System.Futures.{in_flight-le_one}

module _ {F : Type 0} ⦃o : Float F⦄ (w : World F) where
  pub both : (a b : Bool) → (a && b) ≡ true → (a ≡ true) × (b ≡ true)
  both true b h = (refl, h)
  both false b h = cc

  -- Where `stop` cancels the workers, none has an item in hand.
  pub cancels_none_busy :
      (s : System F)
      → (s.client.stopping && (no_busy s.workers && no_pending s.timers)) ≡ true
      → total busy s.workers ≡ 0
  cancels_none_busy s h =
      no_busy-total s.workers
        (both (no_busy s.workers) (no_pending s.timers) (both s.client.stopping _ h).1).0

  stop_cancels-IsConsistent : (s : System F) → IsConsistent w s → IsConsistent w (stop_workers s)
  unfolding stop_workers carriers
  stop_cancels-IsConsistent s inv =
      elim (Bool-cases (s.client.stopping && (no_busy s.workers && no_pending s.timers))) [
        | inl h ↦
            let none_busy = cancels_none_busy s h in
            rw h (record {
              registry = inv.registry;
              owned =
                  λ k. ground (arith, inv.owned k, cancel_workers-balanced w k s.workers none_busy);
              counted =
                  ground (arith, inv.counted, cancel_workers-balanced w "" s.workers none_busy);
            })
        | inr h ↦ rw h inv
      ]

  session_closes-IsConsistent : (s : System F) → IsConsistent w s → IsConsistent w (close_session s)
  unfolding close_session carriers
  session_closes-IsConsistent s inv = elim (Bool-cases (s.client.stopping && all_ended s.workers)) [
    | inl h ↦ rw h (record { registry = inv.registry; owned = inv.owned; counted = inv.counted })
    | inr h ↦ rw h inv
  ]

  closed :
      (has_session : Bool) (s : System F)
      → IsConsistent w s
      → let c = s.client in
        IsConsistent w (
          if has_session
          then s
          else record s { client = record c { storage = close_storage c.storage } })
  unfolding carriers
  closed true s inv = inv
  closed false s inv = record { registry = inv.registry; owned = inv.owned; counted = inv.counted }

  stopped :
      (has_session : Bool) (s : System F)
      → IsConsistent w s
      → let c = s.client in
        IsConsistent w
          (if has_session then record s { client = record c { stopping = true } } else s)
  unfolding carriers
  stopped true s inv = record { registry = inv.registry; owned = inv.owned; counted = inv.counted }
  stopped false s inv = inv

  pub step-IsConsistent :
      (s : System F) (e : Event F) → IsConsistent w s → IsConsistent w (step w s e)
  unfolding step close_database
  step-IsConsistent s (requests id at m url ps hs b n) inv = requested w s id at m url ps hs b n inv
  step-IsConsistent s (caller_runs i wall) inv = elim (Option-cases (get_elem? s.callers i)) [
    | inl e ↦ rw e inv
    | inr (x, e) ↦ rw e (resume_caller-IsConsistent w s i wall x e inv)
  ]
  step-IsConsistent s (worker_runs i input) inv = elim (Option-cases (get_elem? s.workers i)) [
    | inl e ↦ rw e inv
    | inr (x, e) ↦ rw e (resume_worker-IsConsistent w s i input x e inv)
  ]
  step-IsConsistent s (timer_runs i) inv = elim (Option-cases (get_elem? s.timers i)) [
    | inl e ↦ rw e inv
    | inr (x, e) ↦ rw e (resume_timer-IsConsistent w s i x e inv)
  ]
  step-IsConsistent s stop_begins inv = stopped s.client.has_session s inv
  step-IsConsistent s stop_cancels inv = stop_cancels-IsConsistent s inv
  step-IsConsistent s session_closes inv = session_closes-IsConsistent s inv
  step-IsConsistent s storage_closes inv = closed s.client.has_session s inv

  pub run-IsConsistent :
      (s : System F) (es : List (Event F)) → IsConsistent w s → IsConsistent w (run w s es)
  unfolding run
  run-IsConsistent s [] inv = inv
  run-IsConsistent s (e ∷ es) inv = run-IsConsistent (step w s e) es (step-IsConsistent s e inv)

  -- From a system whose work is consistent, through every order of steps of callers, workers,
  -- reschedules and `stop`, the tasks and queue items that hold a key's work (a task that ended
  -- without passing it on included) are as many as the key's pending futures in the registry, which
  -- is one or none.
  pub run_one_carrier :
      (s : System F) (es : List (Event F)) (k : String)
      → IsConsistent w s
      → let t = run w s es in
        (carriers w.platform k t ≡ in_flight k t.client.dedup) × (carriers w.platform k t ≤ 1)
  run_one_carrier s es k inv =
      let same = (run-IsConsistent s es inv).owned k in
      (same, omega (arith, same, in_flight-le_one k (run w s es).client.dedup))
