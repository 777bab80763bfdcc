-- ===== src/Client/System/Covered.antt =====
-- Through every step a key's pending future has a carrier, also where others carry the key.
use python_async_api_barebon.Base.{
  ◌&&◌, ◌++◌, Option-cases, ◌+◌, arith, if◌then◌else◌, ◌≤◌, ◌≡◌, some, true, false, [], ◌∷◌, refl,
  inl, inr, ℕ, Bool, String,
}
use python_async_api_barebon.Base.Float.{Float}
use python_async_api_barebon.Base.Lists.{set, length, get_elem?}
use python_async_api_barebon.Base.Sums.{total-split, le-total, total-append, total-set, total}
use python_async_api_barebon.Client.State.{
  Client, Worker, Caller, Timer, World, persists, awaits, refused,
}
use python_async_api_barebon.Client.System.Balances.{
  caller_step-balanced, cancel_workers-balanced, timer_step-balanced, CallerBalanced,
}
use python_async_api_barebon.Client.System.Carriers.{
  worker_weight, timer_weight, busy, caller_weight, carriers, in_flight,
}
use python_async_api_barebon.Client.System.Defs.{
  no_pending, Event, step, cancel_workers, System, requests, caller_runs, worker_runs, timer_runs,
  stop_begins, stop_cancels, session_closes, storage_closes, stop_workers, close_session,
  close_database, no_busy, all_ended,
}
use python_async_api_barebon.Client.System.Futures.{in_flight-get_or_create}
use python_async_api_barebon.Client.System.Consistent.{IsConsistent}
use python_async_api_barebon.Client.System.Invariant.{cancels_none_busy}
use python_async_api_barebon.Client.System.Workers.{IsReady, run_step-Balanced}
use python_async_api_barebon.Client.Tasks.{caller_step, submit, joined_or_owner, timer_step}
use python_async_api_barebon.Client.Worker.Settle.{run_step, Input}
use python_async_api_barebon.Dedup.{get_or_create, InFlightRegistry}
use python_async_api_barebon.Dedup.Invariant.{get_or_create-IsValid, IsValid}
use python_async_api_barebon.Errors.{PyError}
use python_async_api_barebon.Models.{idempotency_key, Response, Request}
use python_async_api_barebon.Storage.{close_storage}

module _ {F : Type 0} ⦃o : Float F⦄ (w : World F) where
  -- Each key's pending future has a carrier, the registry is sound, and `unfinished` counts the items
  -- in the queue and in hand.
  pub record IsCovered (s : System F) : Type 0 where
    pub registry : IsValid s.client.dedup
    pub covered : (k : String) → in_flight k s.client.dedup ≤ carriers w.platform k s
    pub counted : s.client.queue.unfinished ≡ length s.client.queue.items + total busy s.workers

  pub IsConsistent-IsCovered : (s : System F) → IsConsistent w s → IsCovered s
  IsConsistent-IsCovered s inv = record {
    registry = inv.registry;
    covered = λ k. omega (arith, inv.owned k);
    counted = inv.counted;
  }

  asks-IsCovered :
      (s : System F) (x : Caller F) (c : Client F)
      → c.queue ≡ s.client.queue
      → IsValid c.dedup
      → ((k : String)
          → in_flight k c.dedup ≡ in_flight k s.client.dedup + caller_weight w.platform k x)
      → IsCovered s
      → IsCovered (record s { client = c; callers = s.callers ++ x ∷ [] })
  unfolding carriers
  asks-IsCovered s x c q v balance inv = record {
    registry = v;
    covered = λ k. ground (
      arith,
      inv.covered k,
      balance k,
      total-append (caller_weight w.platform k) s.callers (x ∷ []),
    );
    counted = ground (arith, inv.counted);
  }

  submitted :
      (s : System F) (req : Request F) (answer : ℕ × Bool × InFlightRegistry F (Response F))
      → get_or_create (idempotency_key w.platform req) s.client.dedup ≡ answer
      → IsCovered s
      → let (c, x) = joined_or_owner w req answer s.client in
        IsCovered (record s { client = c; callers = s.callers ++ x ∷ [] })
  submitted s req (id, owner, g) e inv =
      let key = idempotency_key w.platform req in
      let valid = get_or_create-IsValid key s.client.dedup inv.registry in
      asks-IsCovered s (if owner then persists req id else awaits id)
        (record (s.client) { dedup = g }) refl (ground (arith, e, valid))
        (λ k.
          let gained = in_flight-get_or_create k key s.client.dedup inv.registry in
          ground (arith, e, gained))
        inv

  asked :
      (has_session : Bool) (s : System F) (req : Request F) (e : PyError F)
      → IsCovered s
      → let (c, x) =
          if has_session
          then joined_or_owner w req
              (get_or_create (idempotency_key w.platform req) s.client.dedup)
              s.client
          else (s.client, refused e) in
        IsCovered (record s { client = c; callers = s.callers ++ x ∷ [] })
  asked true s req e inv = submitted s req _ refl inv
  asked false s req e inv =
      asks-IsCovered s (refused e) s.client refl inv.registry (λ k. omega arith) inv

  calls-IsCovered :
      (s : System F) (i : ℕ) (x : Caller F) (c : Client F) (x' : Caller F)
      → get_elem? s.callers i ≡ some x
      → ((k : String) → CallerBalanced w k x s.client (c, x'))
      → IsCovered s
      → IsCovered (record s { client = c; callers = set s.callers i x' })
  unfolding carriers
  calls-IsCovered s i x c x' e balanced inv = record {
    registry = rw (balanced "").2 inv.registry;
    covered = λ k. ground (
      arith,
      inv.covered k,
      balanced k,
      total-set (caller_weight w.platform k) s.callers i x x' e,
    );
    counted = ground (arith, inv.counted, balanced "");
  }

  wakes-IsCovered :
      (s : System F) (i : ℕ) (x : Timer F)
      → get_elem? s.timers i ≡ some x
      → IsCovered s
      → let (c, x') = timer_step x s.client in
        IsCovered (record s { client = c; timers = set s.timers i x' })
  unfolding carriers
  wakes-IsCovered s i x e inv =
      let (c, x') = timer_step x s.client in
      record {
        registry = rw (timer_step-balanced w "" x s.client).2 inv.registry;
        covered = λ k. ground (
          arith,
          inv.covered k,
          timer_step-balanced w k x s.client,
          total-set (timer_weight w.platform k) s.timers i x x' e,
        );
        counted = ground (arith, inv.counted, timer_step-balanced w "" x s.client);
      }

  works-IsCovered :
      (s : System F) (i : ℕ) (input : Input F) (x : Worker F)
      → get_elem? s.workers i ≡ some x
      → IsCovered s
      → let (c, x', timers) = run_step w input x s.client in
        IsCovered
          (record s { client = c; workers = set s.workers i x'; timers = s.timers ++ timers })
  unfolding carriers
  works-IsCovered s i input x e inv =
      let (c, x', timers) = run_step w input x s.client in
      let ready : (k : String) → IsReady w k x s.client = λ k. record {
        registry = inv.registry;
        counted = omega (arith, inv.counted, le-total busy s.workers i x e);
      } in
      let balanced = λ (k : String). run_step-Balanced w k input x s.client (ready k) in
      record {
        registry = (balanced "").registry;
        covered = λ k.
            let (n, old, new) = total-split (worker_weight w.platform k) s.workers i x x' e in
            let rest =
              n
              + total (caller_weight w.platform k) s.callers
              + total (timer_weight w.platform k) s.timers in
            let kept = (balanced k).covers rest (omega (arith, inv.covered k, old)) in
            omega (arith, kept, new, total-append (timer_weight w.platform k) s.timers timers);
        counted =
            omega (arith, inv.counted, (balanced "").count, total-set busy s.workers i x x' e);
      }

  cancels-IsCovered :
      (s : System F) (free : Bool)
      → (free ≡ true → total busy s.workers ≡ 0)
      → IsCovered s
      → IsCovered (if free then record s { workers = cancel_workers s.workers } else s)
  unfolding carriers
  cancels-IsCovered s false none_busy inv = inv
  cancels-IsCovered s true none_busy inv = record {
    registry = inv.registry;
    covered =
        λ k. ground (arith, inv.covered k, cancel_workers-balanced w k s.workers (none_busy refl));
    counted = ground (arith, inv.counted, cancel_workers-balanced w "" s.workers (none_busy refl));
  }

  leaves-IsCovered :
      (s : System F) (free : Bool)
      → IsCovered s
      → IsCovered
          (if free then record s { client = record (s.client) { has_session = false } } else s)
  unfolding carriers
  leaves-IsCovered s false inv = inv
  leaves-IsCovered s true inv = record {
    registry = inv.registry;
    covered = inv.covered;
    counted = inv.counted;
  }

  closes-IsCovered :
      (s : System F) (has_session : Bool)
      → IsCovered s
      → IsCovered (
          if has_session
          then s
          else record s { client = record (s.client) { storage = close_storage s.client.storage } })
  unfolding carriers
  closes-IsCovered s true inv = inv
  closes-IsCovered s false inv = record {
    registry = inv.registry;
    covered = inv.covered;
    counted = inv.counted;
  }

  stops-IsCovered :
      (has_session : Bool) (s : System F)
      → IsCovered s
      → let c = s.client in
        IsCovered (if has_session then record s { client = record c { stopping = true } } else s)
  unfolding carriers
  stops-IsCovered true s inv = record {
    registry = inv.registry;
    covered = inv.covered;
    counted = inv.counted;
  }
  stops-IsCovered false s inv = inv

  pub step-IsCovered : (s : System F) (e : Event F) → IsCovered s → IsCovered (step w s e)
  unfolding step submit stop_workers close_session close_database
  step-IsCovered s (requests id at m url ps hs b n) inv = asked s.client.has_session s _ _ inv
  step-IsCovered s (caller_runs i wall) inv = elim (Option-cases (get_elem? s.callers i)) [
    | inl e ↦ rw e inv
    | inr (x, e) ↦ rw e (
        calls-IsCovered s i x (caller_step w wall x s.client).0 (caller_step w wall x s.client).1 e
          (λ k. caller_step-balanced w k wall x s.client) inv)
  ]
  step-IsCovered s (worker_runs i input) inv = elim (Option-cases (get_elem? s.workers i)) [
    | inl e ↦ rw e inv
    | inr (x, e) ↦ rw e (works-IsCovered s i input x e inv)
  ]
  step-IsCovered s (timer_runs i) inv = elim (Option-cases (get_elem? s.timers i)) [
    | inl e ↦ rw e inv
    | inr (x, e) ↦ rw e (wakes-IsCovered s i x e inv)
  ]
  step-IsCovered s stop_begins inv = stops-IsCovered s.client.has_session s inv
  step-IsCovered s stop_cancels inv =
      cancels-IsCovered s (s.client.stopping && (no_busy s.workers && no_pending s.timers))
        (cancels_none_busy w s) inv
  step-IsCovered s session_closes inv =
      leaves-IsCovered s (s.client.stopping && all_ended s.workers) inv
  step-IsCovered s storage_closes inv = closes-IsCovered s s.client.has_session inv
