-- ===== src/Client/System/Consistent.antt =====
-- When a system is consistent, and that the steps of callers, workers and reschedules keep it so.
use python_async_api_barebon.Base.{
  ℕ, ◌+◌, String, Bool, true, false, some, [], ◌∷◌, ◌++◌, ◌≡◌, refl, arith, if◌then◌else◌,
}
use python_async_api_barebon.Base.Float.{Float}
use python_async_api_barebon.Base.Lists.{length, get_elem?, set}
use python_async_api_barebon.Base.Sums.{le-total, total, total-append, total-set}
use python_async_api_barebon.Client.State.{
  Client, World, Worker, Timer, Caller, persists, awaits, refused,
}
use python_async_api_barebon.Client.System.Balances.{caller_step-balanced, timer_step-balanced}
use python_async_api_barebon.Client.System.Carriers.{
  busy, caller_weight, worker_weight, timer_weight, carriers, in_flight,
}
use python_async_api_barebon.Client.System.Defs.{System, requests, step}
use python_async_api_barebon.Client.System.Futures.{in_flight-get_or_create}
use python_async_api_barebon.Client.System.Workers.{IsReady, run_step-Balanced}
use python_async_api_barebon.Client.Tasks.{submit, caller_step, timer_step, joined_or_owner}
use python_async_api_barebon.Client.Worker.Settle.{Input, run_step}
use python_async_api_barebon.Dedup.{InFlightRegistry, get_or_create}
use python_async_api_barebon.Dedup.Invariant.{IsValid, get_or_create-IsValid}
use python_async_api_barebon.Errors.{PyError}
use python_async_api_barebon.Models.{Request, Response, Value, Fields, idempotency_key}

module _ {F : Type 0} ⦃o : Float F⦄ (w : World F) where
  -- Each key's work is carried as often as its future is pending, the registry is sound, and
  -- `unfinished` counts the items in the queue and in hand.
  pub record IsConsistent (s : System F) : Type 0 where
    pub registry : IsValid s.client.dedup
    pub owned : (k : String) → carriers w.platform k s ≡ in_flight k s.client.dedup
    pub counted : s.client.queue.unfinished ≡ length s.client.queue.items + total busy s.workers

  submit-IsConsistent :
      (s : System F) (x : Caller F) (c : Client F)
      → c.queue ≡ s.client.queue
      → IsValid c.dedup
      → ((k : String)
          → in_flight k c.dedup ≡ in_flight k s.client.dedup + caller_weight w.platform k x)
      → IsConsistent s
      → IsConsistent (record s { client = c; callers = s.callers ++ x ∷ [] })
  unfolding carriers
  submit-IsConsistent s x c q v balance inv = record {
    registry = v;
    owned = λ k. ground (
      arith,
      inv.owned k,
      balance k,
      total-append (caller_weight w.platform k) s.callers (x ∷ []),
    );
    counted = ground (arith, inv.counted);
  }

  pub resume_caller-IsConsistent :
      (s : System F) (i : ℕ) (wall : F) (x : Caller F)
      → get_elem? s.callers i ≡ some x
      → IsConsistent s
      → let (c, x') = caller_step w wall x s.client in
        IsConsistent (record s { client = c; callers = set s.callers i x' })
  unfolding carriers
  resume_caller-IsConsistent s i wall x e inv =
      let (c, x') = caller_step w wall x s.client in
      record {
        registry = rw (caller_step-balanced w "" wall x s.client).2 inv.registry;
        owned = λ k. ground (
          arith,
          inv.owned k,
          caller_step-balanced w k wall x s.client,
          total-set (caller_weight w.platform k) s.callers i x x' e,
        );
        counted = ground (arith, inv.counted, caller_step-balanced w "" wall x s.client);
      }

  pub resume_timer-IsConsistent :
      (s : System F) (i : ℕ) (x : Timer F)
      → get_elem? s.timers i ≡ some x
      → IsConsistent s
      → let (c, x') = timer_step x s.client in
        IsConsistent (record s { client = c; timers = set s.timers i x' })
  unfolding carriers
  resume_timer-IsConsistent s i x e inv =
      let (c, x') = timer_step x s.client in
      record {
        registry = rw (timer_step-balanced w "" x s.client).2 inv.registry;
        owned = λ k. ground (
          arith,
          inv.owned k,
          timer_step-balanced w k x s.client,
          total-set (timer_weight w.platform k) s.timers i x x' e,
        );
        counted = ground (arith, inv.counted, timer_step-balanced w "" x s.client);
      }

  worker-IsReady :
      (s : System F) (i : ℕ) (x : Worker F) (k : String)
      → get_elem? s.workers i ≡ some x
      → IsConsistent s
      → IsReady w k x s.client
  unfolding carriers
  worker-IsReady s i x k e inv = record {
    registry = inv.registry;
    counted = omega (arith, inv.counted, le-total busy s.workers i x e);
  }

  pub resume_worker-IsConsistent :
      (s : System F) (i : ℕ) (input : Input F) (x : Worker F)
      → get_elem? s.workers i ≡ some x
      → IsConsistent s
      → let (c, x', timers) = run_step w input x s.client in
        IsConsistent
          (record s { client = c; workers = set s.workers i x'; timers = s.timers ++ timers })
  unfolding carriers
  resume_worker-IsConsistent s i input x e inv =
      let (c, x', timers) = run_step w input x s.client in
      let ready = λ (k : String). worker-IsReady s i x k e inv in
      let balanced = λ (k : String). run_step-Balanced w k input x s.client (ready k) in
      record {
        registry = (balanced "").registry;
        owned = λ k.
            let b = balanced k in
            omega (
              arith,
              inv.owned k,
              b.work (
                  omega
                    (arith, inv.owned k, le-total (worker_weight w.platform k) s.workers i x e)),
              total-set (worker_weight w.platform k) s.workers i x x' e,
              total-append (timer_weight w.platform k) s.timers timers,
            );
        counted =
            let b = balanced "" in
            omega (arith, inv.counted, b.count, total-set busy s.workers i x x' e);
      }

  submitted :
      (s : System F) (req : Request F) (answer : ℕ × Bool × InFlightRegistry F (Response F))
      → get_or_create (idempotency_key w.platform req) s.client.dedup ≡ answer
      → IsConsistent s
      → let (c, x) = joined_or_owner w req answer s.client in
        IsConsistent (record s { client = c; callers = s.callers ++ x ∷ [] })
  submitted s req (id, owner, g) e inv =
      let key = idempotency_key w.platform req in
      let valid = get_or_create-IsValid key s.client.dedup inv.registry in
      submit-IsConsistent s (if owner then persists req id else awaits id)
        (record (s.client) { dedup = g }) refl (ground (arith, e, valid))
        (λ k.
          let gained = in_flight-get_or_create k key s.client.dedup inv.registry in
          ground (arith, e, gained))
        inv

  asked :
      (has_session : Bool) (s : System F) (req : Request F) (e : PyError F)
      → IsConsistent s
      → let (c, x) =
          if has_session
          then joined_or_owner w req
              (get_or_create (idempotency_key w.platform req) s.client.dedup)
              s.client
          else (s.client, refused e) in
        IsConsistent (record s { client = c; callers = s.callers ++ x ∷ [] })
  asked true s req e inv = submitted s req _ refl inv
  asked false s req e inv =
      submit-IsConsistent s (refused e) s.client refl inv.registry (λ k. omega arith) inv

  pub requested :
      (s : System F) (id : String) (at : F) (m url : String) (ps hs : Fields F) (b : Value F)
      (n : ℕ)
      → IsConsistent s
      → IsConsistent (step w s (requests id at m url ps hs b n))
  unfolding step submit
  requested s id at m url ps hs b n inv = asked s.client.has_session s _ _ inv
