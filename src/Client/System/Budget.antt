-- ===== src/Client/System/Budget.antt =====
-- What may still be sent, as a weight of the tasks that no step raises.
use native.Mathlib.Nat.{mul-add}
use python_async_api_barebon.Base.{◌∷◌, ◌*◌, ◌-◌, none, [], ⊤, subst, arith, ◌+◌, ◌≡◌, ◌≤◌, ℕ, refl}
use python_async_api_barebon.Base.Float.{Float}
use python_async_api_barebon.Client.Execute.{text_of}
use python_async_api_barebon.Client.State.{
  Caller, Client, Timer, Worker, World, idle, waits, executes, records_retry, pushes_letter,
  deletes_failed, deletes_done, hooks, died, gone, sleeping, putting, dropped, done, enqueues,
}
use python_async_api_barebon.Client.System.Carriers.{busy}
use python_async_api_barebon.Client.System.Defs.{step, run, Event, cancel_worker, System}
use python_async_api_barebon.Client.System.Consistent.{IsConsistent}
use python_async_api_barebon.Client.System.Ledger.{run-Kept, Keeps, queued, Weights, weigh}
use python_async_api_barebon.Client.System.Puts.{wakes, calls, Tasks, Upserted, submits}
use python_async_api_barebon.Client.System.Segments.{Ends, Lands}
use python_async_api_barebon.Client.System.Stages.{works, After, Before, Stages}
use python_async_api_barebon.Client.Worker.Gate.{Outcome}
use python_async_api_barebon.Client.Worker.Settle.{
  failed_deleted, retry_recorded, key_of, then_on, run_step,
}
use python_async_api_barebon.Exec.{ok, err, Result}
use python_async_api_barebon.Models.{Request}
use python_async_api_barebon.Queue.{task_done, QueueItem}
use python_async_api_barebon.Storage.{
  status_pending, upsert_inflight, delete_inflight, push_dead_letter, increment_retry, Storage,
}

-- What an item may still be sent: once, and again for each attempt that is left.
abbrev pub tries : {F : Type 0} → ℕ → QueueItem F → ℕ
tries limit item = 1 + (limit - item.attempt)

abbrev pub tries_worker : {F : Type 0} → ℕ → Worker F → ℕ
tries_worker limit (waits item id delay) = tries limit item
tries_worker limit (executes item) = tries limit item
tries_worker limit (records_retry item e delay) = 1 + (limit - (item.attempt + 1))
tries_worker limit _ = 0

abbrev pub tries_timer : {F : Type 0} → ℕ → Timer F → ℕ
tries_timer limit (sleeping item delay) = tries limit item
tries_timer limit (putting item) = tries limit item
tries_timer limit (dropped item) = tries limit item
tries_timer limit done = 0

abbrev tries_caller : {F : Type 0} → ℕ → Caller F → ℕ
tries_caller limit (enqueues req id) = limit + 1
tries_caller limit _ = 0

abbrev pub budget : {F : Type 0} → ℕ → Weights F
budget limit = record {
  of_caller = tries_caller limit;
  of_item = tries limit;
  of_worker = tries_worker limit;
  of_timer = tries_timer limit;
}

-- What the items in the queue and in the tasks' hands may still be sent.
unfoldable pub sends_left : {F : Type 0} → ℕ → System F → ℕ
unfolding weigh
sends_left limit s = weigh (budget limit) s

-- What requests that are started may be sent.
unfoldable pub allowed : ℕ → ℕ → ℕ
allowed limit started = (limit + 1) * started

allowed_suc : (limit n : ℕ) → allowed limit (n + 1) ≡ allowed limit n + (limit + 1)
unfolding allowed
allowed_suc limit n = omega (arith, mul-add (limit + 1) n 1)

module _ {F : Type 0} ⦃o : Float F⦄ (w : World F) (limit base most : ℕ) where
  abbrev IsBounded : ℕ → Client F → Type 0
  IsBounded n c =
      (n + base ≤ most + allowed limit c.metrics.requests_started)
      × (c.cfg.retry.max_retries ≡ limit)

  Lands-tries :
      (item : QueueItem F) (x : Worker F)
      → Lands limit item x
      → tries_worker limit x ≤ tries limit item
  Lands-tries item (waits i id delay) h = ground arith
  Lands-tries item (executes i) h = ground arith
  Lands-tries item (records_retry i e delay) h = ground arith
  Lands-tries item _ h = ground arith

  segment-IsBounded :
      (n : ℕ) (item : QueueItem F) (c : Client F) (out : Outcome F)
      → Ends w item c out
      → IsBounded (n + tries limit item + queued (budget limit) c) c
      → After w (budget limit) IsBounded n out
  segment-IsBounded n item c out ends inv =
      let lands = subst (λ l. Lands l item out.1) inv.1 ends.lands in
      ground (
        arith,
        ends.same_items,
        ends.same_cfg,
        ends.no_timers,
        ends.same_started,
        Lands-tries item out.1 lands,
      )

  stored :
      {A : Type 0} (n : ℕ) (item : QueueItem F) (x : Worker F) (r : Result F A × Storage F)
      (next : Client F → Outcome F) (c : Client F)
      → Before w (budget limit) IsBounded n x c
      → ((s : Storage F) → After w (budget limit) IsBounded n (next (record c { storage = s })))
      → After w (budget limit) IsBounded n (then_on w item r next c)
  unfolding task_done
  stored n item x (ok a, s) next c inv go = go s
  stored n item x (err e, s) next c inv go = ground arith

  stages-IsBounded : Stages w (budget limit) IsBounded
  unfolding run_step task_done
  stages-IsBounded = record {
    queue_free = λ n c q inv. inv;
    at_idle = refl;
    at_waits = λ item id delay. refl;
    at_executes = λ item. refl;
    segment = segment-IsBounded;
    records = λ n i item e delay c inv.
        stored n item (records_retry item e delay)
          (increment_retry i.wall (key_of w item) (text_of e) c.storage)
          (retry_recorded w item delay) c inv (λ s. ground arith);
    pushes = λ n i item e c inv.
        stored n item (pushes_letter item e)
          (push_dead_letter w.platform i.wall item.request (text_of e) item.attempt c.storage)
          (λ d. (d, deletes_failed item e, [])) c inv (λ s. ground arith);
    gives_up = λ n i item e c inv.
        stored n item (deletes_failed item e) (delete_inflight (key_of w item) c.storage)
          (failed_deleted w item e) c inv (λ s. ground arith);
    clears = λ n i item r c inv.
        stored n item (deletes_done item r) (delete_inflight (key_of w item) c.storage)
          (λ d. (d, hooks item r, [])) c inv (λ s. ground arith);
    answers = λ n i item r c inv. ground arith;
  }

  Upserted-IsBounded :
      (n : ℕ) (req : Request F) (c : Client F) (r : Result F ⊤ × Storage F)
      → IsBounded (n + queued (budget limit) c) c
      → Upserted w (budget limit) IsBounded (λ n. ⊤) n req c r
  Upserted-IsBounded n req c (ok x, s) inv =
      λ cap. ground (arith, allowed_suc limit c.metrics.requests_started)
  Upserted-IsBounded n req c (err e, s) inv = inv

  cancels-budget :
      (x : Worker F) → busy x ≡ 0 → tries_worker limit (cancel_worker x) ≡ tries_worker limit x
  cancels-budget idle h = refl
  cancels-budget (died item e) h = refl
  cancels-budget gone h = refl
  cancels-budget _ h = absurd (omega arith)

  tasks-IsBounded : Tasks w (budget limit) IsBounded (λ n. ⊤)
  tasks-IsBounded = record {
    dedup_free = λ n c g inv. inv;
    queue_free = λ n c q inv. inv;
    at_persists = λ req id. refl;
    at_awaits = λ id. refl;
    at_refused = λ e. refl;
    at_abandons = λ req e. refl;
    at_enqueues = λ req id. omega arith;
    at_sleeping = λ item delay. refl;
    at_putting = λ item. refl;
    at_dropped = λ item. refl;
    at_done = refl;
    upserts = λ n wall req c inv.
        Upserted-IsBounded n req c
          (upsert_inflight w.platform wall req status_pending 0 none c.storage) inv;
  }

  keeps-IsBounded : Keeps w (budget limit) IsBounded (λ n. ⊤)
  keeps-IsBounded = record {
    submits = submits w (budget limit) IsBounded (λ n. ⊤) tasks-IsBounded;
    calls = calls w (budget limit) IsBounded (λ n. ⊤) tasks-IsBounded;
    works = works w (budget limit) IsBounded stages-IsBounded;
    wakes = wakes w (budget limit) IsBounded (λ n. ⊤) tasks-IsBounded;
    stops = λ n c inv. inv;
    leaves = λ n c inv. inv;
    closes = λ n c inv. inv;
    cancels = cancels-budget;
  }

  pub step-IsBounded :
      (s : System F) (e : Event F)
      → IsConsistent w s
      → IsBounded (weigh (budget limit) s) s.client
      → IsBounded (weigh (budget limit) (step w s e)) (step w s e).client
  unfolding run
  step-IsBounded s e =
      run-Kept w (budget limit) IsBounded keeps-IsBounded (λ s sound. tt) s (e ∷ [])
