-- ===== src/Client/System/Attempts.antt =====
-- The retry limit over all orders of steps.
use python_async_api_barebon.Base.{
  none, List, [], ⊤, subst, arith, ◌+◌, ◌≡◌, leb, ◌≤◌, if◌then◌else◌, ℕ, refl,
}
use python_async_api_barebon.Base.Float.{Float}
use python_async_api_barebon.Client.Execute.{text_of}
use python_async_api_barebon.Client.State.{
  Client, Timer, Worker, World, idle, waits, executes, records_retry, pushes_letter, deletes_failed,
  deletes_done, hooks, died, gone, sleeping, putting, dropped, done,
}
use python_async_api_barebon.Client.System.Carriers.{busy}
use python_async_api_barebon.Client.System.Defs.{run, Event, cancel_worker, System}
use python_async_api_barebon.Client.System.Consistent.{IsConsistent}
use python_async_api_barebon.Client.System.Ledger.{run-Kept, Keeps, queued, Weights, weigh}
use python_async_api_barebon.Client.System.Puts.{wakes, calls, Tasks, Upserted, submits}
use python_async_api_barebon.Client.System.Segments.{Ends, Lands}
use python_async_api_barebon.Client.System.Stages.{works, After, Before, Stages}
use python_async_api_barebon.Client.Worker.Gate.{Outcome}
use python_async_api_barebon.Client.Worker.Settle.{
  failed_deleted, retry_recorded, key_of, then_on, run_step,
}
use python_async_api_barebon.Exec.{ok, err, Result}
use python_async_api_barebon.Models.{Request}
use python_async_api_barebon.Queue.{task_done, QueueItem}
use python_async_api_barebon.Storage.{
  status_pending, upsert_inflight, delete_inflight, push_dead_letter, increment_retry, Storage,
}

-- 1 for an item whose attempt is beyond the limit.
abbrev pub beyond : {F : Type 0} → ℕ → QueueItem F → ℕ
beyond limit item = if leb item.attempt limit then 0 else 1

abbrev beyond_worker : {F : Type 0} → ℕ → Worker F → ℕ
beyond_worker limit idle = 0
beyond_worker limit (waits item id delay) = beyond limit item
beyond_worker limit (executes item) = beyond limit item
beyond_worker limit (records_retry item e delay) = if leb (item.attempt + 1) limit then 0 else 1
beyond_worker limit (pushes_letter item e) = beyond limit item
beyond_worker limit (deletes_failed item e) = beyond limit item
beyond_worker limit (deletes_done item response) = beyond limit item
beyond_worker limit (hooks item response) = beyond limit item
beyond_worker limit (died item e) = beyond limit item
beyond_worker limit gone = 0

abbrev beyond_timer : {F : Type 0} → ℕ → Timer F → ℕ
beyond_timer limit (sleeping item delay) = beyond limit item
beyond_timer limit (putting item) = beyond limit item
beyond_timer limit (dropped item) = beyond limit item
beyond_timer limit done = 0

abbrev pub attempts : {F : Type 0} → ℕ → Weights F
attempts limit = record {
  of_caller = λ x. 0;
  of_item = beyond limit;
  of_worker = beyond_worker limit;
  of_timer = beyond_timer limit;
}

-- The items that are beyond the limit, in the queue and in the tasks' hands; a worker that records a
-- retry counts with the attempt that it schedules.
unfoldable pub beyond_limit : {F : Type 0} → ℕ → System F → ℕ
unfolding weigh
beyond_limit limit s = weigh (attempts limit) s

module _ {F : Type 0} ⦃o : Float F⦄ (w : World F) (limit most : ℕ) where
  abbrev IsWithin : ℕ → Client F → Type 0
  IsWithin n c = (n ≤ most) × (c.cfg.retry.max_retries ≡ limit)

  Lands-beyond :
      (item : QueueItem F) (x : Worker F)
      → Lands limit item x
      → beyond_worker limit x ≤ beyond limit item
  Lands-beyond item (waits i id delay) h = ground arith
  Lands-beyond item _ h = ground arith

  segment-IsWithin :
      (n : ℕ) (item : QueueItem F) (c : Client F) (out : Outcome F)
      → Ends w item c out
      → IsWithin (n + beyond limit item + queued (attempts limit) c) c
      → After w (attempts limit) IsWithin n out
  segment-IsWithin n item c out ends inv =
      let lands = subst (λ l. Lands l item out.1) inv.1 ends.lands in
      ground (arith, ends.same_items, ends.same_cfg, ends.no_timers, Lands-beyond item out.1 lands)

  stored :
      {A : Type 0} (n : ℕ) (item : QueueItem F) (x : Worker F) (r : Result F A × Storage F)
      (next : Client F → Outcome F) (c : Client F)
      → Before w (attempts limit) IsWithin n x c
      → beyond limit item ≤ beyond_worker limit x
      → ((s : Storage F) → After w (attempts limit) IsWithin n (next (record c { storage = s })))
      → After w (attempts limit) IsWithin n (then_on w item r next c)
  unfolding task_done
  stored n item x (ok a, s) next c inv h go = go s
  stored n item x (err e, s) next c inv h go = ground arith

  stages-IsWithin : Stages w (attempts limit) IsWithin
  unfolding run_step task_done
  stages-IsWithin = record {
    queue_free = λ n c q inv. inv;
    at_idle = refl;
    at_waits = λ item id delay. refl;
    at_executes = λ item. refl;
    segment = segment-IsWithin;
    records = λ n i item e delay c inv.
        stored n item (records_retry item e delay)
          (increment_retry i.wall (key_of w item) (text_of e) c.storage)
          (retry_recorded w item delay) c inv (ground arith) (λ s. ground arith);
    pushes = λ n i item e c inv.
        stored n item (pushes_letter item e)
          (push_dead_letter w.platform i.wall item.request (text_of e) item.attempt c.storage)
          (λ d. (d, deletes_failed item e, [])) c inv (ground arith) (λ s. ground arith);
    gives_up = λ n i item e c inv.
        stored n item (deletes_failed item e) (delete_inflight (key_of w item) c.storage)
          (failed_deleted w item e) c inv (ground arith) (λ s. ground arith);
    clears = λ n i item r c inv.
        stored n item (deletes_done item r) (delete_inflight (key_of w item) c.storage)
          (λ d. (d, hooks item r, [])) c inv (ground arith) (λ s. ground arith);
    answers = λ n i item r c inv. ground arith;
  }

  Upserted-IsWithin :
      (n : ℕ) (wall : F) (req : Request F) (c : Client F)
      → IsWithin (n + queued (attempts limit) c) c
      → Upserted w
          (attempts limit)
          IsWithin
          (λ n. ⊤)
          n
          req
          c
          (upsert_inflight w.platform wall req status_pending 0 none c.storage)
  Upserted-IsWithin n wall req c inv =
      within (upsert_inflight w.platform wall req status_pending 0 none c.storage)
    where
      within :
          (r : Result F ⊤ × Storage F) → Upserted w (attempts limit) IsWithin (λ n. ⊤) n req c r
      within (ok x, s) = λ cap. ground arith
      within (err e, s) = inv

  cancels-beyond :
      (x : Worker F) → busy x ≡ 0 → beyond_worker limit (cancel_worker x) ≡ beyond_worker limit x
  cancels-beyond idle h = refl
  cancels-beyond (died item e) h = refl
  cancels-beyond gone h = refl
  cancels-beyond _ h = absurd (omega arith)

  tasks-IsWithin : Tasks w (attempts limit) IsWithin (λ n. ⊤)
  tasks-IsWithin = record {
    dedup_free = λ n c g inv. inv;
    queue_free = λ n c q inv. inv;
    at_persists = λ req id. refl;
    at_awaits = λ id. refl;
    at_refused = λ e. refl;
    at_abandons = λ req e. refl;
    at_enqueues = λ req id. ground arith;
    at_sleeping = λ item delay. refl;
    at_putting = λ item. refl;
    at_dropped = λ item. refl;
    at_done = refl;
    upserts = Upserted-IsWithin;
  }

  keeps-IsWithin : Keeps w (attempts limit) IsWithin (λ n. ⊤)
  keeps-IsWithin = record {
    submits = submits w (attempts limit) IsWithin (λ n. ⊤) tasks-IsWithin;
    calls = calls w (attempts limit) IsWithin (λ n. ⊤) tasks-IsWithin;
    works = works w (attempts limit) IsWithin stages-IsWithin;
    wakes = wakes w (attempts limit) IsWithin (λ n. ⊤) tasks-IsWithin;
    stops = λ n c inv. inv;
    leaves = λ n c inv. inv;
    closes = λ n c inv. inv;
    cancels = cancels-beyond;
  }

  pub attempts-Kept :
      (s : System F) (es : List (Event F))
      → IsConsistent w s
      → IsWithin (weigh (attempts limit) s) s.client
      → let t = run w s es in IsWithin (weigh (attempts limit) t) t.client
  attempts-Kept = run-Kept w (attempts limit) IsWithin keeps-IsWithin (λ s sound. tt)

module _ {F : Type 0} ⦃o : Float F⦄ (w : World F) where
  -- Over all orders of steps from a consistent system, the items whose attempt is beyond
  -- `max_retries`, in the queue, with the workers or in the reschedules, never become more, and the
  -- limit stays as it was configured: no path tries an item once too often.
  pub run-beyond_limit-le :
      (s : System F) (es : List (Event F))
      → IsConsistent w s
      → let limit = s.client.cfg.retry.max_retries in
        (beyond_limit limit (run w s es) ≤ beyond_limit limit s)
        × ((run w s es).client.cfg.retry.max_retries ≡ limit)
  unfolding beyond_limit
  run-beyond_limit-le s es sound =
      let limit = s.client.cfg.retry.max_retries in
      attempts-Kept w limit (weigh (attempts limit) s) s es sound (omega arith, refl)
