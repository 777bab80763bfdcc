-- ===== src/Client/System/Counted.antt =====
-- The counters of the metrics over all orders of steps: every request that was started is settled,
-- open or lost.
use python_async_api_barebon.Base.{
  true, false, none, List, [], ⊤, Bool, arith, ◌+◌, ◌≡◌, ◌≤◌, if◌then◌else◌, ℕ, refl,
}
use python_async_api_barebon.Base.Float.{Float}
use python_async_api_barebon.Client.Execute.{text_of}
use python_async_api_barebon.Client.State.{
  Caller, enqueues, Client, Timer, Worker, World, idle, waits, records_retry, pushes_letter,
  deletes_failed, deletes_done, hooks, died, gone, done,
}
use python_async_api_barebon.Client.System.Carriers.{busy}
use python_async_api_barebon.Client.System.Defs.{run, Event, cancel_worker, System}
use python_async_api_barebon.Client.System.Consistent.{IsConsistent}
use python_async_api_barebon.Client.System.Ledger.{run-Kept, Keeps, queued, Weights, weigh}
use python_async_api_barebon.Client.System.Puts.{wakes, calls, Tasks, Upserted, submits}
use python_async_api_barebon.Client.System.Segments.{dead_worker, settled, open_worker, Ends, Lands}
use python_async_api_barebon.Client.System.Stages.{works, After, Before, Stages}
use python_async_api_barebon.Client.Worker.Gate.{Outcome}
use python_async_api_barebon.Client.Worker.Settle.{
  failed_deleted, retry_recorded, key_of, then_on, run_step,
}
use python_async_api_barebon.Exec.{ok, err, Result}
use python_async_api_barebon.Metrics.{Metrics}
use python_async_api_barebon.Models.{Request}
use python_async_api_barebon.Queue.{task_done, QueueItem}
use python_async_api_barebon.Storage.{
  status_pending, upsert_inflight, delete_inflight, push_dead_letter, increment_retry, Storage,
}

-- 1 for a worker with a request whose outcome is not counted; of one that died it is not known
-- whether it was, so `lost` says whether to count it.
abbrev open_or_lost : {F : Type 0} → Bool → Worker F → ℕ
open_or_lost lost (died item e) = if lost then 1 else 0
open_or_lost lost x = open_worker x

abbrev open_caller : {F : Type 0} → Caller F → ℕ
open_caller (enqueues req id) = 1
open_caller _ = 0

abbrev open_timer : {F : Type 0} → Timer F → ℕ
open_timer done = 0
open_timer _ = 1

abbrev pub opens : {F : Type 0} → Bool → Weights F
opens lost = record {
  of_caller = open_caller;
  of_item = λ item. 1;
  of_worker = open_or_lost lost;
  of_timer = open_timer;
}

-- The requests that were started and whose outcome is open, without or with those of workers that died.
unfoldable pub outstanding : {F : Type 0} → Bool → System F → ℕ
unfolding weigh
outstanding lost s = weigh (opens lost) s

-- What was started covers what is settled and open; with the lost ones it is covered by them.
abbrev pub Covers : {F : Type 0} → Bool → ℕ → Metrics F → Type 0
Covers lost n m =
    (if lost then m.requests_started else settled m + n)
    ≤ (if lost then settled m + n else m.requests_started)

module _ {F : Type 0} ⦃o : Float F⦄ (w : World F) (lost : Bool) where
  abbrev IsCounted : ℕ → Client F → Type 0
  IsCounted n c =
      Covers lost n c.metrics
      × (c.metrics.dlq_pushes ≡ c.metrics.requests_failed_terminal)
      × (c.metrics.retries_performed ≡ c.metrics.requests_failed_retryable)

  Lands-open :
      (limit : ℕ) (item : QueueItem F) (x : Worker F)
      → Lands limit item x
      → open_or_lost lost x ≡ open_worker x + (if lost then dead_worker x else 0)
  Lands-open limit item (waits i id delay) h = ground arith
  Lands-open limit item _ h = ground arith

  segment-IsCounted :
      (n : ℕ) (item : QueueItem F) (c : Client F) (out : Outcome F)
      → Ends w item c out
      → IsCounted (n + 1 + queued (opens lost) c) c
      → After w (opens lost) IsCounted n out
  segment-IsCounted n item c out ends inv =
      ground (arith, ends, Lands-open c.cfg.retry.max_retries item out.1 ends.lands)

  stored :
      {A : Type 0} (n : ℕ) (item : QueueItem F) (x : Worker F) (r : Result F A × Storage F)
      (next : Client F → Outcome F) (c : Client F)
      → Before w (opens lost) IsCounted n x c
      → ((s : Storage F) → After w (opens lost) IsCounted n (next (record c { storage = s })))
      → After w (opens lost) IsCounted n (then_on w item r next c)
  unfolding task_done
  stored n item x (ok a, s) next c inv go = go s
  stored n item x (err e, s) next c inv go = ground arith

  stages-IsCounted : Stages w (opens lost) IsCounted
  unfolding run_step task_done
  stages-IsCounted = record {
    queue_free = λ n c q inv. inv;
    at_idle = refl;
    at_waits = λ item id delay. refl;
    at_executes = λ item. refl;
    segment = segment-IsCounted;
    records = λ n i item e delay c inv.
        stored n item (records_retry item e delay)
          (increment_retry i.wall (key_of w item) (text_of e) c.storage)
          (retry_recorded w item delay) c inv (λ s. ground arith);
    pushes = λ n i item e c inv.
        stored n item (pushes_letter item e)
          (push_dead_letter w.platform i.wall item.request (text_of e) item.attempt c.storage)
          (λ d. (d, deletes_failed item e, [])) c inv (λ s. ground arith);
    gives_up = λ n i item e c inv.
        stored n item (deletes_failed item e) (delete_inflight (key_of w item) c.storage)
          (failed_deleted w item e) c inv (λ s. ground arith);
    clears = λ n i item r c inv.
        stored n item (deletes_done item r) (delete_inflight (key_of w item) c.storage)
          (λ d. (d, hooks item r, [])) c inv (λ s. ground arith);
    answers = λ n i item r c inv. ground arith;
  }

  Upserted-IsCounted :
      (n : ℕ) (wall : F) (req : Request F) (c : Client F)
      → IsCounted (n + queued (opens lost) c) c
      → Upserted w
          (opens lost)
          IsCounted
          (λ n. ⊤)
          n
          req
          c
          (upsert_inflight w.platform wall req status_pending 0 none c.storage)
  Upserted-IsCounted n wall req c inv =
      within (upsert_inflight w.platform wall req status_pending 0 none c.storage)
    where
      within : (r : Result F ⊤ × Storage F) → Upserted w (opens lost) IsCounted (λ n. ⊤) n req c r
      within (ok x, s) = λ cap. ground arith
      within (err e, s) = inv

  cancels-open :
      (x : Worker F) → busy x ≡ 0 → open_or_lost lost (cancel_worker x) ≡ open_or_lost lost x
  cancels-open idle h = refl
  cancels-open (died item e) h = refl
  cancels-open gone h = refl
  cancels-open _ h = absurd (omega arith)

  tasks-IsCounted : Tasks w (opens lost) IsCounted (λ n. ⊤)
  tasks-IsCounted = record {
    dedup_free = λ n c g inv. inv;
    queue_free = λ n c q inv. inv;
    at_persists = λ req id. refl;
    at_awaits = λ id. refl;
    at_refused = λ e. refl;
    at_abandons = λ req e. refl;
    at_enqueues = λ req id. ground arith;
    at_sleeping = λ item delay. refl;
    at_putting = λ item. refl;
    at_dropped = λ item. refl;
    at_done = refl;
    upserts = Upserted-IsCounted;
  }

  keeps-IsCounted : Keeps w (opens lost) IsCounted (λ n. ⊤)
  keeps-IsCounted = record {
    submits = submits w (opens lost) IsCounted (λ n. ⊤) tasks-IsCounted;
    calls = calls w (opens lost) IsCounted (λ n. ⊤) tasks-IsCounted;
    works = works w (opens lost) IsCounted stages-IsCounted;
    wakes = wakes w (opens lost) IsCounted (λ n. ⊤) tasks-IsCounted;
    stops = λ n c inv. inv;
    leaves = λ n c inv. inv;
    closes = λ n c inv. inv;
    cancels = cancels-open;
  }

  pub counters-Kept :
      (s : System F) (es : List (Event F))
      → IsConsistent w s
      → IsCounted (weigh (opens lost) s) s.client
      → let t = run w s es in IsCounted (weigh (opens lost) t) t.client
  counters-Kept = run-Kept w (opens lost) IsCounted keeps-IsCounted (λ s sound. tt)

module _ {F : Type 0} ⦃o : Float F⦄ (w : World F) where
  -- The balance of the counters.
  pub record IsAccounted (s : System F) : Type 0 where
    pub no_more : settled s.client.metrics + outstanding false s ≤ s.client.metrics.requests_started
    pub no_less : s.client.metrics.requests_started ≤ settled s.client.metrics + outstanding true s
    pub letters : s.client.metrics.dlq_pushes ≡ s.client.metrics.requests_failed_terminal
    pub retries : s.client.metrics.retries_performed ≡ s.client.metrics.requests_failed_retryable

  -- From a consistent system whose books balance, the books of the metrics balance over all orders
  -- of steps: what was started is at least what succeeded, failed for good or is open, and at most
  -- that with what ended workers have lost; the dead letters pushed are as many as the terminal
  -- failures, and the retries performed as the retryable failures.
  pub run-IsAccounted :
      (s : System F) (es : List (Event F))
      → IsConsistent w s
      → IsAccounted s
      → IsAccounted (run w s es)
  unfolding outstanding
  run-IsAccounted s es sound a =
      let below = counters-Kept w false s es sound (a.no_more, a.letters, a.retries) in
      let above = counters-Kept w true s es sound (a.no_less, a.letters, a.retries) in
      record { no_more = below.0; no_less = above.0; letters = below.1; retries = below.2 }
