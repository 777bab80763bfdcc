-- ===== src/Client/System/Saved.antt =====
-- Crash safety over all orders of steps: work that is under way has its row in the database.
use python_async_api_barebon.Base.{String, none, List, [], ⊤, arith, ◌+◌, ◌≡◌, ◌≤◌, ℕ, refl}
use python_async_api_barebon.Base.Float.{Float}
use python_async_api_barebon.Base.Sums.{total_mono}
use python_async_api_barebon.Client.Execute.{text_of}
use python_async_api_barebon.Client.State.{
  persists, Caller, enqueues, Client, Worker, World, idle, waits, deletes_failed, hooks, died, gone,
}
use python_async_api_barebon.Client.System.Carriers.{
  caller_weight, carriers, of_key, timer_weight, item_weight, worker_weight, busy,
}
use python_async_api_barebon.Client.System.Defs.{run, Event, cancel_worker, System}
use python_async_api_barebon.Client.System.Futures.{in_flight-le_one}
use python_async_api_barebon.Client.System.Consistent.{IsConsistent}
use python_async_api_barebon.Client.System.Ledger.{run-Kept, Keeps, queued, Weights, weigh}
use python_async_api_barebon.Client.System.Puts.{wakes, calls, Tasks, Upserted, submits}
use python_async_api_barebon.Client.System.Segments.{Ends, Lands}
use python_async_api_barebon.Client.System.Stages.{works, After, Stages}
use python_async_api_barebon.Client.Worker.Gate.{Outcome}
use python_async_api_barebon.Client.Worker.Settle.{
  failed_deleted, retry_recorded, key_of, then_on, run_step,
}
use python_async_api_barebon.Exec.{ok, err, Result}
use python_async_api_barebon.Models.{Platform, Request}
use python_async_api_barebon.Queue.{task_done, QueueItem}
use python_async_api_barebon.Storage.{
  close_storage, status_pending, upsert_inflight, delete_inflight, push_dead_letter,
  increment_retry, Storage,
}
use python_async_api_barebon.Storage.Presence.{
  delete_refused, push_dead_letter-has_row, delete_inflight-has_row, has_row,
  increment_retry-has_row, upsert_inflight-has_row,
}

module _ {F : Type 0} (p : Platform F) (k : String) where
  abbrev saved_caller : Caller F → ℕ
  saved_caller (enqueues req id) = of_key p k req
  saved_caller _ = 0

  abbrev saved_worker : Worker F → ℕ
  saved_worker (hooks item response) = 0
  saved_worker x = worker_weight p k x

  abbrev pub saves : Weights F
  saves = record {
    of_caller = saved_caller;
    of_item = item_weight p k;
    of_worker = saved_worker;
    of_timer = timer_weight p k;
  }

  -- The work of the key from the write of its row to the deletion.
  unfoldable pub at_stake : System F → ℕ
  unfolding weigh
  at_stake s = weigh saves s

module _ {F : Type 0} ⦃o : Float F⦄ (w : World F) (k : String) where
  abbrev IsSaved : ℕ → Client F → Type 0
  IsSaved n c = n ≤ has_row k c.storage

  abbrev v : Weights F
  v = saves w.platform k

  Lands-saved :
      (limit : ℕ) (item : QueueItem F) (x : Worker F)
      → Lands limit item x
      → saved_worker w.platform k x ≡ item_weight w.platform k item
  Lands-saved limit item (waits i id delay) h = ground arith
  Lands-saved limit item _ h = ground arith

  segment-IsSaved :
      (n : ℕ) (item : QueueItem F) (c : Client F) (out : Outcome F)
      → Ends w item c out
      → IsSaved (n + item_weight w.platform k item + queued v c) c
      → After w v IsSaved n out
  segment-IsSaved n item c out ends inv =
      ground (arith, ends, Lands-saved c.cfg.retry.max_retries item out.1 ends.lands)

  -- A write that keeps the key's row.
  stored-IsSaved :
      {A : Type 0} (n : ℕ) (item : QueueItem F) (r : Result F A × Storage F)
      (next : Client F → Outcome F) (c : Client F)
      → IsSaved (n + item_weight w.platform k item + queued v c) c
      → has_row k r.1 ≡ has_row k c.storage
      → ((s : Storage F)
          → has_row k s ≡ has_row k c.storage
          → After w v IsSaved n (next (record c { storage = s })))
      → After w v IsSaved n (then_on w item r next c)
  unfolding task_done
  stored-IsSaved n item (ok a, s) next c inv same go = go s same
  stored-IsSaved n item (err e, s) next c inv same go = ground arith

  -- The deletion of an item's row, behind which the item counts no longer.
  deleted-IsSaved :
      (n : ℕ) (item : QueueItem F) (r : Result F ⊤ × Storage F) (next : Client F → Outcome F)
      (c : Client F)
      → delete_inflight (key_of w item) c.storage ≡ r
      → IsSaved (n + item_weight w.platform k item + queued v c) c
      → ((s : Storage F)
          → IsSaved (n + queued v c) (record c { storage = s })
          → After w v IsSaved n (next (record c { storage = s })))
      → After w v IsSaved n (then_on w item r next c)
  unfolding task_done
  deleted-IsSaved n item (ok x, s) next c e inv go =
      go s (ground (arith, delete_inflight-has_row k (key_of w item) c.storage))
  deleted-IsSaved n item (err x, s) next c e inv go =
      ground (arith, delete_refused k (key_of w item) c.storage x s e)

  stages-IsSaved : Stages w v IsSaved
  unfolding run_step task_done
  stages-IsSaved = record {
    queue_free = λ n c q inv. inv;
    at_idle = refl;
    at_waits = λ item id delay. refl;
    at_executes = λ item. refl;
    segment = segment-IsSaved;
    records = λ n i item e delay c inv.
        stored-IsSaved n item (increment_retry i.wall (key_of w item) (text_of e) c.storage)
          (retry_recorded w item delay) c inv
          (increment_retry-has_row k i.wall (key_of w item) (text_of e) c.storage)
          (λ s same. ground arith);
    pushes = λ n i item e c inv.
        stored-IsSaved n item
          (push_dead_letter w.platform i.wall item.request (text_of e) item.attempt c.storage)
          (λ d. (d, deletes_failed item e, [])) c inv
          (push_dead_letter-has_row k w.platform i.wall item.request (text_of e) item.attempt
            c.storage)
          (λ s same. ground arith);
    gives_up = λ n i item e c inv.
        deleted-IsSaved n item (delete_inflight (key_of w item) c.storage) (failed_deleted w item e)
          c refl inv (λ s left. ground arith);
    clears = λ n i item r c inv.
        deleted-IsSaved n item (delete_inflight (key_of w item) c.storage)
          (λ d. (d, hooks item r, [])) c refl inv (λ s left. ground arith);
    answers = λ n i item r c inv. ground arith;
  }

  Upserted-IsSaved :
      (n : ℕ) (wall : F) (req : Request F) (c : Client F)
      → IsSaved (n + queued v c) c
      → Upserted w v IsSaved
          (λ n. n ≤ 1)
          n
          req
          c
          (upsert_inflight w.platform wall req status_pending 0 none c.storage)
  Upserted-IsSaved n wall req c inv =
      written (upsert_inflight w.platform wall req status_pending 0 none c.storage) refl
    where
      written :
          (r : Result F ⊤ × Storage F)
          → upsert_inflight w.platform wall req status_pending 0 none c.storage ≡ r
          → Upserted w v IsSaved (λ n. n ≤ 1) n req c r
      written (ok x, s) e = λ cap.
          ground (
            arith,
            e,
            upsert_inflight-has_row k w.platform wall req status_pending 0 none c.storage,
          )
      written (err x, s) e =
          ground (
            arith,
            e,
            upsert_inflight-has_row k w.platform wall req status_pending 0 none c.storage,
          )

  cancels-saved :
      (x : Worker F)
      → busy x ≡ 0
      → saved_worker w.platform k (cancel_worker x) ≡ saved_worker w.platform k x
  cancels-saved idle h = refl
  cancels-saved (died item e) h = refl
  cancels-saved gone h = refl
  cancels-saved _ h = absurd (omega arith)

  tasks-IsSaved : Tasks w v IsSaved (λ n. n ≤ 1)
  tasks-IsSaved = record {
    dedup_free = λ n c g inv. inv;
    queue_free = λ n c q inv. inv;
    at_persists = λ req id. refl;
    at_awaits = λ id. refl;
    at_refused = λ e. refl;
    at_abandons = λ req e. refl;
    at_enqueues = λ req id. refl;
    at_sleeping = λ item delay. refl;
    at_putting = λ item. refl;
    at_dropped = λ item. refl;
    at_done = refl;
    upserts = Upserted-IsSaved;
  }

  closed-IsSaved :
      (n : ℕ) (c : Client F)
      → IsSaved n c
      → IsSaved n (record c { storage = close_storage c.storage })
  unfolding close_storage has_row
  closed-IsSaved n c inv = inv

  keeps-IsSaved : Keeps w v IsSaved (λ n. n ≤ 1)
  keeps-IsSaved = record {
    submits = submits w v IsSaved (λ n. n ≤ 1) tasks-IsSaved;
    calls = calls w v IsSaved (λ n. n ≤ 1) tasks-IsSaved;
    works = works w v IsSaved stages-IsSaved;
    wakes = wakes w v IsSaved (λ n. n ≤ 1) tasks-IsSaved;
    stops = λ n c inv. inv;
    leaves = λ n c inv. inv;
    closes = closed-IsSaved;
    cancels = cancels-saved;
  }

  saved_caller-le : (x : Caller F) → saved_caller w.platform k x ≤ caller_weight w.platform k x
  saved_caller-le (persists req id) = omega arith
  saved_caller-le _ = omega arith

  saved_worker-le : (x : Worker F) → saved_worker w.platform k x ≤ worker_weight w.platform k x
  saved_worker-le (hooks item r) = omega arith
  saved_worker-le _ = omega arith

  -- What is at stake is carried, and so by one at most.
  at_stake-le_one : (s : System F) → IsConsistent w s → weigh v s ≤ 1
  unfolding weigh carriers
  at_stake-le_one s sound = omega (
    arith,
    sound.owned k,
    in_flight-le_one k s.client.dedup,
    total_mono (saved_caller w.platform k) (caller_weight w.platform k) s.callers saved_caller-le,
    total_mono (saved_worker w.platform k) (worker_weight w.platform k) s.workers saved_worker-le,
  )

  -- Crash safety, over all orders of steps of callers, workers, reschedules and `stop`, from a
  -- consistent system in which this holds at the start: of the work of a key between the write of
  -- its row and the deletion of it there is never more than the in-flight table has rows of the
  -- key.
  pub run-at_stake-le :
      (s : System F) (es : List (Event F))
      → IsConsistent w s
      → at_stake w.platform k s ≤ has_row k s.client.storage
      → let t = run w s es in at_stake w.platform k t ≤ has_row k t.client.storage
  unfolding at_stake
  run-at_stake-le s es sound saved =
      run-Kept w v IsSaved keeps-IsSaved at_stake-le_one s es sound saved
