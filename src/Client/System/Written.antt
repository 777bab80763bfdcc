-- ===== src/Client/System/Written.antt =====
-- The in-flight table over all orders of steps.
use python_async_api_barebon.Base.{sym, subst, ◌+◌, List, ⊤, ℕ, none, [], refl}
use python_async_api_barebon.Base.Float.{Float}
use python_async_api_barebon.Client.Execute.{text_of}
use python_async_api_barebon.Client.State.{Client, World, deletes_failed, hooks}
use python_async_api_barebon.Client.System.Defs.{run, Event, System}
use python_async_api_barebon.Client.System.Consistent.{IsConsistent}
use python_async_api_barebon.Client.System.Ledger.{queued, run-Kept, Keeps, Weights}
use python_async_api_barebon.Client.System.Puts.{wakes, Upserted, calls, submits, Tasks}
use python_async_api_barebon.Client.System.Segments.{Ends}
use python_async_api_barebon.Client.System.Stages.{After, works, Stages}
use python_async_api_barebon.Client.Worker.Gate.{Outcome}
use python_async_api_barebon.Client.Worker.Settle.{
  failed_deleted, retry_recorded, then_on, key_of, run_step,
}
use python_async_api_barebon.Exec.{Result, ok, err}
use python_async_api_barebon.Models.{Request}
use python_async_api_barebon.Queue.{QueueItem, task_done}
use python_async_api_barebon.Storage.{
  delete_inflight, push_dead_letter, Storage, increment_retry, status_pending, upsert_inflight,
  close_storage,
}
use python_async_api_barebon.Storage.Writes.{
  delete_inflight-IsWritten, push_dead_letter-inflight, increment_retry-IsWritten,
  upsert_inflight-IsWritten, IsWritten,
}

module _ {F : Type 0} where
  abbrev nothing : Weights F
  nothing = record { of_caller = λ x. 0; of_item = λ x. 0; of_worker = λ x. 0; of_timer = λ x. 0 }

module _ {F : Type 0} ⦃o : Float F⦄ (w : World F) where
  abbrev Written : ℕ → Client F → Type 0
  Written n c = IsWritten w.platform c.storage.inflight

  abbrev v : Weights F
  v = nothing

  segment-Written :
      (n : ℕ) (item : QueueItem F) (c : Client F) (out : Outcome F)
      → Ends w item c out
      → Written (n + 0 + queued v c) c
      → After w v Written n out
  segment-Written n item c out ends inv =
      subst (λ s. IsWritten w.platform s.inflight) (sym ends.same_storage) inv

  stored-Written :
      {A : Type 0} (n : ℕ) (item : QueueItem F) (r : Result F A × Storage F)
      (next : Client F → Outcome F) (c : Client F)
      → IsWritten w.platform r.1.inflight
      → ((s : Storage F)
          → IsWritten w.platform s.inflight
          → After w v Written n (next (record c { storage = s })))
      → After w v Written n (then_on w item r next c)
  unfolding task_done
  stored-Written n item (ok a, s) next c h go = go s h
  stored-Written n item (err e, s) next c h go = h

  stages-Written : Stages w v Written
  unfolding run_step task_done
  stages-Written = record {
    queue_free = λ n c q inv. inv;
    at_idle = refl;
    at_waits = λ item id delay. refl;
    at_executes = λ item. refl;
    segment = segment-Written;
    records = λ n i item e delay c inv.
        stored-Written n item (increment_retry i.wall (key_of w item) (text_of e) c.storage)
          (retry_recorded w item delay) c
          (increment_retry-IsWritten w.platform i.wall (key_of w item) (text_of e) c.storage inv)
          (λ s h. h);
    pushes = λ n i item e c inv.
        stored-Written n item
          (push_dead_letter w.platform i.wall item.request (text_of e) item.attempt c.storage)
          (λ d. (d, deletes_failed item e, [])) c
          (subst (IsWritten w.platform)
            (sym (
              push_dead_letter-inflight w.platform i.wall item.request (text_of e) item.attempt
                c.storage))
            inv)
          (λ s h. h);
    gives_up = λ n i item e c inv.
        stored-Written n item (delete_inflight (key_of w item) c.storage) (failed_deleted w item e)
          c (delete_inflight-IsWritten w.platform (key_of w item) c.storage inv) (λ s h. h);
    clears = λ n i item r c inv.
        stored-Written n item (delete_inflight (key_of w item) c.storage)
          (λ d. (d, hooks item r, [])) c
          (delete_inflight-IsWritten w.platform (key_of w item) c.storage inv) (λ s h. h);
    answers = λ n i item r c inv. inv;
  }

  Upserted-Written :
      (n : ℕ) (req : Request F) (c : Client F) (r : Result F ⊤ × Storage F)
      → IsWritten w.platform r.1.inflight
      → Upserted w v Written (λ n. ⊤) n req c r
  Upserted-Written n req c (ok x, s) h = λ cap. h
  Upserted-Written n req c (err e, s) h = h

  tasks-Written : Tasks w v Written (λ n. ⊤)
  tasks-Written = record {
    dedup_free = λ n c g inv. inv;
    queue_free = λ n c q inv. inv;
    at_persists = λ req id. refl;
    at_awaits = λ id. refl;
    at_refused = λ e. refl;
    at_abandons = λ req e. refl;
    at_enqueues = λ req id. refl;
    at_sleeping = λ item delay. refl;
    at_putting = λ item. refl;
    at_dropped = λ item. refl;
    at_done = refl;
    upserts = λ n wall req c inv.
        Upserted-Written n req c
          (upsert_inflight w.platform wall req status_pending 0 none c.storage)
          (upsert_inflight-IsWritten w.platform wall req status_pending 0 none c.storage inv);
  }

  closed-Written :
      (n : ℕ) (c : Client F)
      → Written n c
      → Written n (record c { storage = close_storage c.storage })
  unfolding close_storage
  closed-Written n c inv = inv

  keeps-Written : Keeps w v Written (λ n. ⊤)
  keeps-Written = record {
    submits = submits w v Written (λ n. ⊤) tasks-Written;
    calls = calls w v Written (λ n. ⊤) tasks-Written;
    works = works w v Written stages-Written;
    wakes = wakes w v Written (λ n. ⊤) tasks-Written;
    stops = λ n c inv. inv;
    leaves = λ n c inv. inv;
    closes = closed-Written;
    cancels = λ x h. refl;
  }

  -- Over all orders of steps the in-flight table holds each key at most once, with a request of that key.
  pub run-IsWritten :
      (s : System F) (es : List (Event F))
      → IsConsistent w s
      → IsWritten w.platform s.client.storage.inflight
      → IsWritten w.platform (run w s es).client.storage.inflight
  run-IsWritten s es sound written =
      run-Kept w v Written keeps-Written (λ t h. tt) s es sound written
