-- ===== src/Client/System/Workers.antt =====
-- A worker's step moves the work that it carries, and loses none.
use python_async_api_barebon.Base.{
  ℕ, ◌+◌, ◌≤◌, ◌<◌, ⊤, String, List, [], ◌∷◌, ◌≡◌, refl, arith, str_eq, if◌then◌else◌,
}
use python_async_api_barebon.Base.Float.{Float}
use python_async_api_barebon.Base.Lists.{length}
use python_async_api_barebon.Base.Sums.{total}
use python_async_api_barebon.Client.Execute.{execute, text_of}
use python_async_api_barebon.Client.State.{
  Client, World, Worker, idle, waits, executes, records_retry, pushes_letter, deletes_failed,
  deletes_done, hooks, died, gone,
}
use python_async_api_barebon.Client.System.Carriers.{
  busy, item_weight, worker_weight, timer_weight, in_flight,
}
use python_async_api_barebon.Client.System.Futures.{in_flight-settle, in_flight-le_one}
use python_async_api_barebon.Client.System.Kept.{Keeps, Ends-Keeps}
use python_async_api_barebon.Client.System.Segments.{begin-Ends, acquire_round-Ends, executed-Ends}
use python_async_api_barebon.Client.Worker.Gate.{
  executed, acquire_round, Outcome, begin, terminal_error,
}
use python_async_api_barebon.Client.Worker.Settle.{
  Input, run_step, key_of, then_on, retry_recorded, failed_deleted, succeeded, dequeued, finishes,
}
use python_async_api_barebon.Dedup.{Future, resolved, failed, InFlightRegistry, resolve, fail}
use python_async_api_barebon.Dedup.Invariant.{IsValid, fail-IsValid, resolve-IsValid}
use python_async_api_barebon.Errors.{PyError}
use python_async_api_barebon.Exec.{Result, ok, err}
use python_async_api_barebon.Models.{Response}
use python_async_api_barebon.Queue.{QueueItem, task_done, dequeue}
use python_async_api_barebon.Storage.{Storage, increment_retry, push_dead_letter, delete_inflight}

module _ {F : Type 0} ⦃o : Float F⦄ (w : World F) (k : String) where
  -- The work of the key that the worker, its new reschedules and the queue carry changes as the
  -- pending future of the key does, if the worker's own work has one; a pending future that had a
  -- carrier before the step has one behind it; the items that are out change as `unfinished` does.
  pub record Balanced (x : Worker F) (c : Client F) (out : Outcome F) : Type 0 where
    pub work :
        worker_weight w.platform k x ≤ in_flight k c.dedup
        → worker_weight w.platform k out.1
            + total (timer_weight w.platform k) out.2
            + total (item_weight w.platform k) out.0.queue.items
            + in_flight k c.dedup
          ≡ worker_weight w.platform k x
            + total (item_weight w.platform k) c.queue.items
            + in_flight k out.0.dedup
    pub covers :
        (n : ℕ)
        → in_flight k c.dedup
          ≤ n + worker_weight w.platform k x + total (item_weight w.platform k) c.queue.items
        → in_flight k out.0.dedup
          ≤ n
            + worker_weight w.platform k out.1
            + total (timer_weight w.platform k) out.2
            + total (item_weight w.platform k) out.0.queue.items
    pub count :
        out.0.queue.unfinished + length c.queue.items + busy x
        ≡ c.queue.unfinished + length out.0.queue.items + busy out.1
    pub registry : IsValid out.0.dedup

  -- What a worker's step may rely on.
  pub record IsReady (x : Worker F) (c : Client F) : Type 0 where
    pub registry : IsValid c.dedup
    pub counted : length c.queue.items + busy x ≤ c.queue.unfinished

  Keeps-Balanced :
      (item : QueueItem F) (x : Worker F) (c : Client F) (out : Outcome F)
      → IsReady x c
      → busy x ≡ 1
      → worker_weight w.platform k x ≡ item_weight w.platform k item
      → Keeps w k item c out
      → Balanced x c out
  Keeps-Balanced item x c out ready b h keeps = record {
    work = λ owned. ground (arith, keeps.same_dedup, keeps.same_items, keeps.held);
    covers = λ n had. ground (arith, had, keeps.same_dedup, keeps.same_items, keeps.held);
    count = ground (arith, keeps.same_items, keeps.reported);
    registry = rw keeps.same_dedup ready.registry;
  }

  dequeued_first :
      (now : F) (item : QueueItem F) (items : List (QueueItem F)) (c : Client F)
      → c.queue.items ≡ item ∷ items
      → let q = c.queue in
        dequeued w now (dequeue c.queue) c
        ≡ begin w now item (record c { queue = record q { items = items } })
  unfolding dequeue
  dequeued_first now item items c e = rw e

  dequeued-Balanced :
      (now : F) (items : List (QueueItem F)) (c : Client F)
      → c.queue.items ≡ items
      → IsReady idle c
      → Balanced idle c (dequeued w now (dequeue c.queue) c)
  unfolding dequeue
  dequeued-Balanced now [] c e ready = record {
    work = λ owned. ground arith;
    covers = λ n had. ground (arith, had);
    count = ground arith;
    registry = ground (arith, ready.registry);
  }
  dequeued-Balanced now (item ∷ items) c e ready =
      let q = c.queue in
      let c' = record c { queue = record q { items = items } } in
      let keeps =
        Ends-Keeps w k item c' (begin w now item c') (ground (arith, ready.counted))
          (begin-Ends w now item c') in
      let keeps' = dequeued_first now item items c e in
      rw keeps' (record {
        work = λ owned. ground (arith, keeps.same_dedup, keeps.same_items, keeps.held);
        covers = λ n had. ground (arith, had, keeps.same_dedup, keeps.same_items, keeps.held);
        count = ground (arith, keeps.same_items, keeps.reported);
        registry = rw keeps.same_dedup ready.registry;
      })

  -- A write to the storage raises, and the worker dies, or it returns and the step goes on.
  then_on-Keeps :
      {A : Type 0} (item : QueueItem F) (r : Result F A × Storage F) (next : Client F → Outcome F)
      (c : Client F)
      → 0 < c.queue.unfinished
      → ((s : Storage F) → Keeps w k item c (next (record c { storage = s })))
      → Keeps w k item c (then_on w item r next c)
  unfolding task_done
  then_on-Keeps item (ok x, s) next c out go = go s
  then_on-Keeps item (err e, s) next c out go = ground arith

  retry-Keeps :
      (item : QueueItem F) (delay : F) (c : Client F) (s : Storage F)
      → 0 < c.queue.unfinished
      → Keeps w k item c (retry_recorded w item delay (record c { storage = s }))
  unfolding task_done
  retry-Keeps item delay c s h = ground arith

  settled-Balanced :
      (item : QueueItem F) (outcome : Future F (Response F)) (x : Worker F) (c : Client F)
      (g : InFlightRegistry F (Response F)) (s : Storage F)
      → IsReady x c
      → busy x ≡ 1
      → worker_weight w.platform k x ≡ item_weight w.platform k item
      → IsValid g
      → in_flight k g ≡ (if str_eq (key_of w item) k then 0 else in_flight k c.dedup)
      → Balanced x c (finishes w [] (record c { storage = s; dedup = g }))
  unfolding task_done
  settled-Balanced item outcome x c g s ready b h v e = record {
    work = λ owned. ground (arith, owned, in_flight-le_one k c.dedup);
    covers = λ n had. ground (arith, had);
    count = ground (arith, ready.counted);
    registry = v;
  }

  fail-Balanced :
      (item : QueueItem F) (e : PyError F) (x : Worker F) (c : Client F) (s : Storage F)
      → IsReady x c
      → busy x ≡ 1
      → worker_weight w.platform k x ≡ item_weight w.platform k item
      → Balanced x c (failed_deleted w item e (record c { storage = s }))
  unfolding fail
  fail-Balanced item e x c s ready b h =
      settled-Balanced item (failed (terminal_error e)) x c _ s ready b h
        (fail-IsValid (key_of w item) (terminal_error e) c.dedup ready.registry)
        (in_flight-settle k (key_of w item) (failed (terminal_error e)) c.dedup ready.registry refl)

  resolve-Balanced :
      (item : QueueItem F) (response : Response F) (x : Worker F) (c : Client F)
      → IsReady x c
      → busy x ≡ 1
      → worker_weight w.platform k x ≡ item_weight w.platform k item
      → Balanced x c (succeeded w item response c)
  unfolding resolve
  resolve-Balanced item response x c ready b h =
      settled-Balanced item (resolved response) x c _ c.storage ready b h
        (resolve-IsValid (key_of w item) response c.dedup ready.registry)
        (in_flight-settle k (key_of w item) (resolved response) c.dedup ready.registry refl)

  delete-Balanced :
      (item : QueueItem F) (e : PyError F) (r : Result F ⊤ × Storage F) (c : Client F)
      → IsReady (deletes_failed item e) c
      → Balanced (deletes_failed item e) c (then_on w item r (failed_deleted w item e) c)
  delete-Balanced item e (ok x, s) c ready = fail-Balanced item e _ c s ready refl refl
  delete-Balanced item e (err x, s) c ready = Keeps-Balanced item _ c _ ready refl refl (
      then_on-Keeps {A = ⊤} item (err x, s) (λ c'. (c', deletes_failed item e, [])) c
        (omega (arith, ready.counted)) (λ t. ground arith))

  -- Every step of a worker is balanced.
  pub run_step-Balanced :
      (i : Input F) (x : Worker F) (c : Client F) → IsReady x c → Balanced x c (run_step w i x c)
  unfolding run_step
  run_step-Balanced i idle c ready = dequeued-Balanced i.now c.queue.items c refl ready
  run_step-Balanced i (waits item id delay) c ready = Keeps-Balanced item _ c _ ready refl refl (
      Ends-Keeps w k item c (acquire_round w i.now item id delay c) (omega (arith, ready.counted))
        (acquire_round-Ends w i.now item id delay c))
  run_step-Balanced i (executes item) c ready = Keeps-Balanced item _ c _ ready refl refl (
      let reply = execute w item.request item.attempt i.reply in
      Ends-Keeps w k item c (executed w i.now item reply c) (omega (arith, ready.counted))
        (executed-Ends w i.now item reply c))
  run_step-Balanced i (records_retry item e delay) c ready =
      let out : 0 < c.queue.unfinished = omega (arith, ready.counted) in
      Keeps-Balanced item _ c _ ready refl refl (
        then_on-Keeps item (increment_retry i.wall (key_of w item) (text_of e) c.storage) _ c out
          (λ s. retry-Keeps item delay c s out))
  run_step-Balanced i (pushes_letter item e) c ready = Keeps-Balanced item _ c _ ready refl refl (
      then_on-Keeps item
        (push_dead_letter w.platform i.wall item.request (text_of e) item.attempt c.storage) _ c
        (omega (arith, ready.counted)) (λ s. ground arith))
  run_step-Balanced i (deletes_failed item e) c ready =
      delete-Balanced item e (delete_inflight (key_of w item) c.storage) c ready
  run_step-Balanced i (deletes_done item response) c ready =
      Keeps-Balanced item _ c _ ready refl refl (
        then_on-Keeps item (delete_inflight (key_of w item) c.storage) _ c
          (omega (arith, ready.counted)) (λ s. ground arith))
  run_step-Balanced i (hooks item response) c ready =
      resolve-Balanced item response _ c ready refl refl
  run_step-Balanced i (died item e) c ready = record {
    work = λ owned. omega arith;
    covers = λ n had. omega arith;
    count = omega arith;
    registry = ready.registry;
  }
  run_step-Balanced i gone c ready = record {
    work = λ owned. omega arith;
    covers = λ n had. omega arith;
    count = omega arith;
    registry = ready.registry;
  }
