-- ===== src/Client/Worker/Settle.antt =====
-- The rest of `_handle` and `_handle_retry_or_dlq`, and a worker's step.
use python_async_api_barebon.Base.{◌+◌, String, Option, none, some, List, [], ◌∷◌}
use python_async_api_barebon.Base.Float.{Float}
use python_async_api_barebon.Errors.{PyError}
use python_async_api_barebon.Exec.{Result, ok, err}
use python_async_api_barebon.Models.{Response, idempotency_key}
use python_async_api_barebon.Queue.{QueueItem, RequestQueue, task_done, dequeue}
use python_async_api_barebon.Dedup.{resolve, fail}
use python_async_api_barebon.Storage.{Storage, increment_retry, push_dead_letter, delete_inflight}
use python_async_api_barebon.Client.State.{
  Client, World, Worker, Timer, idle, waits, executes, records_retry, pushes_letter, deletes_failed,
  deletes_done, hooks, died, gone, sleeping,
}
use python_async_api_barebon.Client.Execute.{Reply, execute, text_of}
use python_async_api_barebon.Client.Worker.Gate.{
  Outcome, dies, begin, acquire_round, executed, terminal_error,
}

-- What a step of a worker reads: the monotonic clock, the wall clock, and the transport's reply.
pub record Input (F : Type 0) : Type 0 where
  pub now : F
  pub wall : F
  pub reply : Reply F

module _ {F : Type 0} ⦃o : Float F⦄ (w : World F) where
  abbrev pub key_of : QueueItem F → String
  key_of item = idempotency_key w.platform item.request

  -- The end of `_handle`: `finally` reports the item as done, and the loop goes on.
  abbrev pub finishes : List (Timer F) → Client F → Outcome F
  finishes timers c = (record c { queue = (task_done c.queue).1 }, idle, timers)

  -- A method of the storage, and what follows on its return.
  abbrev pub then_on :
      {A : Type 0}
      → QueueItem F
      → Result F A × Storage F
      → (Client F → Outcome F)
      → Client F
      → Outcome F
  then_on item (ok x, s) next c = next (record c { storage = s })
  then_on item (err e, s) next c = dies item e (record c { storage = s })

  abbrev pub retry_recorded : QueueItem F → F → Client F → Outcome F
  retry_recorded item delay =
      finishes (sleeping (record { request = item.request; attempt = item.attempt + 1 }) delay ∷ [])

  abbrev pub failed_deleted : QueueItem F → PyError F → Client F → Outcome F
  failed_deleted item e c =
      finishes [] (record c { dedup = fail (key_of item) (terminal_error e) c.dedup })

  abbrev pub succeeded : QueueItem F → Response F → Client F → Outcome F
  succeeded item response c =
      finishes [] (record c { dedup = resolve (key_of item) response c.dedup })

  abbrev pub dequeued : F → Option (QueueItem F × RequestQueue F) → Client F → Outcome F
  dequeued now none c = (c, idle, [])
  dequeued now (some (item, q)) c = begin w now item (record c { queue = q })

  -- What a worker does when it is resumed. The response hook, which cannot change the client, has
  -- returned or raised by the step that leaves `hooks`.
  unfoldable pub run_step : Input F → Worker F → Client F → Outcome F
  run_step i idle c = dequeued i.now (dequeue c.queue) c
  run_step i (waits item id total) c = acquire_round w i.now item id total c
  run_step i (executes item) c =
      executed w i.now item (execute w item.request item.attempt i.reply) c
  run_step i (records_retry item e delay) c =
      then_on item (increment_retry i.wall (key_of item) (text_of e) c.storage)
        (retry_recorded item delay) c
  run_step i (pushes_letter item e) c =
      then_on item
        (push_dead_letter w.platform i.wall item.request (text_of e) item.attempt c.storage)
        (λ c'. (c', deletes_failed item e, [])) c
  run_step i (deletes_failed item e) c =
      then_on item (delete_inflight (key_of item) c.storage) (failed_deleted item e) c
  run_step i (deletes_done item response) c =
      then_on item (delete_inflight (key_of item) c.storage) (λ c'. (c', hooks item response, [])) c
  run_step i (hooks item response) c = succeeded item response c
  run_step i (died item e) c = (c, died item e, [])
  run_step i gone c = (c, gone, [])
