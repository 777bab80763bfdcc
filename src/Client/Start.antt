-- ===== src/Client/Start.antt =====
-- The construction, `start`, `_recover_inflight` and the end of `stop`.
pub mod Recovery
pub mod Restart
use python_async_api_barebon.Base.{
  ℕ, zero, suc, ◌+◌, ⊤, String, Bool, true, false, not, Option, none, some, List, [], ◌∷◌, ◌&&◌,
  if◌then◌else◌,
}
use python_async_api_barebon.Base.Float.{Float}
use python_async_api_barebon.Config.{ClientConfig}
use python_async_api_barebon.Errors.{PyError, runtime_error}
use python_async_api_barebon.Exec.{Result, ok, err}
use python_async_api_barebon.Models.{Request, Response}
use python_async_api_barebon.Queue.{QueueItem, RequestQueue, enqueue, new_queue}
use python_async_api_barebon.Dedup.{InFlightRegistry, get_or_create, new_registry}
use python_async_api_barebon.Limiter.{new_limiter}
use python_async_api_barebon.Storage.{
  Storage, InflightRow, list_inflight, open_storage, close_storage,
}
use python_async_api_barebon.Metrics.{Metrics, new_metrics}
use python_async_api_barebon.Client.State.{Client, Worker, idle}
use python_async_api_barebon.Client.Tasks.{started}

-- How `start` ends: with its workers, by an exception, which leaves the client as it is by then, or
-- not at all.
pub data Start (F : Type 0) : Type 0 where
  running : Client F → List (Worker F) → Start F
  blocked : Start F
  fails : PyError F → Client F → Start F

module _ {F : Type 0} ⦃o : Float F⦄ where
  abbrev pub with_queue :
      ClientConfig F → Storage F → Result F (RequestQueue F) → Result F (Client F)
  with_queue cfg s (err e) = err e
  with_queue cfg s (ok q) = ok (record {
    cfg = cfg;
    has_session = false;
    storage = s;
    queue = q;
    dedup = new_registry;
    rate_limiter = new_limiter cfg.rate_limit;
    breakers = record { cfg = cfg.circuit_breaker; breakers = [] };
    stopping = false;
    metrics = new_metrics cfg.queue.max_size;
  })

  -- `AsyncHardenedClient(config)` on a database file.
  unfoldable pub new_client : ClientConfig F → Storage F → Result F (Client F)
  unfolding new_queue new_limiter new_metrics new_registry
  new_client cfg s = with_queue cfg s (new_queue cfg.queue.max_size)

  abbrev pub put_recovered : Option (RequestQueue F) → Client F → Option (Client F)
  put_recovered none c = none
  put_recovered (some q) c = some (record c { queue = q })

  abbrev pub recover_item :
      InflightRow F → ℕ × Bool × InFlightRegistry F (Response F) → Client F → Option (Client F)
  recover_item row (id, owner, g) c =
      if owner
      then put_recovered
          (enqueue (record { request = row.request; attempt = row.retry_count }) c.queue)
          (started (record c { dedup = g }))
      else some (record c { dedup = g })

  abbrev pub bind : Option (Client F) → (Client F → Option (Client F)) → Option (Client F)
  bind none f = none
  bind (some c) f = f c

  -- The loop of `_recover_inflight`, which runs while no worker does: `none` means that it waits for
  -- room in the queue for ever.
  unfoldable pub recover_rows : List (InflightRow F) → Client F → Option (Client F)
  recover_rows [] c = some c
  recover_rows (row ∷ rows) c =
      bind (recover_item row (get_or_create row.idempotency_key c.dedup) c) (recover_rows rows)

  abbrev pub idle_workers : ℕ → List (Worker F)
  idle_workers zero = []
  idle_workers (suc n) = idle ∷ idle_workers n

  abbrev pub workers_online : Option (Client F) → Start F
  workers_online none = blocked
  workers_online (some c) =
      running (record c { stopping = false }) (idle_workers c.cfg.queue.workers)

  abbrev pub recovered : Result F (List (InflightRow F)) × Storage F → Client F → Start F
  recovered (err e, s) c = fails e (record c { storage = s })
  recovered (ok rows, s) c = workers_online (recover_rows rows (record c { storage = s }))

  -- `start` of a client that has no session; the texts and the time stand in for what is missing in
  -- a stored request.
  unfoldable pub start : String → F → Client F → Start F
  unfolding open_storage recover_rows
  start fresh_id now c =
      let c' = record c { storage = open_storage c.storage; has_session = true } in
      recovered (list_inflight fresh_id now c'.storage) c'

  -- `start` of a client with the workers that it has.
  unfoldable pub start_client : String → F → Client F → List (Worker F) → Start F
  unfolding start
  start_client fresh_id now c ws = if c.has_session then running c ws else start fresh_id now c
