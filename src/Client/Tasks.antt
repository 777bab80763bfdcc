-- ===== src/Client/Tasks.antt =====
-- The other tasks: the callers of `request`, the reschedules, and the client's start and stop.
use python_async_api_barebon.Base.{ℕ, ◌+◌, ⊤, String, Bool, Option, none, some, if◌then◌else◌}
use python_async_api_barebon.Errors.{runtime_error}
use python_async_api_barebon.Exec.{Result, ok, err}
use python_async_api_barebon.Models.{Value, Fields, Request, Response, idempotency_key}
use python_async_api_barebon.Queue.{QueueItem, RequestQueue, enqueue}
use python_async_api_barebon.Dedup.{InFlightRegistry, get_or_create}
use python_async_api_barebon.Storage.{Storage, upsert_inflight, status_pending}
use python_async_api_barebon.Client.State.{
  Client, World, Timer, Caller, sleeping, putting, done, dropped, persists, enqueues, awaits,
  refused, abandons,
}

module _ {F : Type 0} where
  abbrev pub started : Client F → Client F
  started c =
      let m = c.metrics in
      record c { metrics = record m { requests_started = m.requests_started + 1 } }

  abbrev pub put_or_wait : Request F → ℕ → Option (RequestQueue F) → Client F → Client F × Caller F
  put_or_wait req id none c = (c, enqueues req id)
  put_or_wait req id (some q) c = (record c { queue = q }, awaits id)

  abbrev pub fresh_item : Request F → QueueItem F
  fresh_item req = record { request = req; attempt = 0 }

  abbrev pub persisted : Request F → ℕ → Result F ⊤ × Storage F → Client F → Client F × Caller F
  persisted req id (err e, s) c = (record c { storage = s }, abandons req e)
  persisted req id (ok x, s) c =
      put_or_wait req id (enqueue (fresh_item req) c.queue) (started (record c { storage = s }))

  -- A task of `_reschedule` when it is resumed.
  abbrev pub timer_put : QueueItem F → Option (RequestQueue F) → Client F → Client F × Timer F
  timer_put item none c = (c, putting item)
  timer_put item (some q) c = (record c { queue = q }, done)

  unfoldable pub timer_step : Timer F → Client F → Client F × Timer F
  timer_step (sleeping item delay) c =
      if c.stopping then (c, dropped item) else timer_put item (enqueue item c.queue) c
  timer_step (putting item) c = timer_put item (enqueue item c.queue) c
  timer_step done c = (c, done)
  timer_step (dropped item) c = (c, dropped item)

module _ {F : Type 0} (w : World F) where
  abbrev pub joined_or_owner :
      Request F → ℕ × Bool × InFlightRegistry F (Response F) → Client F → Client F × Caller F
  joined_or_owner req (id, owner, g) c =
      (record c { dedup = g }, if owner then persists req id else awaits id)

  -- `request`, with the identifier and the time that the Request takes, up to its first wait.
  unfoldable pub submit :
      String
      → F
      → String
      → String
      → Fields F
      → Fields F
      → Value F
      → ℕ
      → Client F
      → Client F × Caller F
  submit request_id created_at method url params headers body priority c =
      let req : Request F = record {
        method = w.platform.upper method;
        url = url;
        headers = headers;
        params = params;
        body = body;
        priority = priority;
        request_id = request_id;
        created_at = created_at;
      } in
      if c.has_session
      then joined_or_owner req (get_or_create (idempotency_key w.platform req) c.dedup) c
      else (c, refused (runtime_error "client not started — use `async with` or call .start()"))

  -- A caller when it is resumed.
  unfoldable pub caller_step : F → Caller F → Client F → Client F × Caller F
  caller_step wall (persists req id) c =
      persisted req id (upsert_inflight w.platform wall req status_pending 0 none c.storage) c
  caller_step wall (enqueues req id) c = put_or_wait req id (enqueue (fresh_item req) c.queue) c
  caller_step wall (awaits id) c = (c, awaits id)
  caller_step wall (refused e) c = (c, refused e)
  caller_step wall (abandons req e) c = (c, abandons req e)
