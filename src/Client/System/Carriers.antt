-- ===== src/Client/System/Carriers.antt =====
-- Who carries the work of an idempotency key, and how many items the workers hold.
use python_async_api_barebon.Base.{ℕ, ◌+◌, String, Option, none, some, str_eq, if◌then◌else◌}
use python_async_api_barebon.Base.Dict.{get}
use python_async_api_barebon.Models.{Request, Platform, idempotency_key}
use python_async_api_barebon.Queue.{QueueItem}
use python_async_api_barebon.Dedup.{InFlightRegistry, future_at}
use python_async_api_barebon.Dedup.Defs.{is_pending}
use python_async_api_barebon.Client.State.{
  Worker, Timer, Caller, idle, waits, executes, records_retry, pushes_letter, deletes_failed,
  deletes_done, hooks, died, gone, sleeping, putting, done, dropped, persists, enqueues, abandons,
}
use python_async_api_barebon.Base.Sums.{total}
use python_async_api_barebon.Client.System.Defs.{System}

module _ {F : Type 0} where
  -- 1 for a worker that has an item in hand.
  abbrev pub busy : Worker F → ℕ
  busy idle = 0
  busy (died item e) = 0
  busy gone = 0
  busy _ = 1

module _ {F : Type 0} (p : Platform F) (k : String) where
  -- 1 for a request of the key.
  abbrev pub of_key : Request F → ℕ
  of_key r = if str_eq (idempotency_key p r) k then 1 else 0

  abbrev pub item_weight : QueueItem F → ℕ
  item_weight item = of_key item.request

  -- The owner of the key's future, up to its put; one that raised is left with it.
  abbrev pub caller_weight : Caller F → ℕ
  caller_weight (persists r id) = of_key r
  caller_weight (enqueues r id) = of_key r
  caller_weight (abandons r e) = of_key r
  caller_weight _ = 0

  -- The worker with the key's item in hand; one that died is left with it.
  abbrev pub worker_weight : Worker F → ℕ
  worker_weight (waits item id total) = item_weight item
  worker_weight (executes item) = item_weight item
  worker_weight (records_retry item e delay) = item_weight item
  worker_weight (pushes_letter item e) = item_weight item
  worker_weight (deletes_failed item e) = item_weight item
  worker_weight (deletes_done item response) = item_weight item
  worker_weight (hooks item response) = item_weight item
  worker_weight (died item e) = item_weight item
  worker_weight idle = 0
  worker_weight gone = 0

  -- The reschedule of the key's item; one that `stop` dropped is left with it.
  abbrev pub timer_weight : Timer F → ℕ
  timer_weight (sleeping item delay) = item_weight item
  timer_weight (putting item) = item_weight item
  timer_weight (dropped item) = item_weight item
  timer_weight done = 0

  -- All that carry the key's work.
  unfoldable pub carriers : System F → ℕ
  carriers s =
      total caller_weight s.callers
      + total item_weight s.client.queue.items
      + total worker_weight s.workers
      + total timer_weight s.timers

module _ {F T : Type 0} where
  abbrev pub at_reference : InFlightRegistry F T → Option ℕ → ℕ
  at_reference g none = 0
  at_reference g (some id) = if is_pending (future_at g id) then 1 else 0

  -- 1 if a future of the key is pending.
  unfoldable pub in_flight : String → InFlightRegistry F T → ℕ
  in_flight k g = at_reference g (get g.inflight k)
