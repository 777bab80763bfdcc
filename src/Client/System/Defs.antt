-- ===== src/Client/System/Defs.antt =====
-- The system and its steps.
use python_async_api_barebon.Base.{
  ℕ, String, Bool, true, false, Option, none, some, List, [], ◌∷◌, ◌++◌, ◌&&◌, if◌then◌else◌,
}
use python_async_api_barebon.Base.Lists.{get_elem?, set}
use python_async_api_barebon.Base.Float.{Float}
use python_async_api_barebon.Models.{Value, Fields}
use python_async_api_barebon.Storage.{close_storage}
use python_async_api_barebon.Client.State.{
  Client, World, Worker, Timer, Caller, gone, idle, died, sleeping, putting, done, dropped,
}
use python_async_api_barebon.Client.Worker.{Input, run_step}
use python_async_api_barebon.Client.Tasks.{submit, caller_step, timer_step}

pub record System (F : Type 0) : Type 0 where
  pub client : Client F
  pub callers : List (Caller F)
  pub workers : List (Worker F)
  pub timers : List (Timer F)

-- What happens next: a call of `request`, a task that is resumed (by its number), or a stretch of
-- `stop`: its beginning, the return of `drain` with the cancellation of the workers, the end of
-- the session, and that of the connection to the database.
pub data Event (F : Type 0) : Type 0 where
  requests : String → F → String → String → Fields F → Fields F → Value F → ℕ → Event F
  caller_runs : ℕ → F → Event F
  worker_runs : ℕ → Input F → Event F
  timer_runs : ℕ → Event F
  stop_begins : Event F
  stop_cancels : Event F
  session_closes : Event F
  storage_closes : Event F

module _ {F : Type 0} where
  -- `drain` has nothing to wait for: no reschedule is asleep or waits for room.
  abbrev pub is_settled_timer : Timer F → Bool
  is_settled_timer (sleeping item delay) = false
  is_settled_timer (putting item) = false
  is_settled_timer done = true
  is_settled_timer (dropped item) = true

  unfoldable pub no_pending : List (Timer F) → Bool
  no_pending [] = true
  no_pending (t ∷ ts) = is_settled_timer t && no_pending ts

  -- Cancelling a worker that has died changes nothing.
  abbrev pub cancel_worker : Worker F → Worker F
  cancel_worker (died item e) = died item e
  cancel_worker _ = gone

  unfoldable pub cancel_workers : List (Worker F) → List (Worker F)
  cancel_workers [] = []
  cancel_workers (x ∷ xs) = cancel_worker x ∷ cancel_workers xs

  -- No worker has an item in hand.
  unfoldable pub no_busy : List (Worker F) → Bool
  no_busy [] = true
  no_busy (idle ∷ xs) = no_busy xs
  no_busy (died item e ∷ xs) = no_busy xs
  no_busy (gone ∷ xs) = no_busy xs
  no_busy (_ ∷ xs) = false

  -- Every worker has ended.
  unfoldable pub all_ended : List (Worker F) → Bool
  all_ended [] = true
  all_ended (died item e ∷ xs) = all_ended xs
  all_ended (gone ∷ xs) = all_ended xs
  all_ended (_ ∷ xs) = false

  -- `drain` returns, and `stop` cancels the workers at once. What was joined when `join` was woken
  -- need not be joined now: an item may have been put since, and stays in the queue. No worker has
  -- taken it, for `stop` is resumed before the worker that the put has woken.
  unfoldable pub stop_workers : System F → System F
  stop_workers s =
      if s.client.stopping && (no_busy s.workers && no_pending s.timers)
      then record s { workers = cancel_workers s.workers }
      else s

  -- Behind the ends of the workers: `await self._session.close()` and `self._session = None`.
  unfoldable pub close_session : System F → System F
  close_session s =
      if s.client.stopping && all_ended s.workers
      then record s { client = record (s.client) { has_session = false } }
      else s

  -- Behind the session: `await self._storage.close()`.
  unfoldable pub close_database : System F → System F
  close_database s =
      if s.client.has_session
      then s
      else record s { client = record (s.client) { storage = close_storage s.client.storage } }

module _ {F : Type 0} ⦃o : Float F⦄ (w : World F) where
  abbrev with_caller : System F → Client F × Caller F → System F
  with_caller s (c, x) = record s { client = c; callers = s.callers ++ x ∷ [] }

  abbrev pub resume_caller : F → ℕ → Option (Caller F) → System F → System F
  resume_caller wall i none s = s
  resume_caller wall i (some x) s =
      let (c, x') = caller_step w wall x s.client in
      record s { client = c; callers = set s.callers i x' }

  abbrev pub resume_worker : Input F → ℕ → Option (Worker F) → System F → System F
  resume_worker input i none s = s
  resume_worker input i (some x) s =
      let (c, x', timers) = run_step w input x s.client in
      record s { client = c; workers = set s.workers i x'; timers = s.timers ++ timers }

  abbrev pub resume_timer : ℕ → Option (Timer F) → System F → System F
  resume_timer i none s = s
  resume_timer i (some x) s =
      let (c, x') = timer_step x s.client in record s { client = c; timers = set s.timers i x' }

  unfoldable pub step : System F → Event F → System F
  step s (requests request_id created_at method url params headers body priority) =
      with_caller s
        (submit w request_id created_at method url params headers body priority s.client)
  step s (caller_runs i wall) = resume_caller wall i (get_elem? s.callers i) s
  step s (worker_runs i input) = resume_worker input i (get_elem? s.workers i) s
  step s (timer_runs i) = resume_timer i (get_elem? s.timers i) s
  step s stop_begins =
      let c = s.client in
      if c.has_session then record s { client = record c { stopping = true } } else s
  step s stop_cancels = stop_workers s
  step s session_closes = close_session s
  step s storage_closes = close_database s

  unfoldable pub run : System F → List (Event F) → System F
  run s [] = s
  run s (e ∷ es) = run (step s e) es
