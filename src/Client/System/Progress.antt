-- ===== src/Client/System/Progress.antt =====
-- async_hardened_client/client.py: no cyclic wait, where a worker is alive.
use python_async_api_barebon.Base.{
  ap, ◌∙◌, none, Option, Option-cases, inl, ⊤, ◌≢◌, Bool-cases, ◌⊎◌, arith, ◌≤◌, ◌≡◌, some, ◌∷◌,
  inr, List, ℕ, String,
}
use python_async_api_barebon.Base.Float.{Float}
use python_async_api_barebon.Base.Lists.{get_elem?_lt, get_elem?-set_self, set, get_elem?}
use python_async_api_barebon.Client.State.{
  Client, awaits, done, World, Worker, idle, sleeping, putting, persists, enqueues,
}
use python_async_api_barebon.Client.System.Carriers.{in_flight}
use python_async_api_barebon.Client.System.Covered.{IsCovered}
use python_async_api_barebon.Client.System.Defs.{step, timer_runs, worker_runs, caller_runs, System}
use python_async_api_barebon.Client.System.Interrupted.{run_moves-IsCovered}
use python_async_api_barebon.Client.System.Moves.{run_moves, Move}
use python_async_api_barebon.Client.System.Runnable.{
  writes, puts, takes, goes_on, wakes, puts_back, CanRun, alive, carried-CanRun,
}
use python_async_api_barebon.Client.System.Segments.{begin-Ends}
use python_async_api_barebon.Client.System.Stuck.{IsStuck}
use python_async_api_barebon.Client.Tasks.{
  started, fresh_item, persisted, put_or_wait, timer_step, caller_step,
}
use python_async_api_barebon.Client.Worker.Settle.{run_step, Input}
use python_async_api_barebon.Exec.{Result, err, ok}
use python_async_api_barebon.Models.{Request}
use python_async_api_barebon.Queue.{RequestQueue, dequeue, enqueue, QueueItem}
use python_async_api_barebon.Storage.{Storage, status_pending, upsert_inflight}

module _ {F : Type 0} ⦃o : Float F⦄ (w : World F) where
  -- What the resumption of such a task does: a caller or a reschedule leaves where it stands, and a
  -- worker that takes an item takes it off the queue.
  abbrev pub Advances : (s : System F) → CanRun s → Type 0
  Advances s (writes i req id e) =
      (wall : F) → get_elem? (step w s (caller_runs i wall)).callers i ≢ some (persists req id)
  Advances s (puts i req id e free) =
      (wall : F) → get_elem? (step w s (caller_runs i wall)).callers i ≡ some (awaits id)
  Advances s (takes i item items e q) =
      (input : Input F) → (step w s (worker_runs i input)).client.queue.items ≡ items
  Advances s (goes_on i x e b) = ⊤
  Advances s (wakes i item delay e) =
      get_elem? (step w s (timer_runs i)).timers i ≢ some (sleeping item delay)
  Advances s (puts_back i item e free) = get_elem? (step w s (timer_runs i)).timers i ≡ some done

  placed :
      {A : Type 0} (xs : List A) (i : ℕ) (x y : A)
      → get_elem? xs i ≡ some x
      → get_elem? (set xs i y) i ≡ some y
  placed xs i x y e = get_elem?-set_self xs i y (get_elem?_lt xs i x e)

  put_leaves :
      (req : Request F) (id : ℕ) (found : Option (RequestQueue F)) (c : Client F)
      → (put_or_wait req id found c).1 ≢ persists req id
  put_leaves req id none c = λ h. cc
  put_leaves req id (some q) c = λ h. cc

  persisted_leaves :
      (req : Request F) (id : ℕ) (r : Result F ⊤ × Storage F) (c : Client F)
      → (persisted req id r c).1 ≢ persists req id
  persisted_leaves req id (err e, s) c = λ h. cc
  persisted_leaves req id (ok x, s) c =
      put_leaves req id (enqueue (fresh_item req) c.queue) (started (record c { storage = s }))

  wakes_leaves :
      (item : QueueItem F) (delay : F) (c : Client F)
      → (timer_step (sleeping item delay) c).1 ≢ sleeping item delay
  unfolding timer_step
  wakes_leaves item delay c = elim (Bool-cases c.stopping) [
    | inl h ↦ λ e. ground (arith, h, e)
    | inr h ↦ elim (Option-cases (enqueue item c.queue)) [
      | inl f ↦ λ e. ground (arith, h, f, e)
      | inr (q, f) ↦ λ e. ground (arith, h, f, e)
    ]
  ]

  takes_first :
      (input : Input F) (item : QueueItem F) (items : List (QueueItem F)) (c : Client F)
      → c.queue.items ≡ item ∷ items
      → (run_step w input idle c).0.queue.items ≡ items
  unfolding run_step dequeue
  takes_first input item items c q =
      let old = c.queue in
      let d = record c { queue = record old { items = items } } in
      rw q (begin-Ends w input.now item d).same_items

  -- Every task that can run advances.
  CanRun-Advances : (s : System F) (r : CanRun s) → Advances s r
  unfolding step timer_step caller_step enqueue
  CanRun-Advances s (writes i req id e) = λ wall.
      let x = (caller_step w wall (persists req id) s.client).1 in
      let leaves =
        persisted_leaves req id
          (upsert_inflight w.platform wall req status_pending 0 none s.client.storage) s.client in
      let here = placed s.callers i (persists req id) x e in rw e (λ h. leaves cc)
  CanRun-Advances s (puts i req id e free) = λ wall.
      let x = (caller_step w wall (enqueues req id) s.client).1 in
      let awaited : x ≡ awaits id = ground (arith, free) in
      rw e (placed s.callers i (enqueues req id) x e ∙ ap some awaited)
  CanRun-Advances s (takes i item items e q) =
      λ input. rw e (takes_first input item items s.client q)
  CanRun-Advances s (goes_on i x e b) = tt
  CanRun-Advances s (wakes i item delay e) =
      let x = (timer_step (sleeping item delay) s.client).1 in
      let leaves = wakes_leaves item delay s.client in
      let here = placed s.timers i (sleeping item delay) x e in rw e (λ h. leaves cc)
  CanRun-Advances s (puts_back i item e free) =
      let x = (timer_step (putting item) s.client).1 in
      let ended : x ≡ done = ground (arith, free) in
      rw e (placed s.timers i (putting item) x e ∙ ap some ended)

  -- After any order of steps and cancellations from a system with a sound registry, in which each
  -- pending future has a carrier and `unfinished` counts the items in the queue and in hand: while
  -- a future is pending, a worker is alive and the queue has a size, either the work of the key was
  -- lost (by a caller whose write raised or was cut off, a worker that an exception ended, or a
  -- reschedule that was dropped), or a task can run: one that waits for a write, a reply or time
  -- only, or one that waits for room or for an item which is there. When it is resumed, a caller or
  -- a reschedule leaves where it stands, and an idle worker takes the item off the queue.
  pub no_cyclic_wait :
      (s : System F) (ms : List (Move F)) (k : String) (i : ℕ) (x : Worker F)
      → IsCovered w s
      → let t = run_moves w s ms in
        1 ≤ in_flight k t.client.dedup
        → get_elem? t.workers i ≡ some x
        → 1 ≤ alive x
        → 1 ≤ t.client.queue.max_size
        → IsStuck w.platform k t ⊎ ((r : CanRun t) × Advances t r)
  no_cyclic_wait s ms k i x inv waiting e lives room =
      let t = run_moves w s ms in
      let carried = (run_moves-IsCovered w s ms inv).covered k in
      elim (carried-CanRun w.platform k t i x e lives room (omega (arith, carried, waiting))) [
        | inl lost ↦ inl lost
        | inr r ↦ inr (r, CanRun-Advances t r)
      ]
