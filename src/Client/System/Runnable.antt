-- ===== src/Client/System/Runnable.antt =====
-- Which tasks can run, and that whoever carries a key's work can, or waits for one that can.
use python_async_api_barebon.Base.{
  inl, leb, Bool-cases, eq_iff, ◌⊎◌, arith, ◌≤◌, ◌≡◌, some, true, false, [], ◌∷◌, refl, inr, List,
  ℕ, String,
}
use python_async_api_barebon.Base.Lists.{get_elem?}
use python_async_api_barebon.Base.Sums.{total-some, total}
use python_async_api_barebon.Client.State.{
  awaits, done, Caller, Timer, Worker, idle, died, gone, sleeping, putting, dropped, persists,
  enqueues, refused, abandons,
}
use python_async_api_barebon.Client.System.Carriers.{
  caller_weight, item_weight, timer_weight, carriers, of_key, worker_weight, busy,
}
use python_async_api_barebon.Client.System.Defs.{System}
use python_async_api_barebon.Client.System.Stuck.{IsStuck, by_caller, by_worker, by_timer}
use python_async_api_barebon.Models.{idempotency_key, Platform, Request}
use python_async_api_barebon.Queue.{is_full, QueueItem}

module _ {F : Type 0} where
  -- A task that can be resumed: it waits for a write, for a reply or for time, or what it waits for
  -- is there, room in the queue or an item.
  pub data CanRun (s : System F) : Type 0 where
    writes :
        (i : ℕ) (req : Request F) (id : ℕ)
        → get_elem? s.callers i ≡ some (persists req id)
        → CanRun s
    puts :
        (i : ℕ) (req : Request F) (id : ℕ)
        → get_elem? s.callers i ≡ some (enqueues req id)
        → is_full s.client.queue ≡ false
        → CanRun s
    takes :
        (i : ℕ) (item : QueueItem F) (items : List (QueueItem F))
        → get_elem? s.workers i ≡ some idle
        → s.client.queue.items ≡ item ∷ items
        → CanRun s
    goes_on : (i : ℕ) (x : Worker F) → get_elem? s.workers i ≡ some x → busy x ≡ 1 → CanRun s
    wakes :
        (i : ℕ) (item : QueueItem F) (delay : F)
        → get_elem? s.timers i ≡ some (sleeping item delay)
        → CanRun s
    puts_back :
        (i : ℕ) (item : QueueItem F)
        → get_elem? s.timers i ≡ some (putting item)
        → is_full s.client.queue ≡ false
        → CanRun s

  -- 1 for a worker that neither an exception nor the stop has ended.
  abbrev pub alive : Worker F → ℕ
  alive (died item e) = 0
  alive gone = 0
  alive _ = 1

  -- A worker that is alive serves a queue that is not empty.
  serves :
      (s : System F) (i : ℕ) (x : Worker F) (item : QueueItem F) (items : List (QueueItem F))
      → get_elem? s.workers i ≡ some x
      → 1 ≤ alive x
      → s.client.queue.items ≡ item ∷ items
      → CanRun s
  serves s i idle item items e h q = takes i item items e q
  serves s i (died x y) item items e h q = absurd (omega arith)
  serves s i gone item items e h q = absurd (omega arith)
  serves s i x item items e h q = goes_on i x e refl

  -- A queue is full only with items, which the worker serves.
  full_serves :
      (s : System F) (i : ℕ) (x : Worker F) (items : List (QueueItem F))
      → s.client.queue.items ≡ items
      → get_elem? s.workers i ≡ some x
      → 1 ≤ alive x
      → 1 ≤ s.client.queue.max_size
      → is_full s.client.queue ≡ true
      → CanRun s
  unfolding is_full
  full_serves s i x [] q e h room full = absurd (ground (arith, q))
  full_serves s i x (item ∷ items) q e h room full = serves s i x item items e h q

module _ {F : Type 0} (p : Platform F) (k : String) where
  of_key_some : (req : Request F) → 1 ≤ of_key p k req → idempotency_key p req ≡ k
  of_key_some req h = ground (arith, eq_iff (idempotency_key p req) k)

  module _ (s : System F) (j : ℕ) (y : Worker F) (found : get_elem? s.workers j ≡ some y)
      (lives : 1 ≤ alive y) (room : 1 ≤ s.client.queue.max_size) where
    caller-CanRun :
        (i : ℕ) (x : Caller F)
        → get_elem? s.callers i ≡ some x
        → 1 ≤ caller_weight p k x
        → IsStuck p k s ⊎ CanRun s
    caller-CanRun i (persists req id) e h = inr (writes i req id e)
    caller-CanRun i (enqueues req id) e h = elim (Bool-cases (is_full s.client.queue)) [
      | inl full ↦ inr (full_serves s j y s.client.queue.items refl found lives room full)
      | inr free ↦ inr (puts i req id e free)
    ]
    caller-CanRun i (abandons req x) e h = inl (by_caller i req x e (of_key_some req h))
    caller-CanRun i (awaits id) e h = absurd (omega arith)
    caller-CanRun i (refused x) e h = absurd (omega arith)

    worker-CanRun :
        (i : ℕ) (x : Worker F)
        → get_elem? s.workers i ≡ some x
        → 1 ≤ worker_weight p k x
        → IsStuck p k s ⊎ CanRun s
    worker-CanRun i (died item x) e h = inl (by_worker i item x e (of_key_some item.request h))
    worker-CanRun i idle e h = absurd (omega arith)
    worker-CanRun i gone e h = absurd (omega arith)
    worker-CanRun i x e h = inr (goes_on i x e refl)

    timer-CanRun :
        (i : ℕ) (x : Timer F)
        → get_elem? s.timers i ≡ some x
        → 1 ≤ timer_weight p k x
        → IsStuck p k s ⊎ CanRun s
    timer-CanRun i (sleeping item delay) e h = inr (wakes i item delay e)
    timer-CanRun i (putting item) e h = elim (Bool-cases (is_full s.client.queue)) [
      | inl full ↦ inr (full_serves s j y s.client.queue.items refl found lives room full)
      | inr free ↦ inr (puts_back i item e free)
    ]
    timer-CanRun i (dropped item) e h = inl (by_timer i item e (of_key_some item.request h))
    timer-CanRun i done e h = absurd (omega arith)

    items-CanRun :
        (items : List (QueueItem F))
        → s.client.queue.items ≡ items
        → 1 ≤ total (item_weight p k) items
        → CanRun s
    items-CanRun [] q h = absurd (omega arith)
    items-CanRun (item ∷ items) q h = serves s j y item items found lives q

    -- Whoever carries the work of the key.
    pub carried-CanRun : 1 ≤ carriers p k s → IsStuck p k s ⊎ CanRun s
    unfolding carriers
    carried-CanRun h = elim (Bool-cases (leb 1 (total (caller_weight p k) s.callers))) [
      | inl a ↦
          let (i, x, e, counts) = total-some (caller_weight p k) s.callers (ground (arith, a)) in
          caller-CanRun i x e counts
      | inr a ↦ elim (Bool-cases (leb 1 (total (worker_weight p k) s.workers))) [
        | inl b ↦
            let (i, x, e, counts) = total-some (worker_weight p k) s.workers (ground (arith, b)) in
            worker-CanRun i x e counts
        | inr b ↦ elim (Bool-cases (leb 1 (total (timer_weight p k) s.timers))) [
          | inl c ↦
              let (i, x, e, counts) = total-some (timer_weight p k) s.timers (ground (arith, c)) in
              timer-CanRun i x e counts
          | inr c ↦ inr (items-CanRun s.client.queue.items refl (ground (arith, a, b, c, h)))
        ]
      ]
    ]
