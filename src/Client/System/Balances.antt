-- ===== src/Client/System/Balances.antt =====
-- What the steps of callers, reschedules and `stop` do to the work of one key.
use python_async_api_barebon.Base.{
  ℕ, ◌+◌, ⊤, String, Bool, true, false, none, some, List, [], ◌∷◌, ◌≡◌, refl, arith, if◌then◌else◌,
  Option-cases, inl, inr,
}
use python_async_api_barebon.Base.Lists.{length, length-append}
use python_async_api_barebon.Base.Sums.{total, total-append}
use python_async_api_barebon.Client.State.{
  Client, World, Worker, Timer, Caller, persists, enqueues, awaits, refused, abandons, sleeping,
  putting, done, dropped, idle, died, gone,
}
use python_async_api_barebon.Client.System.Carriers.{
  busy, of_key, item_weight, caller_weight, worker_weight, timer_weight,
}
use python_async_api_barebon.Client.System.Defs.{no_busy, cancel_workers}
use python_async_api_barebon.Client.Tasks.{
  caller_step, timer_step, persisted, put_or_wait, fresh_item, timer_put,
}
use python_async_api_barebon.Exec.{Result, ok, err}
use python_async_api_barebon.Models.{Request}
use python_async_api_barebon.Queue.{QueueItem, RequestQueue, enqueue}
use python_async_api_barebon.Storage.{upsert_inflight, status_pending, Storage}

module _ {F : Type 0} where
  pub no_busy-total : (xs : List (Worker F)) → no_busy xs ≡ true → total busy xs ≡ 0
  unfolding no_busy
  no_busy-total [] h = refl
  no_busy-total (idle ∷ xs) h = omega (arith, no_busy-total xs h)
  no_busy-total (gone ∷ xs) h = omega (arith, no_busy-total xs h)
  no_busy-total (died item e ∷ xs) h = omega (arith, no_busy-total xs h)
  no_busy-total (_ ∷ xs) h = cc

module _ {F : Type 0} (w : World F) (k : String) where
  -- A put changes the queue by its item, or leaves it alone.
  pub put-total :
      (item : QueueItem F) (q q' : RequestQueue F)
      → enqueue item q ≡ some q'
      → (total (item_weight w.platform k) q'.items
          ≡ total (item_weight w.platform k) q.items + item_weight w.platform k item)
        × (q'.unfinished + length q.items ≡ q.unfinished + length q'.items)
  unfolding enqueue
  put-total item q q' e = ground (
    arith,
    total-append (item_weight w.platform k) q.items (item ∷ []),
    length-append q.items (item ∷ []),
  )

  -- The work that a caller and the queue carry.
  abbrev pub CallerBalanced : Caller F → Client F → Client F × Caller F → Type 0
  CallerBalanced x c (c', x') =
      (caller_weight w.platform k x' + total (item_weight w.platform k) c'.queue.items
        ≡ caller_weight w.platform k x + total (item_weight w.platform k) c.queue.items)
      × (c'.queue.unfinished + length c.queue.items ≡ c.queue.unfinished + length c'.queue.items)
      × (c'.dedup ≡ c.dedup)

  pub put_or_wait-balanced :
      (req : Request F) (id : ℕ) (x : Caller F) (c d : Client F)
      → caller_weight w.platform k x ≡ of_key w.platform k req
      → d.queue ≡ c.queue
      → d.dedup ≡ c.dedup
      → CallerBalanced x c (put_or_wait req id (enqueue (fresh_item req) c.queue) d)
  put_or_wait-balanced req id x c d h q g = elim (Option-cases (enqueue (fresh_item req) c.queue)) [
    | inl e ↦ ground arith
    | inr (q', e) ↦ ground (arith, put-total (fresh_item req) c.queue q' e)
  ]

  persisted-balanced :
      (req : Request F) (id : ℕ) (r : Result F ⊤ × Storage F) (c : Client F)
      → CallerBalanced (persists req id) c (persisted req id r c)
  persisted-balanced req id (ok x, s) c =
      put_or_wait-balanced req id (persists req id) c _ refl refl refl
  persisted-balanced req id (err e, s) c = (refl, refl, refl)

  pub caller_step-balanced :
      (wall : F) (x : Caller F) (c : Client F) → CallerBalanced x c (caller_step w wall x c)
  unfolding caller_step
  caller_step-balanced wall (persists req id) c =
      persisted-balanced req id
        (upsert_inflight w.platform wall req status_pending 0 none c.storage) c
  caller_step-balanced wall (enqueues req id) c =
      put_or_wait-balanced req id (enqueues req id) c c refl refl refl
  caller_step-balanced wall (awaits id) c = (refl, refl, refl)
  caller_step-balanced wall (refused e) c = (refl, refl, refl)
  caller_step-balanced wall (abandons req e) c = (refl, refl, refl)

  abbrev pub TimerBalanced : Timer F → Client F → Client F × Timer F → Type 0
  TimerBalanced x c (c', x') =
      (timer_weight w.platform k x' + total (item_weight w.platform k) c'.queue.items
        ≡ timer_weight w.platform k x + total (item_weight w.platform k) c.queue.items)
      × (c'.queue.unfinished + length c.queue.items ≡ c.queue.unfinished + length c'.queue.items)
      × (c'.dedup ≡ c.dedup)

  timer_put-balanced :
      (item : QueueItem F) (x : Timer F) (c : Client F)
      → timer_weight w.platform k x ≡ item_weight w.platform k item
      → TimerBalanced x c (timer_put item (enqueue item c.queue) c)
  timer_put-balanced item x c h = elim (Option-cases (enqueue item c.queue)) [
    | inl e ↦ ground arith
    | inr (q', e) ↦ ground (arith, put-total item c.queue q' e)
  ]

  woken-balanced :
      (item : QueueItem F) (delay : F) (stopping : Bool) (c : Client F)
      → TimerBalanced
          (sleeping item delay)
          c
          (if stopping then (c, dropped item) else timer_put item (enqueue item c.queue) c)
  woken-balanced item delay true c = (refl, refl, refl)
  woken-balanced item delay false c = timer_put-balanced item (sleeping item delay) c refl

  pub timer_step-balanced : (x : Timer F) (c : Client F) → TimerBalanced x c (timer_step x c)
  unfolding timer_step
  timer_step-balanced (sleeping item delay) c = woken-balanced item delay c.stopping c
  timer_step-balanced (putting item) c = timer_put-balanced item (putting item) c refl
  timer_step-balanced done c = (refl, refl, refl)
  timer_step-balanced (dropped item) c = (refl, refl, refl)

  pub cancel_workers-balanced :
      (xs : List (Worker F))
      → total busy xs ≡ 0
      → (total (worker_weight w.platform k) (cancel_workers xs)
          ≡ total (worker_weight w.platform k) xs)
        × (total busy (cancel_workers xs) ≡ 0)
  unfolding cancel_workers
  cancel_workers-balanced [] h = (refl, refl)
  cancel_workers-balanced (idle ∷ xs) h = ground (arith, cancel_workers-balanced xs)
  cancel_workers-balanced (gone ∷ xs) h = ground (arith, cancel_workers-balanced xs)
  cancel_workers-balanced (died item e ∷ xs) h = ground (arith, cancel_workers-balanced xs)
  cancel_workers-balanced (x ∷ xs) h = absurd (omega arith)
