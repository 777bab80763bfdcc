-- ===== src/Client/System/Stages.antt =====
-- A worker's steps for a ledger: the segments are one case, and each write to the storage is one.
use python_async_api_barebon.Base.{refl, arith, [], subst, ◌∷◌, List, ◌+◌, ◌≡◌, ℕ}
use python_async_api_barebon.Base.Float.{Float}
use python_async_api_barebon.Base.Sums.{total}
use python_async_api_barebon.Client.Execute.{execute}
use python_async_api_barebon.Client.State.{
  gone, died, hooks, deletes_done, deletes_failed, pushes_letter, records_retry, executes, waits,
  Worker, idle, Client, World,
}
use python_async_api_barebon.Client.System.Ledger.{queued, Weights}
use python_async_api_barebon.Client.System.Segments.{
  executed-Ends, acquire_round-Ends, begin-Ends, Ends,
}
use python_async_api_barebon.Client.Worker.Gate.{begin, Outcome}
use python_async_api_barebon.Client.Worker.Settle.{run_step, Input, dequeued}
use python_async_api_barebon.Errors.{PyError}
use python_async_api_barebon.Models.{Response}
use python_async_api_barebon.Queue.{RequestQueue, QueueItem, dequeue}

module _ {F : Type 0} ⦃o : Float F⦄ (w : World F) (v : Weights F)
    (Inv : ℕ → Client F → Type 0) where
  -- The ledger behind a worker's step, with `n` for the rest of the system.
  abbrev pub After : ℕ → Outcome F → Type 0
  After n (c, x, ts) = Inv (n + v.of_worker x + total v.of_timer ts + queued v c) c

  abbrev pub Before : ℕ → Worker F → Client F → Type 0
  Before n x c = Inv (n + v.of_worker x + queued v c) c

  pub record Stages : Type 0 where
    -- the ledger does not read the queue
    pub queue_free :
        (n : ℕ) (c : Client F) (q : RequestQueue F) → Inv n c → Inv n (record c { queue = q })
    pub at_idle : v.of_worker idle ≡ 0
    pub at_waits :
        (item : QueueItem F) (id : ℕ) (delay : F)
        → v.of_worker (waits item id delay) ≡ v.of_item item
    pub at_executes : (item : QueueItem F) → v.of_worker (executes item) ≡ v.of_item item
    pub segment :
        (n : ℕ) (item : QueueItem F) (c : Client F) (out : Outcome F)
        → Ends w item c out
        → Inv (n + v.of_item item + queued v c) c
        → After n out
    pub records :
        (n : ℕ) (i : Input F) (item : QueueItem F) (e : PyError F) (delay : F) (c : Client F)
        → Before n (records_retry item e delay) c
        → After n (run_step w i (records_retry item e delay) c)
    pub pushes :
        (n : ℕ) (i : Input F) (item : QueueItem F) (e : PyError F) (c : Client F)
        → Before n (pushes_letter item e) c
        → After n (run_step w i (pushes_letter item e) c)
    pub gives_up :
        (n : ℕ) (i : Input F) (item : QueueItem F) (e : PyError F) (c : Client F)
        → Before n (deletes_failed item e) c
        → After n (run_step w i (deletes_failed item e) c)
    pub clears :
        (n : ℕ) (i : Input F) (item : QueueItem F) (r : Response F) (c : Client F)
        → Before n (deletes_done item r) c
        → After n (run_step w i (deletes_done item r) c)
    pub answers :
        (n : ℕ) (i : Input F) (item : QueueItem F) (r : Response F) (c : Client F)
        → Before n (hooks item r) c
        → After n (run_step w i (hooks item r) c)

  module _ (stages : Stages) where
    first_begins :
        (n : ℕ) (now : F) (item : QueueItem F) (items : List (QueueItem F)) (c : Client F)
        → Inv (n + (v.of_item item + total v.of_item items)) c
        → let q = c.queue in
          After n (begin w now item (record c { queue = record q { items = items } }))
    first_begins n now item items c inv =
        let q = c.queue in
        let d = record c { queue = record q { items = items } } in
        stages.segment n item d _ (begin-Ends w now item d)
          (stages.queue_free _ c _ (subst (λ a. Inv a c) (omega arith) inv))

    dequeued-After :
        (n : ℕ) (now : F) (items : List (QueueItem F)) (c : Client F)
        → c.queue.items ≡ items
        → Inv (n + total v.of_item items) c
        → After n (dequeued w now (dequeue c.queue) c)
    unfolding dequeue
    dequeued-After n now [] c e inv =
        rw e (stages.queue_free _ c _ (subst (λ a. Inv a c) (omega (arith, stages.at_idle)) inv))
    dequeued-After n now (item ∷ items) c e inv = rw e (first_begins n now item items c inv)

    unmoved : (n : ℕ) (x : Worker F) (c : Client F) → Before n x c → After n (c, x, [])
    unmoved n x c inv = subst (λ a. Inv a c) (omega arith) inv

    pub works :
        (n : ℕ) (i : Input F) (x : Worker F) (c : Client F)
        → Before n x c
        → After n (run_step w i x c)
    unfolding run_step
    works n i idle c inv =
        dequeued-After n i.now c.queue.items c refl
          (subst (λ a. Inv a c) (omega (arith, stages.at_idle)) inv)
    works n i (waits item id delay) c inv =
        stages.segment n item c _ (acquire_round-Ends w i.now item id delay c)
          (subst (λ a. Inv a c) (omega (arith, stages.at_waits item id delay)) inv)
    works n i (executes item) c inv =
        stages.segment n item c _
          (executed-Ends w i.now item (execute w item.request item.attempt i.reply) c)
          (subst (λ a. Inv a c) (omega (arith, stages.at_executes item)) inv)
    works n i (records_retry item e delay) c inv = stages.records n i item e delay c inv
    works n i (pushes_letter item e) c inv = stages.pushes n i item e c inv
    works n i (deletes_failed item e) c inv = stages.gives_up n i item e c inv
    works n i (deletes_done item r) c inv = stages.clears n i item r c inv
    works n i (hooks item r) c inv = stages.answers n i item r c inv
    works n i (died item e) c inv = unmoved n (died item e) c inv
    works n i gone c inv = unmoved n gone c inv
