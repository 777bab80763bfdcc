-- ===== src/Client/System/Puts.antt =====
-- The steps of callers and reschedules for a ledger: what they put on the queue was theirs before.
use python_async_api_barebon.Base.{
  if◌then◌else◌, subst, arith, ⊤, String, ◌+◌, Bool, Option, ◌≡◌, ℕ, true, false, [], ◌∷◌, refl,
  none, some,
}
use python_async_api_barebon.Base.Float.{Float}
use python_async_api_barebon.Base.Sums.{total-append, total}
use python_async_api_barebon.Client.State.{
  Caller, Timer, Client, World, persists, enqueues, awaits, refused, abandons, sleeping, putting,
  done, dropped,
}
use python_async_api_barebon.Client.System.Ledger.{queued, Weights}
use python_async_api_barebon.Client.Tasks.{
  persisted, started, joined_or_owner, timer_put, put_or_wait, fresh_item, caller_step, submit,
  timer_step,
}
use python_async_api_barebon.Dedup.{InFlightRegistry}
use python_async_api_barebon.Errors.{PyError}
use python_async_api_barebon.Exec.{Result, ok, err}
use python_async_api_barebon.Models.{Value, Fields, Response, Request}
use python_async_api_barebon.Queue.{RequestQueue, QueueItem, enqueue}
use python_async_api_barebon.Storage.{Storage, status_pending, upsert_inflight}

module _ {F : Type 0} (v : Weights F) where
  pub queued-enqueue :
      (item : QueueItem F) (q q' : RequestQueue F)
      → enqueue item q ≡ some q'
      → total v.of_item q'.items ≡ total v.of_item q.items + v.of_item item
  unfolding enqueue
  queued-enqueue item q q' e = ground (arith, total-append v.of_item q.items (item ∷ []))

module _ {F : Type 0} ⦃o : Float F⦄ (w : World F) (v : Weights F) (Inv : ℕ → Client F → Type 0)
    (Cap : ℕ → Type 0) where
  -- The ledger behind the write of a request's row: with its item if the write returned.
  abbrev pub Upserted : ℕ → Request F → Client F → Result F ⊤ × Storage F → Type 0
  Upserted n req c (err e, s) = Inv (n + queued v c) (record c { storage = s })
  Upserted n req c (ok x, s) =
      Cap (n + v.of_item (fresh_item req) + queued v c)
      → Inv (n + v.of_item (fresh_item req) + queued v c) (started (record c { storage = s }))

  pub record Tasks : Type 0 where
    -- the ledger reads neither the registry nor the queue
    pub dedup_free :
        (n : ℕ) (c : Client F) (g : InFlightRegistry F (Response F))
        → Inv n c
        → Inv n (record c { dedup = g })
    pub queue_free :
        (n : ℕ) (c : Client F) (q : RequestQueue F) → Inv n c → Inv n (record c { queue = q })
    pub at_persists : (req : Request F) (id : ℕ) → v.of_caller (persists req id) ≡ 0
    pub at_awaits : (id : ℕ) → v.of_caller (awaits id) ≡ 0
    pub at_refused : (e : PyError F) → v.of_caller (refused e) ≡ 0
    pub at_abandons : (req : Request F) (e : PyError F) → v.of_caller (abandons req e) ≡ 0
    pub at_enqueues :
        (req : Request F) (id : ℕ) → v.of_caller (enqueues req id) ≡ v.of_item (fresh_item req)
    pub at_sleeping :
        (item : QueueItem F) (delay : F) → v.of_timer (sleeping item delay) ≡ v.of_item item
    pub at_putting : (item : QueueItem F) → v.of_timer (putting item) ≡ v.of_item item
    pub at_dropped : (item : QueueItem F) → v.of_timer (dropped item) ≡ v.of_item item
    pub at_done : v.of_timer done ≡ 0
    pub upserts :
        (n : ℕ) (wall : F) (req : Request F) (c : Client F)
        → Inv (n + queued v c) c
        → Upserted n req c (upsert_inflight w.platform wall req status_pending 0 none c.storage)

  module _ (tasks : Tasks) where
    joined_or_owner-Inv :
        (n : ℕ) (req : Request F) (id : ℕ) (owner : Bool) (g : InFlightRegistry F (Response F))
        (c : Client F)
        → Inv (n + queued v c) c
        → let (c', x) = joined_or_owner w req (id, owner, g) c in
          Inv (n + v.of_caller x + queued v c') c'
    joined_or_owner-Inv n req id true g c inv =
        subst (λ a. Inv a (record c { dedup = g })) (omega (arith, tasks.at_persists req id))
          (tasks.dedup_free _ c g inv)
    joined_or_owner-Inv n req id false g c inv =
        subst (λ a. Inv a (record c { dedup = g })) (omega (arith, tasks.at_awaits id))
          (tasks.dedup_free _ c g inv)

    asked-Inv :
        (n : ℕ) (has_session : Bool) (req : Request F) (e : PyError F)
        (answer : ℕ × Bool × InFlightRegistry F (Response F)) (c : Client F)
        → Inv (n + queued v c) c
        → let (c', x) = if has_session then joined_or_owner w req answer c else (c, refused e) in
          Inv (n + v.of_caller x + queued v c') c'
    asked-Inv n true req e (id, owner, g) c inv = joined_or_owner-Inv n req id owner g c inv
    asked-Inv n false req e answer c inv =
        subst (λ a. Inv a c) (omega (arith, tasks.at_refused e)) inv

    pub submits :
        (n : ℕ) (id : String) (at : F) (m url : String) (ps hs : Fields F) (b : Value F) (p : ℕ)
        (c : Client F)
        → Inv (n + queued v c) c
        → let (c', x) = submit w id at m url ps hs b p c in Inv (n + v.of_caller x + queued v c') c'
    unfolding submit
    submits n id at m url ps hs b p c inv = asked-Inv n c.has_session _ _ _ c inv

    put_or_wait-Inv :
        (n : ℕ) (req : Request F) (id : ℕ) (found : Option (RequestQueue F)) (c : Client F)
        → enqueue (fresh_item req) c.queue ≡ found
        → Inv (n + v.of_item (fresh_item req) + queued v c) c
        → let (c', x) = put_or_wait req id found c in Inv (n + v.of_caller x + queued v c') c'
    put_or_wait-Inv n req id none c e inv =
        subst (λ a. Inv a c) (omega (arith, tasks.at_enqueues req id)) inv
    put_or_wait-Inv n req id (some q) c e inv =
        let put = queued-enqueue v (fresh_item req) c.queue q e in
        subst (λ a. Inv a (record c { queue = q })) (omega (arith, put, tasks.at_awaits id))
          (tasks.queue_free _ c q inv)

    put_or_wait-weight :
        (n : ℕ) (req : Request F) (id : ℕ) (found : Option (RequestQueue F)) (c : Client F)
        → enqueue (fresh_item req) c.queue ≡ found
        → let (c', x) = put_or_wait req id found c in
          n + v.of_caller x + queued v c' ≡ n + v.of_item (fresh_item req) + queued v c
    put_or_wait-weight n req id none c e = omega (arith, tasks.at_enqueues req id)
    put_or_wait-weight n req id (some q) c e =
        omega (arith, queued-enqueue v (fresh_item req) c.queue q e, tasks.at_awaits id)

    persisted-Inv :
        (n : ℕ) (req : Request F) (id : ℕ) (r : Result F ⊤ × Storage F) (c : Client F)
        → Upserted n req c r
        → let (c', x) = persisted req id r c in
          Cap (n + v.of_caller x + queued v c') → Inv (n + v.of_caller x + queued v c') c'
    persisted-Inv n req id (err e, s) c inv cap =
        subst (λ a. Inv a (record c { storage = s })) (omega (arith, tasks.at_abandons req e)) inv
    persisted-Inv n req id (ok x, s) c inv cap =
        let d = started (record c { storage = s }) in
        let found = enqueue (fresh_item req) c.queue in
        put_or_wait-Inv n req id found d refl
          (inv (subst Cap (put_or_wait-weight n req id found d refl) cap))

    pub calls :
        (n : ℕ) (wall : F) (x : Caller F) (c : Client F)
        → Inv (n + v.of_caller x + queued v c) c
        → let (c', x') = caller_step w wall x c in
          Cap (n + v.of_caller x' + queued v c') → Inv (n + v.of_caller x' + queued v c') c'
    unfolding caller_step
    calls n wall (persists req id) c inv cap =
        persisted-Inv n req id _ c
          (tasks.upserts n wall req c
            (subst (λ a. Inv a c) (omega (arith, tasks.at_persists req id)) inv))
          cap
    calls n wall (enqueues req id) c inv cap =
        put_or_wait-Inv n req id _ c refl
          (subst (λ a. Inv a c) (omega (arith, tasks.at_enqueues req id)) inv)
    calls n wall (awaits id) c inv cap = inv
    calls n wall (refused e) c inv cap = inv
    calls n wall (abandons req e) c inv cap = inv

    timer_put-Inv :
        (n : ℕ) (item : QueueItem F) (found : Option (RequestQueue F)) (c : Client F)
        → enqueue item c.queue ≡ found
        → Inv (n + v.of_item item + queued v c) c
        → let (c', x) = timer_put item found c in Inv (n + v.of_timer x + queued v c') c'
    timer_put-Inv n item none c e inv =
        subst (λ a. Inv a c) (omega (arith, tasks.at_putting item)) inv
    timer_put-Inv n item (some q) c e inv =
        let put = queued-enqueue v item c.queue q e in
        subst (λ a. Inv a (record c { queue = q })) (omega (arith, put, tasks.at_done))
          (tasks.queue_free _ c q inv)

    woken-Inv :
        (n : ℕ) (item : QueueItem F) (stopping : Bool) (c : Client F)
        → Inv (n + v.of_item item + queued v c) c
        → let (c', x) =
            if stopping then (c, dropped item) else timer_put item (enqueue item c.queue) c in
          Inv (n + v.of_timer x + queued v c') c'
    woken-Inv n item true c inv = subst (λ a. Inv a c) (omega (arith, tasks.at_dropped item)) inv
    woken-Inv n item false c inv = timer_put-Inv n item _ c refl inv

    pub wakes :
        (n : ℕ) (x : Timer F) (c : Client F)
        → Inv (n + v.of_timer x + queued v c) c
        → let (c', x') = timer_step x c in Inv (n + v.of_timer x' + queued v c') c'
    unfolding timer_step
    wakes n (sleeping item delay) c inv =
        woken-Inv n item c.stopping c
          (subst (λ a. Inv a c) (omega (arith, tasks.at_sleeping item delay)) inv)
    wakes n (putting item) c inv =
        timer_put-Inv n item _ c refl
          (subst (λ a. Inv a c) (omega (arith, tasks.at_putting item)) inv)
    wakes n done c inv = inv
    wakes n (dropped item) c inv = inv
