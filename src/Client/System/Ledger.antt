-- ===== src/Client/System/Ledger.antt =====
-- Sums over the whole system that a ledger in the client keeps up with: a rule that turns a fact
-- about one task's step into an invariant of all orders of steps.
use python_async_api_barebon.Base.{
  ◌&&◌, refl, inr, inl, Option-cases, [], true, ◌++◌, arith, false, subst, if◌then◌else◌, some, ◌∷◌,
  ◌≡◌, Bool, String, ◌+◌, List, ℕ,
}
use python_async_api_barebon.Base.Float.{Float}
use python_async_api_barebon.Base.Lists.{set, get_elem?}
use python_async_api_barebon.Base.Sums.{total-split, total-append, total}
use python_async_api_barebon.Client.State.{Timer, Worker, World, Caller, Client}
use python_async_api_barebon.Client.System.Carriers.{busy}
use python_async_api_barebon.Client.System.Defs.{
  stop_begins, stop_cancels, session_closes, storage_closes, no_busy, all_ended, stop_workers,
  close_session, close_database, no_pending, timer_runs, worker_runs, Event, caller_runs, run,
  cancel_worker, requests, cancel_workers, step, System,
}
use python_async_api_barebon.Client.System.Consistent.{resume_caller-IsConsistent, IsConsistent}
use python_async_api_barebon.Client.System.Invariant.{cancels_none_busy, step-IsConsistent}
use python_async_api_barebon.Client.Tasks.{submit, caller_step, timer_step}
use python_async_api_barebon.Client.Worker.Settle.{run_step, Input}
use python_async_api_barebon.Models.{Value, Fields}
use python_async_api_barebon.Queue.{QueueItem}
use python_async_api_barebon.Storage.{close_storage}

-- What each task and queue item counts for.
pub record Weights (F : Type 0) : Type 0 where
  pub of_caller : Caller F → ℕ
  pub of_item : QueueItem F → ℕ
  pub of_worker : Worker F → ℕ
  pub of_timer : Timer F → ℕ

module _ {F : Type 0} (v : Weights F) where
  -- What the queue counts for.
  abbrev pub queued : Client F → ℕ
  queued c = total v.of_item c.queue.items

  -- What all count for.
  unfoldable pub weigh : System F → ℕ
  weigh s =
      total v.of_caller s.callers
      + queued s.client
      + total v.of_worker s.workers
      + total v.of_timer s.timers

module _ {F : Type 0} ⦃o : Float F⦄ (w : World F) (v : Weights F)
    (Inv : ℕ → Client F → Type 0) where
  -- Each kind of step keeps the ledger, whatever the rest of the system counts for.
  pub record Keeps (Cap : ℕ → Type 0) : Type 0 where
    pub submits :
        (n : ℕ) (id : String) (at : F) (m url : String) (ps hs : Fields F) (b : Value F) (p : ℕ)
        (c : Client F)
        → Inv (n + queued v c) c
        → let (c', x) = submit w id at m url ps hs b p c in Inv (n + v.of_caller x + queued v c') c'
    pub calls :
        (n : ℕ) (wall : F) (x : Caller F) (c : Client F)
        → Inv (n + v.of_caller x + queued v c) c
        → let (c', x') = caller_step w wall x c in
          Cap (n + v.of_caller x' + queued v c') → Inv (n + v.of_caller x' + queued v c') c'
    pub works :
        (n : ℕ) (i : Input F) (x : Worker F) (c : Client F)
        → Inv (n + v.of_worker x + queued v c) c
        → let (c', x', ts) = run_step w i x c in
          Inv (n + v.of_worker x' + total v.of_timer ts + queued v c') c'
    pub wakes :
        (n : ℕ) (x : Timer F) (c : Client F)
        → Inv (n + v.of_timer x + queued v c) c
        → let (c', x') = timer_step x c in Inv (n + v.of_timer x' + queued v c') c'
    pub stops : (n : ℕ) (c : Client F) → Inv n c → Inv n (record c { stopping = true })
    pub leaves : (n : ℕ) (c : Client F) → Inv n c → Inv n (record c { has_session = false })
    pub closes :
        (n : ℕ) (c : Client F) → Inv n c → Inv n (record c { storage = close_storage c.storage })
    pub cancels : (x : Worker F) → busy x ≡ 0 → v.of_worker (cancel_worker x) ≡ v.of_worker x

  -- The ledger survives workers that are cancelled with nothing in hand.
  total-cancel_workers :
      {Cap : ℕ → Type 0} (keeps : Keeps Cap) (xs : List (Worker F))
      → total busy xs ≡ 0
      → total v.of_worker (cancel_workers xs) ≡ total v.of_worker xs
  unfolding cancel_workers
  total-cancel_workers keeps [] h = refl
  total-cancel_workers keeps (x ∷ xs) h =
      omega (arith, keeps.cancels x (omega arith), total-cancel_workers keeps xs (omega arith))

  module _ {Cap : ℕ → Type 0} (keeps : Keeps Cap) where
    calls-Kept :
        (s : System F) (i : ℕ) (wall : F) (x : Caller F)
        → get_elem? s.callers i ≡ some x
        → Inv (weigh v s) s.client
        → let (c, x') = caller_step w wall x s.client in
          let t = record s { client = c; callers = set s.callers i x' } in
          Cap (weigh v t) → Inv (weigh v t) c
    unfolding weigh
    calls-Kept s i wall x e inv =
        let (c, x') = caller_step w wall x s.client in
        let (n, old, new) = total-split v.of_caller s.callers i x x' e in
        let rest = n + total v.of_worker s.workers + total v.of_timer s.timers in
        λ cap.
          subst (λ a. Inv a c) (omega (arith, new))
            (keeps.calls rest wall x s.client (subst (λ a. Inv a s.client) (omega (arith, old)) inv)
              (subst Cap (omega (arith, new)) cap))

    works-Kept :
        (s : System F) (i : ℕ) (input : Input F) (x : Worker F)
        → get_elem? s.workers i ≡ some x
        → Inv (weigh v s) s.client
        → let (c, x', ts) = run_step w input x s.client in
          Inv
            (weigh v
              (record s { client = c; workers = set s.workers i x'; timers = s.timers ++ ts }))
            c
    unfolding weigh
    works-Kept s i input x e inv =
        let (c, x', ts) = run_step w input x s.client in
        let (n, old, new) = total-split v.of_worker s.workers i x x' e in
        let rest = n + total v.of_caller s.callers + total v.of_timer s.timers in
        subst (λ a. Inv a c) (omega (arith, new, total-append v.of_timer s.timers ts))
          (keeps.works rest input x s.client (subst (λ a. Inv a s.client) (omega (arith, old)) inv))

    wakes-Kept :
        (s : System F) (i : ℕ) (x : Timer F)
        → get_elem? s.timers i ≡ some x
        → Inv (weigh v s) s.client
        → let (c, x') = timer_step x s.client in
          Inv (weigh v (record s { client = c; timers = set s.timers i x' })) c
    unfolding weigh
    wakes-Kept s i x e inv =
        let (c, x') = timer_step x s.client in
        let (n, old, new) = total-split v.of_timer s.timers i x x' e in
        let rest = n + total v.of_caller s.callers + total v.of_worker s.workers in
        subst (λ a. Inv a c) (omega (arith, new))
          (keeps.wakes rest x s.client (subst (λ a. Inv a s.client) (omega (arith, old)) inv))

    submits-Kept :
        (s : System F) (id : String) (at : F) (m url : String) (ps hs : Fields F) (b : Value F)
        (p : ℕ)
        → Inv (weigh v s) s.client
        → let t = step w s (requests id at m url ps hs b p) in Inv (weigh v t) t.client
    unfolding weigh step
    submits-Kept s id at m url ps hs b p inv =
        let (c, x) = submit w id at m url ps hs b p s.client in
        let rest =
          total v.of_caller s.callers + total v.of_worker s.workers + total v.of_timer s.timers in
        subst (λ a. Inv a c) (omega (arith, total-append v.of_caller s.callers (x ∷ [])))
          (keeps.submits rest id at m url ps hs b p s.client
            (subst (λ a. Inv a s.client) (omega arith) inv))

    stops-Kept :
        (s : System F) (has_session : Bool)
        → Inv (weigh v s) s.client
        → let t =
            if has_session
            then record s { client = record (s.client) { stopping = true } }
            else s in
          Inv (weigh v t) t.client
    unfolding weigh
    stops-Kept s false inv = inv
    stops-Kept s true inv = keeps.stops (weigh v s) s.client inv

    cancels-Kept :
        (s : System F) (free : Bool)
        → (free ≡ true → total busy s.workers ≡ 0)
        → Inv (weigh v s) s.client
        → let t = if free then record s { workers = cancel_workers s.workers } else s in
          Inv (weigh v t) t.client
    unfolding weigh
    cancels-Kept s false none_busy inv = inv
    cancels-Kept s true none_busy inv =
        subst (λ a. Inv a s.client)
          (omega (arith, total-cancel_workers keeps s.workers (none_busy refl))) inv

    leaves-Kept :
        (s : System F) (free : Bool)
        → Inv (weigh v s) s.client
        → let t =
            if free then record s { client = record (s.client) { has_session = false } } else s in
          Inv (weigh v t) t.client
    unfolding weigh
    leaves-Kept s false inv = inv
    leaves-Kept s true inv = keeps.leaves (weigh v s) s.client inv

    closes-Kept :
        (s : System F) (has_session : Bool)
        → Inv (weigh v s) s.client
        → let t = if has_session then s else record s {
          client = record (s.client) { storage = close_storage s.client.storage };
        } in
          Inv (weigh v t) t.client
    unfolding weigh
    closes-Kept s true inv = inv
    closes-Kept s false inv = keeps.closes (weigh v s) s.client inv

    module _ (bounded : (s : System F) → IsConsistent w s → Cap (weigh v s)) where
      caller_runs-Kept :
          (s : System F) (i : ℕ) (wall : F)
          → IsConsistent w s
          → Inv (weigh v s) s.client
          → let t = step w s (caller_runs i wall) in Inv (weigh v t) t.client
      unfolding step
      caller_runs-Kept s i wall sound inv = elim (Option-cases (get_elem? s.callers i)) [
        | inl e ↦ rw e inv
        | inr (x, e) ↦
            let cap = bounded _ (resume_caller-IsConsistent w s i wall x e sound) in
            rw e (calls-Kept s i wall x e inv cap)
      ]

      step-Kept :
          (s : System F) (e : Event F)
          → IsConsistent w s
          → Inv (weigh v s) s.client
          → let t = step w s e in Inv (weigh v t) t.client
      unfolding step stop_workers close_session close_database
      step-Kept s (requests id at m url ps hs b p) sound inv =
          submits-Kept s id at m url ps hs b p inv
      step-Kept s (caller_runs i wall) sound inv = caller_runs-Kept s i wall sound inv
      step-Kept s (worker_runs i input) sound inv = elim (Option-cases (get_elem? s.workers i)) [
        | inl e ↦ rw e inv
        | inr (x, e) ↦ rw e (works-Kept s i input x e inv)
      ]
      step-Kept s (timer_runs i) sound inv = elim (Option-cases (get_elem? s.timers i)) [
        | inl e ↦ rw e inv
        | inr (x, e) ↦ rw e (wakes-Kept s i x e inv)
      ]
      step-Kept s stop_begins sound inv = stops-Kept s s.client.has_session inv
      step-Kept s stop_cancels sound inv =
          cancels-Kept s (s.client.stopping && (no_busy s.workers && no_pending s.timers))
            (cancels_none_busy w s) inv
      step-Kept s session_closes sound inv =
          leaves-Kept s (s.client.stopping && all_ended s.workers) inv
      step-Kept s storage_closes sound inv = closes-Kept s s.client.has_session inv

      -- The ledger is kept through every order of steps of a consistent system.
      pub run-Kept :
          (s : System F) (es : List (Event F))
          → IsConsistent w s
          → Inv (weigh v s) s.client
          → let t = run w s es in Inv (weigh v t) t.client
      unfolding run
      run-Kept s [] sound inv = inv
      run-Kept s (e ∷ es) sound inv =
          run-Kept (step w s e) es (step-IsConsistent w s e sound) (step-Kept s e sound inv)
