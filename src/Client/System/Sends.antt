-- ===== src/Client/System/Sends.antt =====
-- How often a request is sent over all orders of steps.
use python_async_api_barebon.Base.{
  ◌∙◌, ap, some, Option, Bool-cases, ◌∷◌, ◌*◌, inr, inl, none, List, [], arith, ◌+◌, ◌≡◌, ◌≤◌, ℕ,
  refl,
}
use python_async_api_barebon.Base.Float.{Float}
use python_async_api_barebon.Base.Lists.{get_elem?}
use python_async_api_barebon.Base.Sums.{total, total-append, total-set}
use python_async_api_barebon.Client.Execute.{execute, classified, is_throttle}
use python_async_api_barebon.Client.State.{
  Client, Worker, World, idle, waits, executes, records_retry, pushes_letter, deletes_failed,
  deletes_done, hooks, died, gone,
}
use python_async_api_barebon.Client.System.Budget.{
  allowed, budget, sends_left, step-IsBounded, tries, tries_timer, tries_worker,
}
use python_async_api_barebon.Client.System.Defs.{
  resume_worker, stop_cancels, session_closes, storage_closes, stop_begins, timer_runs, worker_runs,
  caller_runs, requests, step, run, Event, System,
}
use python_async_api_barebon.Client.System.Consistent.{IsConsistent}
use python_async_api_barebon.Client.System.Invariant.{step-IsConsistent}
use python_async_api_barebon.Client.System.Ledger.{weigh}
use python_async_api_barebon.Client.System.Segments.{executed-Ends}
use python_async_api_barebon.Client.Worker.Gate.{executed, to_retry_or_dlq}
use python_async_api_barebon.Client.Worker.Settle.{Input, run_step}
use python_async_api_barebon.Errors.{PyError}
use python_async_api_barebon.Exec.{ok, err, Result}
use python_async_api_barebon.Models.{Response}
use python_async_api_barebon.Queue.{QueueItem}
use python_async_api_barebon.Retry.{should_retry}
use python_async_api_barebon.Storage.{}

module _ {F : Type 0} where
  abbrev sending : Option (Worker F) → ℕ
  sending (some (executes item)) = 1
  sending _ = 0

  -- 1 for a step in which a worker's attempt comes back from the transport.
  abbrev pub sends : System F → Event F → ℕ
  sends s (worker_runs i input) = sending (get_elem? s.workers i)
  sends s _ = 0

module _ {F : Type 0} ⦃o : Float F⦄ (w : World F) where
  -- The attempts that a run sends.
  unfoldable pub sent : System F → List (Event F) → ℕ
  sent s [] = 0
  sent s (e ∷ es) = sends s e + sent (step w s e) es

module _ {F : Type 0} ⦃o : Float F⦄ (w : World F) (limit : ℕ) where
  -- An attempt that has been made leaves one less.
  to_retry_or_dlq-spends :
      (item : QueueItem F) (e : PyError F) (r : Option F) (c : Client F)
      → c.cfg.retry.max_retries ≡ limit
      → tries_worker limit (to_retry_or_dlq w item e r c).1 + 1 ≤ tries limit item
  unfolding to_retry_or_dlq should_retry
  to_retry_or_dlq-spends item e r c h = ground arith

  executed-spends :
      (now : F) (item : QueueItem F) (r : Result F (Response F)) (c : Client F)
      → c.cfg.retry.max_retries ≡ limit
      → tries_worker limit (executed w now item r c).1 + 1 ≤ tries limit item
  unfolding executed
  executed-spends now item (ok response) c h = omega arith
  executed-spends now item (err e) c h = elim (Bool-cases (is_throttle e)) [
    | inl t ↦ rw t (to_retry_or_dlq-spends item (classified e) none c h)
    | inr t ↦ rw t (to_retry_or_dlq-spends item (classified e) none _ h)
  ]

  -- What a step sends it takes from what is left, with what the requests that it starts may be sent.
  abbrev Spends : System F → ℕ → System F → Type 0
  Spends s n t =
      (n + sends_left limit t + allowed limit s.client.metrics.requests_started
        ≤ sends_left limit s + allowed limit t.client.metrics.requests_started)
      × (t.client.cfg.retry.max_retries ≡ limit)

  step-Spends_none :
      (s : System F) (e : Event F)
      → IsConsistent w s
      → s.client.cfg.retry.max_retries ≡ limit
      → Spends s 0 (step w s e)
  unfolding sends_left
  step-Spends_none s e sound h =
      let base = allowed limit s.client.metrics.requests_started in
      let left = weigh (budget limit) s in
      let (bound, same) = step-IsBounded w limit base left s e sound (omega arith, h) in
      (omega (arith, bound), same)

  execution-Spends :
      (s : System F) (i : ℕ) (input : Input F) (item : QueueItem F)
      → s.client.cfg.retry.max_retries ≡ limit
      → get_elem? s.workers i ≡ some (executes item)
      → Spends s 1 (resume_worker w input i (some (executes item)) s)
  unfolding sends_left weigh run_step
  execution-Spends s i input item h e =
      let r = execute w item.request item.attempt input.reply in
      let (c, x, ts) = executed w input.now item r s.client in
      let ends = executed-Ends w input.now item r s.client in
      let changed = total-set (tries_worker limit) s.workers i (executes item) x e in
      let spent = executed-spends input.now item r s.client h in
      let timers = total-append (tries_timer limit) s.timers ts in
      (
        omega (
          arith,
          changed,
          spent,
          timers,
          ap (total (tries limit)) ends.same_items,
          ap (total (tries_timer limit)) ends.no_timers,
          ap (allowed limit) ends.same_started,
        ),
        ap (λ f. f.retry.max_retries) ends.same_cfg ∙ h,
      )

  resumed-Spends :
      (s : System F) (i : ℕ) (input : Input F) (x : Option (Worker F))
      → get_elem? s.workers i ≡ x
      → s.client.cfg.retry.max_retries ≡ limit
      → Spends s 0 (resume_worker w input i x s)
      → Spends s (sending x) (resume_worker w input i x s)
  resumed-Spends s i input (some (executes item)) e h free = execution-Spends s i input item h e
  resumed-Spends s i input none e h free = free
  resumed-Spends s i input (some idle) e h free = free
  resumed-Spends s i input (some (waits item id delay)) e h free = free
  resumed-Spends s i input (some (records_retry item x delay)) e h free = free
  resumed-Spends s i input (some (pushes_letter item x)) e h free = free
  resumed-Spends s i input (some (deletes_failed item x)) e h free = free
  resumed-Spends s i input (some (deletes_done item r)) e h free = free
  resumed-Spends s i input (some (hooks item r)) e h free = free
  resumed-Spends s i input (some (died item x)) e h free = free
  resumed-Spends s i input (some gone) e h free = free

  step-Spends :
      (s : System F) (e : Event F)
      → IsConsistent w s
      → s.client.cfg.retry.max_retries ≡ limit
      → Spends s (sends s e) (step w s e)
  unfolding step
  step-Spends s (worker_runs i input) sound h =
      resumed-Spends s i input (get_elem? s.workers i) refl h
        (step-Spends_none s (worker_runs i input) sound h)
  step-Spends s (requests id at m url ps hs b p) sound h =
      step-Spends_none s (requests id at m url ps hs b p) sound h
  step-Spends s (caller_runs i wall) sound h = step-Spends_none s (caller_runs i wall) sound h
  step-Spends s (timer_runs i) sound h = step-Spends_none s (timer_runs i) sound h
  step-Spends s stop_begins sound h = step-Spends_none s stop_begins sound h
  step-Spends s stop_cancels sound h = step-Spends_none s stop_cancels sound h
  step-Spends s session_closes sound h = step-Spends_none s session_closes sound h
  step-Spends s storage_closes sound h = step-Spends_none s storage_closes sound h

  run-Spends :
      (s : System F) (es : List (Event F))
      → IsConsistent w s
      → s.client.cfg.retry.max_retries ≡ limit
      → sent w s es
          + sends_left limit (run w s es)
          + allowed limit s.client.metrics.requests_started
        ≤ sends_left limit s + allowed limit (run w s es).client.metrics.requests_started
  unfolding run sent
  run-Spends s [] sound h = omega arith
  run-Spends s (e ∷ es) sound h =
      let (first, same) = step-Spends s e sound h in
      omega (arith, first, run-Spends (step w s e) es (step-IsConsistent w s e sound) same)

module _ {F : Type 0} ⦃o : Float F⦄ (w : World F) where
  -- Over all orders of steps from a consistent system, the attempts that workers send, with what
  -- may still be sent behind them and `max_retries` + 1 for each request started before, are at
  -- most what could be sent at first and `max_retries` + 1 for each request started at the end. So
  -- a client that has nothing left to send sends at most `max_retries` + 1 attempts for each
  -- request that is started from then on.
  pub run-sent-le :
      (s : System F) (es : List (Event F))
      → IsConsistent w s
      → let limit = s.client.cfg.retry.max_retries in
        let t = run w s es in
        sent w s es + sends_left limit t + (limit + 1) * s.client.metrics.requests_started
        ≤ sends_left limit s + (limit + 1) * t.client.metrics.requests_started
  unfolding allowed
  run-sent-le s es sound = run-Spends w s.client.cfg.retry.max_retries s es sound refl
