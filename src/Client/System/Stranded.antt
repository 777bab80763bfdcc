-- ===== src/Client/System/Stranded.antt =====
-- async_hardened_client/client.py: what `stop` leaves behind when an item was put between the moment
-- at which the queue was joined and the resumption of `join`.
use mathlib.Core.Option.{some-injective}
use python_async_api_barebon.Base.{
  suc, zero, subst, true, false, refl, ◌&&◌, inr, inl, Option-cases, [], if◌then◌else◌, some, ◌≤◌,
  Bool, arith, ◌++◌, ◌∷◌, String, ℕ, ◌≡◌, List,
}
use python_async_api_barebon.Base.Float.{Float}
use python_async_api_barebon.Base.Lists.{set, get_elem?}
use python_async_api_barebon.Client.State.{
  refused, Client, Caller, World, Timer, Worker, dropped, done, idle, died, gone,
}
use python_async_api_barebon.Client.System.Balances.{caller_step-balanced}
use python_async_api_barebon.Client.System.Carriers.{in_flight}
use python_async_api_barebon.Client.System.Defs.{
  close_database, close_session, stop_workers, System, run, step, Event, resume_caller,
  resume_worker, resume_timer, cancel_workers, no_pending, no_busy, all_ended, storage_closes,
  session_closes, stop_cancels, stop_begins, timer_runs, caller_runs, requests, worker_runs,
}
use python_async_api_barebon.Client.System.Futures.{in_flight-get_or_create}
use python_async_api_barebon.Client.Tasks.{joined_or_owner, submit, timer_step}
use python_async_api_barebon.Client.Worker.Settle.{Input, run_step}
use python_async_api_barebon.Dedup.{get_or_create, InFlightRegistry}
use python_async_api_barebon.Dedup.Invariant.{get_or_create-IsValid, IsValid}
use python_async_api_barebon.Errors.{PyError}
use python_async_api_barebon.Models.{idempotency_key, Response, Request}

module _ {F : Type 0} where
  cancel_workers-ended :
      (xs : List (Worker F)) → no_busy xs ≡ true → all_ended (cancel_workers xs) ≡ true
  unfolding no_busy all_ended cancel_workers
  cancel_workers-ended [] h = refl
  cancel_workers-ended (idle ∷ xs) h = cancel_workers-ended xs h
  cancel_workers-ended (gone ∷ xs) h = cancel_workers-ended xs h
  cancel_workers-ended (died item e ∷ xs) h = cancel_workers-ended xs h
  cancel_workers-ended (_ ∷ xs) h = cc

  all_ended-no_busy : (xs : List (Worker F)) → all_ended xs ≡ true → no_busy xs ≡ true
  unfolding no_busy all_ended
  all_ended-no_busy [] h = refl
  all_ended-no_busy (gone ∷ xs) h = all_ended-no_busy xs h
  all_ended-no_busy (died item e ∷ xs) h = all_ended-no_busy xs h
  all_ended-no_busy (_ ∷ xs) h = cc

  no_pending-append : (ts : List (Timer F)) → no_pending ts ≡ true → no_pending (ts ++ []) ≡ true
  unfolding no_pending
  no_pending-append [] h = refl
  no_pending-append (done ∷ ts) h = no_pending-append ts h
  no_pending-append (dropped item ∷ ts) h = no_pending-append ts h
  no_pending-append (_ ∷ ts) h = cc

module _ {F : Type 0} ⦃o : Float F⦄ (w : World F) where
  -- A worker that has ended does nothing when it is resumed.
  abbrev RestsWith : List (Worker F) → ℕ → Worker F → Type 0
  RestsWith xs i x =
      ((input : Input F) (c : Client F) → run_step w input x c ≡ (c, x, []))
      × (all_ended (set xs i x) ≡ true)

  rests :
      (xs : List (Worker F)) (i : ℕ) (x : Worker F)
      → get_elem? xs i ≡ some x
      → all_ended xs ≡ true
      → RestsWith xs i x
  unfolding all_ended run_step
  rests [] i x e h = cc
  rests (died item r ∷ xs) zero x e h =
      subst (λ y. RestsWith (died item r ∷ xs) zero y) (some-injective (died item r) x e)
        (λ input c. refl, h)
  rests (gone ∷ xs) zero x e h =
      subst (λ y. RestsWith (gone ∷ xs) zero y) (some-injective gone x e) (λ input c. refl, h)
  rests (died item r ∷ xs) (suc i) x e h = rests xs i x e h
  rests (gone ∷ xs) (suc i) x e h = rests xs i x e h
  rests (_ ∷ xs) i x e h = cc

  -- A reschedule that has ended does nothing either.
  abbrev QuietWith : List (Timer F) → ℕ → Timer F → Type 0
  QuietWith ts i t = ((c : Client F) → timer_step t c ≡ (c, t)) × (no_pending (set ts i t) ≡ true)

  quiets :
      (ts : List (Timer F)) (i : ℕ) (t : Timer F)
      → get_elem? ts i ≡ some t
      → no_pending ts ≡ true
      → QuietWith ts i t
  unfolding no_pending timer_step
  quiets [] i t e h = cc
  quiets (done ∷ ts) zero t e h =
      subst (λ u. QuietWith (done ∷ ts) zero u) (some-injective done t e) (λ c. refl, h)
  quiets (dropped item ∷ ts) zero t e h =
      subst (λ u. QuietWith (dropped item ∷ ts) zero u) (some-injective (dropped item) t e)
        (λ c. refl, h)
  quiets (done ∷ ts) (suc i) t e h = quiets ts i t e h
  quiets (dropped item ∷ ts) (suc i) t e h = quiets ts i t e h
  quiets (_ ∷ ts) i t e h = cc

  -- A sound registry, and workers and reschedules that have all ended.
  record IsStranded (s : System F) : Type 0 where
    registry : IsValid s.client.dedup
    ended : all_ended s.workers ≡ true
    quiet : no_pending s.timers ≡ true

  -- A step leaves the system so, and no fewer futures pending.
  abbrev Strands : String → System F → System F → Type 0
  Strands k s t = IsStranded t × (in_flight k s.client.dedup ≤ in_flight k t.client.dedup)

  submitted-Strands :
      (k : String) (s : System F) (req : Request F)
      (answer : ℕ × Bool × InFlightRegistry F (Response F))
      → get_or_create (idempotency_key w.platform req) s.client.dedup ≡ answer
      → IsStranded s
      → let (c, x) = joined_or_owner w req answer s.client in
        Strands k s (record s { client = c; callers = s.callers ++ x ∷ [] })
  submitted-Strands k s req (id, owner, g) e h =
      let key = idempotency_key w.platform req in
      let valid = get_or_create-IsValid key s.client.dedup h.registry in
      let gained = in_flight-get_or_create k key s.client.dedup h.registry in
      (
        record { registry = ground (arith, e, valid); ended = h.ended; quiet = h.quiet },
        ground (arith, e, gained),
      )

  asked-Strands :
      (k : String) (has_session : Bool) (s : System F) (req : Request F) (e : PyError F)
      → IsStranded s
      → let (c, x) =
          if has_session
          then joined_or_owner w req
              (get_or_create (idempotency_key w.platform req) s.client.dedup)
              s.client
          else (s.client, refused e) in
        Strands k s (record s { client = c; callers = s.callers ++ x ∷ [] })
  asked-Strands k true s req e h = submitted-Strands k s req _ refl h
  asked-Strands k false s req e h =
      (record { registry = h.registry; ended = h.ended; quiet = h.quiet }, omega arith)

  calls-Strands :
      (k : String) (s : System F) (i : ℕ) (wall : F) (x : Caller F)
      → IsStranded s
      → Strands k s (resume_caller w wall i (some x) s)
  calls-Strands k s i wall x h =
      let kept = (caller_step-balanced w k wall x s.client).2 in
      (
        record { registry = rw kept h.registry; ended = h.ended; quiet = h.quiet },
        ground (arith, kept),
      )

  works-Strands :
      (k : String) (s : System F) (i : ℕ) (input : Input F) (x : Worker F)
      → get_elem? s.workers i ≡ some x
      → IsStranded s
      → Strands k s (resume_worker w input i (some x) s)
  works-Strands k s i input x e h =
      let (same, kept) = rests s.workers i x e h.ended in
      rw (same input s.client) (
        record { registry = h.registry; ended = kept; quiet = no_pending-append s.timers h.quiet },
        omega arith,
      )

  wakes-Strands :
      (k : String) (s : System F) (i : ℕ) (t : Timer F)
      → get_elem? s.timers i ≡ some t
      → IsStranded s
      → Strands k s (resume_timer w i (some t) s)
  wakes-Strands k s i t e h =
      let (same, kept) = quiets s.timers i t e h.quiet in
      rw (same s.client)
        (record { registry = h.registry; ended = h.ended; quiet = kept }, omega arith)

  -- A stretch of `stop`, which either changes nothing of these or is not taken.
  either-Strands :
      (k : String) (s : System F) (b : Bool) (t u : System F)
      → Strands k s t
      → Strands k s u
      → Strands k s (if b then t else u)
  either-Strands k s true t u p q = p
  either-Strands k s false t u p q = q

  stays : (k : String) (s : System F) → IsStranded s → Strands k s s
  stays k s h = (h, omega arith)

  step-Strands : (k : String) (s : System F) (e : Event F) → IsStranded s → Strands k s (step w s e)
  unfolding step submit stop_workers close_session close_database
  step-Strands k s (requests id at m url ps hs b n) h = asked-Strands k s.client.has_session s _ _ h
  step-Strands k s (caller_runs i wall) h = elim (Option-cases (get_elem? s.callers i)) [
    | inl e ↦ rw e (stays k s h)
    | inr (x, e) ↦ rw e (calls-Strands k s i wall x h)
  ]
  step-Strands k s (worker_runs i input) h = elim (Option-cases (get_elem? s.workers i)) [
    | inl e ↦ rw e (stays k s h)
    | inr (x, e) ↦ rw e (works-Strands k s i input x e h)
  ]
  step-Strands k s (timer_runs i) h = elim (Option-cases (get_elem? s.timers i)) [
    | inl e ↦ rw e (stays k s h)
    | inr (x, e) ↦ rw e (wakes-Strands k s i x e h)
  ]
  step-Strands k s stop_begins h =
      either-Strands k s s.client.has_session _ s
        (record { registry = h.registry; ended = h.ended; quiet = h.quiet }, omega arith)
        (stays k s h)
  step-Strands k s stop_cancels h =
      let ended = cancel_workers-ended s.workers (all_ended-no_busy s.workers h.ended) in
      either-Strands k s (s.client.stopping && (no_busy s.workers && no_pending s.timers)) _ s
        (record { registry = h.registry; ended = ended; quiet = h.quiet }, omega arith)
        (stays k s h)
  step-Strands k s session_closes h =
      either-Strands k s (s.client.stopping && all_ended s.workers) _ s
        (record { registry = h.registry; ended = h.ended; quiet = h.quiet }, omega arith)
        (stays k s h)
  step-Strands k s storage_closes h =
      either-Strands k s s.client.has_session s _ (stays k s h)
        (record { registry = h.registry; ended = h.ended; quiet = h.quiet }, omega arith)

  run-Strands :
      (k : String) (s : System F) (es : List (Event F)) → IsStranded s → Strands k s (run w s es)
  unfolding run
  run-Strands k s [] h = stays k s h
  run-Strands k s (e ∷ es) h =
      let (still, more) = step-Strands k s e h in
      let (after, even_more) = run-Strands k (step w s e) es still in (after, omega arith)

  -- With a sound registry, when `stop` has begun and its `drain` returns while no worker has an
  -- item in hand and no reschedule is pending, whatever is in the queue then: through every order
  -- of steps of callers, workers, reschedules and `stop` behind the cancellation of the workers,
  -- all workers stay ended, and each key with a pending future keeps one. So an item that was put
  -- between the moment at which the queue was joined and the resumption of `join` is never
  -- answered.
  pub stop_strands :
      (s : System F) (es : List (Event F)) (k : String)
      → IsValid s.client.dedup
      → s.client.stopping ≡ true
      → no_busy s.workers ≡ true
      → no_pending s.timers ≡ true
      → let t = run w (step w s stop_cancels) es in
        (all_ended t.workers ≡ true) × (in_flight k s.client.dedup ≤ in_flight k t.client.dedup)
  unfolding step stop_workers
  stop_strands s es k valid stopping free quiet =
      let cancelled = record s { workers = cancel_workers s.workers } in
      let begun : IsStranded cancelled = record {
        registry = valid;
        ended = cancel_workers-ended s.workers free;
        quiet = quiet;
      } in
      let (after, more) = run-Strands k cancelled es begun in
      simp (stopping, free, quiet) (after.ended, more)
