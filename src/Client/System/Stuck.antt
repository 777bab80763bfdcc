-- ===== src/Client/System/Stuck.antt =====
-- Work that nobody carries on: its future stays pending, and identical requests attach to it.
use python_async_api_barebon.Base.{
  eq_iff, Option-cases, ◌∙◌, arith, ap, ◌++◌, ◌≤◌, ◌≡◌, String, List, ℕ, some, false, [], ◌∷◌, zero,
  suc, refl, inl, inr,
}
use python_async_api_barebon.Base.Float.{Float}
use python_async_api_barebon.Base.Lists.{get_elem?_lt, get_elem?-append_left, set, get_elem?}
use python_async_api_barebon.Base.Sums.{le-total}
use python_async_api_barebon.Client.State.{Worker, World, abandons, died, dropped}
use python_async_api_barebon.Client.System.Carriers.{
  timer_weight, worker_weight, caller_weight, carriers, in_flight, of_key,
}
use python_async_api_barebon.Client.System.Defs.{
  run, Event, System, cancel_workers, step, requests, caller_runs, worker_runs, timer_runs,
  stop_begins, stop_cancels, session_closes, storage_closes, stop_workers, close_session,
  close_database,
}
use python_async_api_barebon.Client.System.Futures.{in_flight-le_one}
use python_async_api_barebon.Client.System.Consistent.{IsConsistent}
use python_async_api_barebon.Client.System.Invariant.{run-IsConsistent}
use python_async_api_barebon.Client.Tasks.{caller_step, timer_step}
use python_async_api_barebon.Client.Worker.Settle.{run_step}
use python_async_api_barebon.Dedup.{InFlightRegistry, get_or_create}
use python_async_api_barebon.Errors.{PyError}
use python_async_api_barebon.Models.{Response, idempotency_key, Request, Platform}
use python_async_api_barebon.Queue.{QueueItem}

module _ {A : Type 0} where
  stays-append :
      (xs ys : List A) (i : ℕ) (a : A) → get_elem? xs i ≡ some a → get_elem? (xs ++ ys) i ≡ some a
  stays-append xs ys i a e = get_elem?-append_left xs ys i (get_elem?_lt xs i a e) ∙ e

  stays-set :
      (xs : List A) (i j : ℕ) (a x y : A)
      → get_elem? xs i ≡ some a
      → get_elem? xs j ≡ some x
      → (x ≡ a → y ≡ a)
      → get_elem? (set xs j y) i ≡ some a
  stays-set [] i j a x y e f same = cc
  stays-set (z ∷ xs) zero zero a x y e f same = ap some (same (ground arith))
  stays-set (z ∷ xs) zero (suc j) a x y e f same = e
  stays-set (z ∷ xs) (suc i) zero a x y e f same = e
  stays-set (z ∷ xs) (suc i) (suc j) a x y e f same = stays-set xs i j a x y e f same

module _ {F : Type 0} (p : Platform F) (k : String) where
  -- The key's work was lost by a caller whose write failed, a worker that an exception ended, or a
  -- reschedule that the stop dropped.
  pub data IsStuck (s : System F) : Type 0 where
    by_caller :
        (i : ℕ) (req : Request F) (e : PyError F)
        → get_elem? s.callers i ≡ some (abandons req e)
        → idempotency_key p req ≡ k
        → IsStuck s
    by_worker :
        (i : ℕ) (item : QueueItem F) (e : PyError F)
        → get_elem? s.workers i ≡ some (died item e)
        → idempotency_key p item.request ≡ k
        → IsStuck s
    by_timer :
        (i : ℕ) (item : QueueItem F)
        → get_elem? s.timers i ≡ some (dropped item)
        → idempotency_key p item.request ≡ k
        → IsStuck s

module _ {F : Type 0} ⦃o : Float F⦄ (w : World F) where
  abandons_stays :
      (s : System F) (e : Event F) (i : ℕ) (req : Request F) (x : PyError F)
      → get_elem? s.callers i ≡ some (abandons req x)
      → get_elem? (step w s e).callers i ≡ some (abandons req x)
  unfolding step stop_workers close_session close_database caller_step
  abandons_stays s (requests id at m url ps hs b p) i req x e =
      stays-append s.callers _ i (abandons req x) e
  abandons_stays s (caller_runs j wall) i req x e = elim (Option-cases (get_elem? s.callers j)) [
    | inl f ↦ rw f e
    | inr (y, f) ↦ rw f (
        stays-set s.callers i j (abandons req x) y (caller_step w wall y s.client).1 e f
          (λ g. rw g refl))
  ]
  abandons_stays s (worker_runs j input) i req x e = elim (Option-cases (get_elem? s.workers j)) [
    | inl f ↦ rw f e
    | inr (y, f) ↦ rw f e
  ]
  abandons_stays s (timer_runs j) i req x e = elim (Option-cases (get_elem? s.timers j)) [
    | inl f ↦ rw f e
    | inr (y, f) ↦ rw f e
  ]
  abandons_stays s stop_begins i req x e = ground arith
  abandons_stays s stop_cancels i req x e = ground arith
  abandons_stays s session_closes i req x e = ground arith
  abandons_stays s storage_closes i req x e = ground arith

  cancel_stays :
      (xs : List (Worker F)) (i : ℕ) (item : QueueItem F) (x : PyError F)
      → get_elem? xs i ≡ some (died item x)
      → get_elem? (cancel_workers xs) i ≡ some (died item x)
  unfolding cancel_workers
  cancel_stays [] i item x e = e
  cancel_stays (y ∷ ys) zero item x e = ground arith
  cancel_stays (y ∷ ys) (suc i) item x e = cancel_stays ys i item x e

  died_stays :
      (s : System F) (e : Event F) (i : ℕ) (item : QueueItem F) (x : PyError F)
      → get_elem? s.workers i ≡ some (died item x)
      → get_elem? (step w s e).workers i ≡ some (died item x)
  unfolding step stop_workers close_session close_database run_step
  died_stays s (requests id at m url ps hs b p) i item x e = e
  died_stays s (caller_runs j wall) i item x e = elim (Option-cases (get_elem? s.callers j)) [
    | inl f ↦ rw f e
    | inr (y, f) ↦ rw f e
  ]
  died_stays s (worker_runs j input) i item x e = elim (Option-cases (get_elem? s.workers j)) [
    | inl f ↦ rw f e
    | inr (y, f) ↦ rw f (
        stays-set s.workers i j (died item x) y (run_step w input y s.client).1 e f
          (λ g. rw g refl))
  ]
  died_stays s (timer_runs j) i item x e = elim (Option-cases (get_elem? s.timers j)) [
    | inl f ↦ rw f e
    | inr (y, f) ↦ rw f e
  ]
  died_stays s stop_begins i item x e = ground arith
  died_stays s stop_cancels i item x e = ground (arith, cancel_stays s.workers i item x e)
  died_stays s session_closes i item x e = ground arith
  died_stays s storage_closes i item x e = ground arith

  dropped_stays :
      (s : System F) (e : Event F) (i : ℕ) (item : QueueItem F)
      → get_elem? s.timers i ≡ some (dropped item)
      → get_elem? (step w s e).timers i ≡ some (dropped item)
  unfolding step stop_workers close_session close_database timer_step
  dropped_stays s (requests id at m url ps hs b p) i item e = e
  dropped_stays s (caller_runs j wall) i item e = elim (Option-cases (get_elem? s.callers j)) [
    | inl f ↦ rw f e
    | inr (y, f) ↦ rw f e
  ]
  dropped_stays s (worker_runs j input) i item e = elim (Option-cases (get_elem? s.workers j)) [
    | inl f ↦ rw f e
    | inr (y, f) ↦ rw f (stays-append s.timers _ i (dropped item) e)
  ]
  dropped_stays s (timer_runs j) i item e = elim (Option-cases (get_elem? s.timers j)) [
    | inl f ↦ rw f e
    | inr (y, f) ↦
        rw f
          (stays-set s.timers i j (dropped item) y (timer_step y s.client).1 e f (λ g. rw g refl))
  ]
  dropped_stays s stop_begins i item e = ground arith
  dropped_stays s stop_cancels i item e = ground arith
  dropped_stays s session_closes i item e = ground arith
  dropped_stays s storage_closes i item e = ground arith

  step-IsStuck :
      (k : String) (s : System F) (e : Event F)
      → IsStuck w.platform k s
      → IsStuck w.platform k (step w s e)
  step-IsStuck k s e (by_caller i req x h q) = by_caller i req x (abandons_stays s e i req x h) q
  step-IsStuck k s e (by_worker i item x h q) = by_worker i item x (died_stays s e i item x h) q
  step-IsStuck k s e (by_timer i item h q) = by_timer i item (dropped_stays s e i item h) q

  run-IsStuck :
      (k : String) (s : System F) (es : List (Event F))
      → IsStuck w.platform k s
      → IsStuck w.platform k (run w s es)
  unfolding run
  run-IsStuck k s [] h = h
  run-IsStuck k s (e ∷ es) h = run-IsStuck k (step w s e) es (step-IsStuck k s e h)

  pub of_key_self :
      (k : String) (req : Request F)
      → idempotency_key w.platform req ≡ k
      → of_key w.platform k req ≡ 1
  of_key_self k req q = ground (arith, eq_iff (idempotency_key w.platform req) k)

  IsStuck-carriers :
      (k : String) (s : System F) → IsStuck w.platform k s → 1 ≤ carriers w.platform k s
  unfolding carriers
  IsStuck-carriers k s (by_caller i req x h q) = omega (
    arith,
    le-total (caller_weight w.platform k) s.callers i (abandons req x) h,
    of_key_self k req q,
  )
  IsStuck-carriers k s (by_worker i item x h q) = omega (
    arith,
    le-total (worker_weight w.platform k) s.workers i (died item x) h,
    of_key_self k item.request q,
  )
  IsStuck-carriers k s (by_timer i item h q) = omega (
    arith,
    le-total (timer_weight w.platform k) s.timers i (dropped item) h,
    of_key_self k item.request q,
  )

  attaches :
      (k : String) (g : InFlightRegistry F (Response F))
      → in_flight k g ≡ 1
      → (get_or_create k g).1 ≡ false
  unfolding in_flight get_or_create
  attaches k g h = ground arith

  -- From a consistent system in which the work of a key was lost, by a caller whose write of the
  -- row raised, a worker that an exception ended or a reschedule that `stop` dropped, through every
  -- order of steps the future of the key stays pending, and an identical request attaches to it and
  -- waits.
  pub stuck_for_ever :
      (k : String) (s : System F) (es : List (Event F))
      → IsConsistent w s
      → IsStuck w.platform k s
      → let g = (run w s es).client.dedup in (in_flight k g ≡ 1) × ((get_or_create k g).1 ≡ false)
  stuck_for_ever k s es sound h =
      let t = run w s es in
      let after = run-IsConsistent w s es sound in
      let carried = IsStuck-carriers k t (run-IsStuck k s es h) in
      let pending : in_flight k t.client.dedup ≡ 1 =
        omega (arith, after.owned k, carried, in_flight-le_one k t.client.dedup) in
      (pending, attaches k t.client.dedup pending)
