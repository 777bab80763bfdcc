-- ===== src/Dedup/Invariant.antt =====
-- async_hardened_client/dedup.py: the invariant of the registry.
use python_async_api_barebon.Base.{
  ℕ, ◌<◌, String, Option, none, some, List, [], ◌∷◌, ◌≡◌, inl, inr, refl, arith, eq_iff,
  Option-cases, Bool-cases,
}
use python_async_api_barebon.Base.Lists.{length, length-set, length-append}
use python_async_api_barebon.Base.Dict.{get, pop, get-put, get-pop}
use python_async_api_barebon.Errors.{PyError}
use python_async_api_barebon.Dedup.Defs.{
  Future, pending, resolved, failed, cancelled, InFlightRegistry, new_registry, future_at,
  get_or_create, resolve, fail, discard, cancel, settle_future, is_pending, create,
}

-- A call of the registry, or the cancellation of a task that awaits a future.
pub data Event (F T : Type 0) : Type 0 where
  asks : String → Event F T
  resolves : String → T → Event F T
  fails : String → PyError F → Event F T
  discards : String → Event F T
  cancels : ℕ → Event F T

module _ {F T : Type 0} where
  unfoldable pub step : InFlightRegistry F T → Event F T → InFlightRegistry F T
  step g (asks key) = (get_or_create key g).2
  step g (resolves key v) = resolve key v g
  step g (fails key e) = fail key e g
  step g (discards key) = discard key g
  step g (cancels id) = cancel id g

  unfoldable pub run : InFlightRegistry F T → List (Event F T) → InFlightRegistry F T
  run g [] = g
  run g (e ∷ es) = run (step g e) es

  -- Every reference is to a future of the heap, and no two keys share one.
  pub record IsValid (g : InFlightRegistry F T) : Type 0 where
    pub known : (k : String) (id : ℕ) → get g.inflight k ≡ some id → id < length g.futures
    pub apart :
        (j k : String) (id : ℕ) → get g.inflight j ≡ some id → get g.inflight k ≡ some id → j ≡ k

  length-settle_future :
      (x : Future F T) (o : Option ℕ) (fs : List (Future F T))
      → length (settle_future x o fs) ≡ length fs
  length-settle_future x none fs = refl
  length-settle_future x (some id) fs = ground (arith, length-set fs id x)

  create-IsValid : (key : String) (g : InFlightRegistry F T) → IsValid g → IsValid (create key g).2
  create-IsValid key g v = record {
    known = λ k id found. ground (
      arith,
      get-put g.inflight key k (length g.futures),
      v.known k id,
      length-append g.futures (pending ∷ []),
    );
    apart = λ j k id a b. ground (
      arith,
      get-put g.inflight key j (length g.futures),
      get-put g.inflight key k (length g.futures),
      eq_iff key j,
      eq_iff key k,
      v.apart j k id,
      v.known j id,
      v.known k id,
    );
  }

  pub get_or_create-IsValid :
      (key : String) (g : InFlightRegistry F T) → IsValid g → IsValid (get_or_create key g).2
  unfolding get_or_create
  get_or_create-IsValid key g v = elim (Option-cases (get g.inflight key)) [
    | inl e ↦ rw (e, get_or_create) (create-IsValid key g v)
    | inr (id, e) ↦ elim (Bool-cases (is_pending (future_at g id))) [
      | inl h ↦ rw (e, get_or_create) (rw h (record { known = v.known; apart = v.apart }))
      | inr h ↦ rw (e, get_or_create) (rw h (create-IsValid key g v))
    ]
  ]

  pop-IsValid :
      (key : String) (g h : InFlightRegistry F T)
      → h.inflight ≡ pop g.inflight key
      → length h.futures ≡ length g.futures
      → IsValid g
      → IsValid h
  pop-IsValid key g h e len v = record {
    known = λ k id found. ground (arith, get-pop g.inflight key k, v.known k id);
    apart = λ j k id a b.
        ground (arith, get-pop g.inflight key j, get-pop g.inflight key k, v.apart j k id);
  }

  pub resolve-IsValid :
      (key : String) (x : T) (g : InFlightRegistry F T) → IsValid g → IsValid (resolve key x g)
  unfolding resolve
  resolve-IsValid key x g v =
      pop-IsValid key g _ refl (length-settle_future (resolved x) (get g.inflight key) g.futures) v

  pub fail-IsValid :
      (key : String) (e : PyError F) (g : InFlightRegistry F T) → IsValid g → IsValid (fail key e g)
  unfolding fail
  fail-IsValid key e g v =
      pop-IsValid key g _ refl (length-settle_future (failed e) (get g.inflight key) g.futures) v

  pub cancel-IsValid : (id : ℕ) (g : InFlightRegistry F T) → IsValid g → IsValid (cancel id g)
  unfolding cancel
  cancel-IsValid id g v = record {
    known =
        λ k i found. rw (length-settle_future cancelled (some id) g.futures) (v.known k i found);
    apart = v.apart;
  }

  pub step-IsValid : (g : InFlightRegistry F T) (e : Event F T) → IsValid g → IsValid (step g e)
  unfolding step discard
  step-IsValid g (asks key) v = get_or_create-IsValid key g v
  step-IsValid g (resolves key x) v = resolve-IsValid key x g v
  step-IsValid g (fails key e) v = fail-IsValid key e g v
  step-IsValid g (discards key) v = pop-IsValid key g _ refl refl v
  step-IsValid g (cancels id) v = cancel-IsValid id g v

  run_keeps : (g : InFlightRegistry F T) (es : List (Event F T)) → IsValid g → IsValid (run g es)
  unfolding run
  run_keeps g [] v = v
  run_keeps g (e ∷ es) v = run_keeps (step g e) es (step-IsValid g e v)

  -- After any calls on a new registry, every key refers to a future that exists, and no two keys to
  -- the same one.
  pub run_refers_apart : (es : List (Event F T)) → IsValid (run (new_registry {F = F} {T = T}) es)
  unfolding new_registry get
  run_refers_apart es = run_keeps _ es (record { known = λ k id h. cc; apart = λ j k id a b. cc })
