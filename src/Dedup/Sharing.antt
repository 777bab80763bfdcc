-- ===== src/Dedup/Sharing.antt =====
-- async_hardened_client/dedup.py: how callers share a future, and how it is settled.
use python_async_api_barebon.Base.{
  ◌∙◌, subst, ℕ, ◌+◌, ◌<◌, ⊤, String, true, false, Option, none, some, List, [], ◌∷◌, ◌++◌, ◌≡◌,
  ◌≢◌, inl, inr, refl, sym, arith, eq_iff, Option-cases, Bool-cases,
}
use python_async_api_barebon.Base.Dict.{get, pop, get-put, get-pop}
use python_async_api_barebon.Base.Lists.{
  length, get_elem?, set, get_elem?-set_self, get_elem?-set_ne, get_elem?_lt, get_elem?-append_left,
  get_elem?-append_end,
}
use python_async_api_barebon.Dedup.Defs.{
  Future, pending, resolved, failed, cancelled, InFlightRegistry, future_at, get_or_create, resolve,
  fail, discard, cancel, settle_future, is_pending, create,
}
use python_async_api_barebon.Dedup.Invariant.{
  Event, asks, resolves, fails, discards, cancels, step, run,
}
use python_async_api_barebon.Errors.{PyError}

module _ {F T : Type 0} where
  -- The future of a reference is settled: resolved, failed or cancelled.
  abbrev pub IsSettled : Option (Future F T) → Type 0
  IsSettled none = ⊥
  IsSettled (some pending) = ⊥
  IsSettled (some _) = ⊤

  -- A call with the key of a future that is pending attaches to it, owns nothing, and only counts
  -- the hit.
  pub get_or_create_attaches :
      (key : String) (g : InFlightRegistry F T) (id : ℕ)
      → get g.inflight key ≡ some id
      → future_at g id ≡ some pending
      → let (found, owner, g') = get_or_create key g in
        (found ≡ id)
        × (owner ≡ false)
        × (g'.inflight ≡ g.inflight)
        × (g'.futures ≡ g.futures)
        × (g'.dedup_hits ≡ g.dedup_hits + 1)
        × (g'.unique_requests ≡ g.unique_requests)
  unfolding get_or_create
  get_or_create_attaches key g id e p = ground arith

  not_pending : (f : Option (Future F T)) → f ≢ some pending → is_pending f ≡ false
  not_pending none h = refl
  not_pending (some pending) h = absurd (h refl)
  not_pending (some (resolved x)) h = refl
  not_pending (some (failed e)) h = refl
  not_pending (some cancelled) h = refl

  owned :
      (key : String) (g : InFlightRegistry F T)
      → let (found, owner, g') = create key g in
        (found ≡ length g.futures)
        × (owner ≡ true)
        × (get g'.inflight key ≡ some found)
        × (get_elem? g'.futures found ≡ some pending)
        × ((j : String) → j ≢ key → get g'.inflight j ≡ get g.inflight j)
        × ((i : ℕ) → i < length g.futures → get_elem? g'.futures i ≡ get_elem? g.futures i)
  owned key g = (
    refl,
    refl,
    ground (arith, get-put g.inflight key key (length g.futures), eq_iff key key),
    get_elem?-append_end g.futures pending,
    λ j ne. ground (arith, get-put g.inflight key j (length g.futures), eq_iff key j),
    λ i h. get_elem?-append_left g.futures (pending ∷ []) i h,
  )

  -- A call with a key that is not in flight, or whose future is not pending, owns a fresh future
  -- that is pending; other keys and the earlier futures stay.
  pub get_or_create_owns :
      (key : String) (g : InFlightRegistry F T)
      → ((id : ℕ) → get g.inflight key ≡ some id → future_at g id ≢ some pending)
      → let (found, owner, g') = get_or_create key g in
        (found ≡ length g.futures)
        × (owner ≡ true)
        × (get g'.inflight key ≡ some found)
        × (future_at g' found ≡ some pending)
        × ((j : String) → j ≢ key → get g'.inflight j ≡ get g.inflight j)
        × ((i : ℕ) → i < length g.futures → future_at g' i ≡ future_at g i)
  unfolding get_or_create future_at
  get_or_create_owns key g fresh = elim (Option-cases (get g.inflight key)) [
    | inl e ↦ rw e (owned key g)
    | inr (id, e) ↦ rw e (rw (not_pending (get_elem? g.futures id) (fresh id e)) (owned key g))
  ]

  append_settled :
      (fs : List (Future F T)) (id : ℕ)
      → IsSettled (get_elem? fs id)
      → get_elem? (fs ++ pending ∷ []) id ≡ get_elem? fs id
  append_settled fs id h = elim (Option-cases (get_elem? fs id)) [
    | inl e ↦ absurd (subst IsSettled e h)
    | inr (f, e) ↦ get_elem?-append_left fs (pending ∷ []) id (get_elem?_lt fs id f e)
  ]

  not_both : (f : Option (Future F T)) → IsSettled f → is_pending f ≡ true → ⊥
  not_both none h p = h
  not_both (some pending) h p = h
  not_both (some (resolved x)) h p = cc
  not_both (some (failed e)) h p = cc
  not_both (some cancelled) h p = cc

  settle_future_settled :
      (x : Future F T) (o : Option ℕ) (fs : List (Future F T)) (id : ℕ)
      → IsSettled (get_elem? fs id)
      → get_elem? (settle_future x o fs) id ≡ get_elem? fs id
  settle_future_settled x none fs id h = refl
  settle_future_settled x (some i) fs id h = elim (Bool-cases (is_pending (get_elem? fs i))) [
    | inl p ↦ rw p (
        get_elem?-set_ne fs x
          λ e. not_both _ h (subst (λ n. is_pending (get_elem? fs n) ≡ true) e p))
    | inr p ↦ rw p
  ]

  settled_ask :
      (key : String) (g : InFlightRegistry F T) (id : ℕ)
      → IsSettled (get_elem? g.futures id)
      → get_elem? (get_or_create key g).2.futures id ≡ get_elem? g.futures id
  unfolding get_or_create future_at
  settled_ask key g id h = ground (arith, append_settled g.futures id h)

  settled_step :
      (g : InFlightRegistry F T) (e : Event F T) (id : ℕ)
      → IsSettled (future_at g id)
      → future_at (step g e) id ≡ future_at g id
  unfolding step get_or_create resolve fail discard cancel future_at
  settled_step g (asks key) id h = settled_ask key g id h
  settled_step g (resolves key v) id h =
      settle_future_settled (resolved v) (get g.inflight key) g.futures id h
  settled_step g (fails key x) id h =
      settle_future_settled (failed x) (get g.inflight key) g.futures id h
  settled_step g (discards key) id h = refl
  settled_step g (cancels i) id h = settle_future_settled cancelled (some i) g.futures id h

  -- A future that is settled keeps its outcome through every sequence of calls of the registry and
  -- cancellations.
  pub settled_stays :
      (g : InFlightRegistry F T) (es : List (Event F T)) (id : ℕ)
      → IsSettled (future_at g id)
      → future_at (run g es) id ≡ future_at g id
  unfolding run
  settled_stays g [] id h = refl
  settled_stays g (e ∷ es) id h =
      let same = settled_step g e id h in settled_stays (step g e) es id (rw same h) ∙ same

  -- What settling the future of a key that is pending does: every holder of the reference sees the
  -- outcome, the key is free again, and no other key or future changes.
  abbrev pub Delivers :
      String → ℕ → Future F T → InFlightRegistry F T → InFlightRegistry F T → Type 0
  Delivers key id outcome g h =
      (future_at h id ≡ some outcome)
      × (get h.inflight key ≡ none)
      × ((i : ℕ) → i ≢ id → future_at h i ≡ future_at g i)
      × ((j : String) → j ≢ key → get h.inflight j ≡ get g.inflight j)

  settle-Delivers :
      (key : String) (id : ℕ) (x : Future F T) (g h : InFlightRegistry F T)
      → h.futures ≡ settle_future x (get g.inflight key) g.futures
      → h.inflight ≡ pop g.inflight key
      → get g.inflight key ≡ some id
      → future_at g id ≡ some pending
      → Delivers key id x g h
  unfolding future_at
  settle-Delivers key id x g h fs ks e p =
      let written = get_elem?-set_self g.futures id x (get_elem?_lt g.futures id pending p) in
      let now_set : h.futures ≡ set g.futures id x = ground (arith, fs, e, p) in
      (
        rw now_set written,
        ground (arith, ks, get-pop g.inflight key key, eq_iff key key),
        λ i ne. rw now_set (get_elem?-set_ne g.futures x (λ q. ne (sym q))),
        λ j ne. ground (arith, ks, get-pop g.inflight key j, eq_iff key j),
      )

  -- `resolve` and `fail` settle the pending future of a key in flight, for all who hold it, free
  -- the key, and change no other key or future.
  pub settling-Delivers :
      (key : String) (id : ℕ) (v : T) (exc : PyError F) (g : InFlightRegistry F T)
      → get g.inflight key ≡ some id
      → future_at g id ≡ some pending
      → Delivers key id (resolved v) g (resolve key v g)
        × Delivers key id (failed exc) g (fail key exc g)
  unfolding resolve fail
  settling-Delivers key id v exc g e p = (
    settle-Delivers key id (resolved v) g _ refl refl e p,
    settle-Delivers key id (failed exc) g _ refl refl e p,
  )

  cancelled_now :
      (g : InFlightRegistry F T) (id : ℕ)
      → future_at g id ≡ some pending
      → future_at (cancel id g) id ≡ some cancelled
  unfolding future_at cancel
  cancelled_now g id p =
      rw p (get_elem?-set_self g.futures id cancelled (get_elem?_lt g.futures id pending p))

  -- A pending future that one waiter's cancellation reaches stays cancelled for all who hold it,
  -- whatever is called later, `resolve` of its key included.
  pub cancel_reaches_all :
      (g : InFlightRegistry F T) (id : ℕ) (es : List (Event F T))
      → future_at g id ≡ some pending
      → future_at (run (cancel id g) es) id ≡ some cancelled
  cancel_reaches_all g id es p =
      let done = cancelled_now g id p in settled_stays (cancel id g) es id (rw done tt) ∙ done
