-- ===== src/Client/System/Split.antt =====
-- async_hardened_client/client.py: what the cancellation of a caller of `request` does to the others
-- that ask for the same.
use python_async_api_barebon.Base.{
  Option-cases, ap, ◌∙◌, ◌+◌, arith, ◌≡◌, some, none, true, false, [], ◌∷◌, refl, inl, inr, List, ℕ,
  Bool, String, Option,
}
use python_async_api_barebon.Base.Dict.{get}
use python_async_api_barebon.Base.Float.{Float}
use python_async_api_barebon.Base.Lists.{get_elem?_lt, get_elem?-set_self, set, get_elem?}
use python_async_api_barebon.Base.Sums.{total, total-set, total-append}
use python_async_api_barebon.Client.State.{
  Client, World, Caller, persists, enqueues, awaits, refused, abandons,
}
use python_async_api_barebon.Client.System.Carriers.{
  item_weight, caller_weight, carriers, in_flight,
}
use python_async_api_barebon.Client.System.Defs.{run, Event, System, step, requests}
use python_async_api_barebon.Client.System.Interrupted.{cancel_caller-balanced}
use python_async_api_barebon.Client.System.Consistent.{IsConsistent}
use python_async_api_barebon.Client.System.Moves.{
  interrupt_caller, cancelled_error, cancel_caller, move, cancels_caller,
}
use python_async_api_barebon.Client.System.Stuck.{of_key_self, stuck_for_ever, by_caller}
use python_async_api_barebon.Client.Tasks.{submit}
use python_async_api_barebon.Dedup.{
  cancelled, Future, InFlightRegistry, cancel, future_at, get_or_create,
}
use python_async_api_barebon.Models.{idempotency_key, Value, Fields, Request}

module _ {F : Type 0} where
  -- The request that a caller owns whose put is still to come.
  abbrev pub owned_request : Caller F → Option (Request F)
  owned_request (persists req id) = some req
  owned_request (enqueues req id) = some req
  owned_request _ = none

module _ {F T : Type 0} (k : String) where
  in_flight-cancel_self :
      (id : ℕ) (g : InFlightRegistry F T)
      → get g.inflight k ≡ some id
      → in_flight k (cancel id g) ≡ 0
  unfolding in_flight future_at cancel
  in_flight-cancel_self id g e = elim (Option-cases (get_elem? g.futures id)) [
    | inl f ↦ ground (arith, e, f)
    | inr (x, f) ↦ ground (
      arith,
      e,
      f,
      get_elem?-set_self {A = Future F T} g.futures id cancelled (get_elem?_lt g.futures id x f),
    )
  ]

  owns : (g : InFlightRegistry F T) → in_flight k g ≡ 0 → (get_or_create k g).1 ≡ true
  unfolding in_flight get_or_create
  owns g h = ground arith

module _ {F : Type 0} ⦃o : Float F⦄ (w : World F) where
  cancel_owner-balanced :
      (wall : F) (written : Bool) (x : Caller F) (req : Request F) (c : Client F)
      → owned_request x ≡ some req
      → let (c', x') = cancel_caller w wall written x c in
        (x' ≡ abandons req cancelled_error) × (c'.dedup ≡ c.dedup) × (c'.queue ≡ c.queue)
  unfolding cancel_caller
  cancel_owner-balanced wall true (persists req id) r c e = (cc, refl, refl)
  cancel_owner-balanced wall false (persists req id) r c e = (cc, refl, refl)
  cancel_owner-balanced wall written (enqueues req id) r c e = (cc, refl, refl)
  cancel_owner-balanced wall written (awaits id) r c e = cc
  cancel_owner-balanced wall written (refused x) r c e = cc
  cancel_owner-balanced wall written (abandons req x) r c e = cc

  interrupted-IsConsistent :
      (s : System F) (i : ℕ) (wall : F) (written : Bool) (x : Caller F) (req : Request F)
      → get_elem? s.callers i ≡ some x
      → owned_request x ≡ some req
      → IsConsistent w s
      → IsConsistent w (interrupt_caller w wall written i (some x) s)
  unfolding carriers
  interrupted-IsConsistent s i wall written x req e owner inv =
      let (c, x') = cancel_caller w wall written x s.client in
      let kept = cancel_owner-balanced wall written x req s.client owner in
      record {
        registry = rw kept.1 inv.registry;
        owned = λ k. ground (
          arith,
          inv.owned k,
          kept,
          cancel_caller-balanced w k wall written x s.client,
          total-set (caller_weight w.platform k) s.callers i x x' e,
        );
        counted = ground (arith, inv.counted, kept);
      }

  set_here :
      (xs : List (Caller F)) (i : ℕ) (x y z : Caller F)
      → get_elem? xs i ≡ some x
      → y ≡ z
      → get_elem? (set xs i y) i ≡ some z
  set_here xs i x y z e q = get_elem?-set_self xs i y (get_elem?_lt xs i x e) ∙ ap some q

  -- From a consistent system, when the owner of a future is cancelled before its item is on the
  -- queue, through every order of steps of the tasks behind it (with no other cancellation) the
  -- future of its key stays pending, and an identical request attaches to it.
  pub cancelled_owner_lost :
      (s : System F) (i : ℕ) (wall : F) (written : Bool) (x : Caller F) (req : Request F)
      (es : List (Event F))
      → IsConsistent w s
      → get_elem? s.callers i ≡ some x
      → owned_request x ≡ some req
      → let k = idempotency_key w.platform req in
        let g = (run w (move w s (cancels_caller i wall written)) es).client.dedup in
        (in_flight k g ≡ 1) × ((get_or_create k g).1 ≡ false)
  unfolding move
  cancelled_owner_lost s i wall written x req es sound e owner =
      let k = idempotency_key w.platform req in
      let t = interrupt_caller w wall written i (some x) s in
      let kept = cancel_owner-balanced wall written x req s.client owner in
      rw e (
        stuck_for_ever w k t es (interrupted-IsConsistent s i wall written x req e owner sound) (
          by_caller i req cancelled_error
            (set_here s.callers i x (cancel_caller w wall written x s.client).1 _ e kept.0) refl))

  -- The request that `request` builds.
  abbrev pub built : String → F → String → String → Fields F → Fields F → Value F → ℕ → Request F
  built id at m url ps hs b p = record {
    method = w.platform.upper m;
    url = url;
    headers = hs;
    params = ps;
    body = b;
    priority = p;
    request_id = id;
    created_at = at;
  }

  fresh_submit :
      (c : Client F) (id : String) (at : F) (m url : String) (ps hs : Fields F) (b : Value F)
      (p : ℕ)
      → c.has_session ≡ true
      → let r = built id at m url ps hs b p in
        (get_or_create (idempotency_key w.platform r) c.dedup).1 ≡ true
        → let (d, x) = submit w id at m url ps hs b p c in
          (d.queue ≡ c.queue)
          × (x ≡ persists r (get_or_create (idempotency_key w.platform r) c.dedup).0)
  unfolding submit
  fresh_submit c id at m url ps hs b p online owner =
      (ground (arith, online), ground (arith, online, owner))

  asked_again :
      (s : System F) (k : String) (id : String) (at : F) (m url : String) (ps hs : Fields F)
      (b : Value F) (p : ℕ)
      → s.client.has_session ≡ true
      → idempotency_key w.platform (built id at m url ps hs b p) ≡ k
      → in_flight k s.client.dedup ≡ 0
      → carriers w.platform k (step w s (requests id at m url ps hs b p))
        ≡ carriers w.platform k s + 1
  unfolding step carriers
  asked_again s k id at m url ps hs b p online same free =
      let r = built id at m url ps hs b p in
      let owner : (get_or_create (idempotency_key w.platform r) s.client.dedup).1 ≡ true =
        rw same (owns k s.client.dedup free) in
      let (c, x) = submit w id at m url ps hs b p s.client in
      let new = fresh_submit s.client id at m url ps hs b p online owner in
      let weight : caller_weight w.platform k x ≡ 1 =
        ap (caller_weight w.platform k) new.1 ∙ of_key_self w k r same in
      let items = ap (λ q. total (item_weight w.platform k) q.items) new.0 in
      omega (arith, items, weight, total-append (caller_weight w.platform k) s.callers (x ∷ []))

  cancelled_future :
      (s : System F) (k : String) (i fut : ℕ) (wall : F) (written : Bool)
      → get_elem? s.callers i ≡ some (awaits fut)
      → get s.client.dedup.inflight k ≡ some fut
      → let t = move w s (cancels_caller i wall written) in
        (carriers w.platform k t ≡ carriers w.platform k s)
        × (in_flight k t.client.dedup ≡ 0)
        × (t.client.has_session ≡ s.client.has_session)
  unfolding move cancel_caller carriers
  cancelled_future s k i fut wall written e f =
      let put = total-set (caller_weight w.platform k) s.callers i (awaits fut) (awaits fut) e in
      rw e (omega (arith, put), in_flight-cancel_self k fut s.client.dedup f, refl)

  -- In a consistent system with a session, when a caller is cancelled that waits for the pending
  -- future of a key, the work of the key goes on without a pending future, and the next request for
  -- the key makes a second carrier of it.
  pub cancelled_future_doubles :
      (s : System F) (k : String) (i fut : ℕ) (wall : F) (written : Bool) (id : String) (at : F)
      (m url : String) (ps hs : Fields F) (b : Value F) (p : ℕ)
      → IsConsistent w s
      → s.client.has_session ≡ true
      → get_elem? s.callers i ≡ some (awaits fut)
      → get s.client.dedup.inflight k ≡ some fut
      → in_flight k s.client.dedup ≡ 1
      → idempotency_key w.platform (built id at m url ps hs b p) ≡ k
      → let t = move w s (cancels_caller i wall written) in
        (carriers w.platform k t ≡ 1)
        × (in_flight k t.client.dedup ≡ 0)
        × (carriers w.platform k (step w t (requests id at m url ps hs b p)) ≡ 2)
  cancelled_future_doubles s k i fut wall written id at m url ps hs b p sound online e f waiting
        same =
      let t = move w s (cancels_caller i wall written) in
      let (same_work, over, on) = cancelled_future s k i fut wall written e f in
      let work : carriers w.platform k t ≡ 1 = omega (arith, same_work, sound.owned k, waiting) in
      let r = built id at m url ps hs b p in
      (
        work,
        over,
        asked_again t k id at m url ps hs b p (on ∙ online) same over ∙ ap (λ n. n + 1) work,
      )
