-- ===== src/Demo/Shares.antt =====
-- The requests of the second batch share one future.
use mathlib.Core.List.{append_assoc, append-nil}
use python_async_api_barebon.Base.{
  sym, subst, ◌≢◌, ap, ◌∙◌, arith, ◌≡◌, ◌+◌, some, true, [], ◌∷◌, refl, List, ℕ, String, map, ◌++◌,
}
use python_async_api_barebon.Base.Dict.{get}
use python_async_api_barebon.Base.Float.{Float}
use python_async_api_barebon.Base.Lists.{get_elem?, length}
use python_async_api_barebon.Client.State.{World, persists, awaits}
use python_async_api_barebon.Client.System.Carriers.{in_flight}
use python_async_api_barebon.Client.System.Defs.{run, System, step}
use python_async_api_barebon.Client.System.Split.{built}
use python_async_api_barebon.Client.Tasks.{submit}
use python_async_api_barebon.Dedup.{pending, InFlightRegistry, future_at, get_or_create}
use python_async_api_barebon.Dedup.Defs.{is_pending}
use python_async_api_barebon.Dedup.Sharing.{get_or_create_owns}
use python_async_api_barebon.Demo.{dedup_batch, asks, unique, flaky_url}
use python_async_api_barebon.Models.{Response, idempotency_key, Request, none_left, null}

module _ {F : Type 0} ⦃o : Float F⦄ (w : World F) where
  abbrev pub demo_request : String → String × F → Request F
  demo_request base (id, at) = built w id at "GET" (flaky_url base) unique none_left null 0

  -- A caller attaches to the future of a key in flight.
  abbrev pub attached : ℕ → System F → System F
  attached fut s =
      let c = s.client in
      let g = c.dedup in
      record s {
        client = record c { dedup = record g { dedup_hits = g.dedup_hits + 1 } };
        callers = s.callers ++ awaits fut ∷ [];
      }

  attaches :
      (s : System F) (base : String) (stamp : String × F) (fut : ℕ)
      → s.client.has_session ≡ true
      → get s.client.dedup.inflight (idempotency_key w.platform (demo_request base stamp))
        ≡ some fut
      → is_pending (future_at s.client.dedup fut) ≡ true
      → step w s (asks (flaky_url base) unique stamp) ≡ attached fut s
  unfolding step submit get_or_create
  attaches s base (id, at) fut online found waiting = ground (arith, online, found, waiting)

  -- What a batch that attaches leaves.
  record Shared (s t : System F) (stamps : List (String × F)) (fut : ℕ) : Type 0 where
    callers : t.callers ≡ s.callers ++ map (λ (x : String × F). awaits fut) stamps
    hits : t.client.dedup.dedup_hits ≡ s.client.dedup.dedup_hits + length stamps
    same_futures : t.client.dedup.futures ≡ s.client.dedup.futures
    same_queue : t.client.queue ≡ s.client.queue

  same_key :
      (base : String) (a b : String × F)
      → idempotency_key w.platform (demo_request base a)
        ≡ idempotency_key w.platform (demo_request base b)
  unfolding idempotency_key
  same_key base (id, at) (jd, bt) = refl

  attached-Shared :
      (s t : System F) (stamp : String × F) (stamps : List (String × F)) (fut : ℕ)
      → Shared (attached fut s) t stamps fut
      → Shared s t (stamp ∷ stamps) fut
  attached-Shared s t stamp stamps fut h = record {
    callers =
        h.callers
        ∙ append_assoc s.callers (awaits fut ∷ []) (map (λ (x : String × F). awaits fut) stamps);
    hits = omega (arith, h.hits);
    same_futures = h.same_futures;
    same_queue = h.same_queue;
  }

  batch-Shared :
      (s : System F) (base : String) (first : String × F) (stamps : List (String × F)) (fut : ℕ)
      → s.client.has_session ≡ true
      → get s.client.dedup.inflight (idempotency_key w.platform (demo_request base first))
        ≡ some fut
      → is_pending (future_at s.client.dedup fut) ≡ true
      → Shared s (run w s (dedup_batch base stamps)) stamps fut
  unfolding run dedup_batch future_at
  batch-Shared s base first [] fut online found waiting = record {
    callers = sym (append-nil s.callers);
    hits = omega arith;
    same_futures = refl;
    same_queue = refl;
  }
  batch-Shared s base first (stamp ∷ stamps) fut online found waiting =
      let here = ap (get s.client.dedup.inflight) (same_key base stamp first) ∙ found in
      let rest = batch-Shared (attached fut s) base first stamps fut online found waiting in
      attached-Shared s
        (run w (step w s (asks (flaky_url base) unique stamp)) (dedup_batch base stamps)) stamp
        stamps fut
        (subst (λ u. Shared (attached fut s) (run w u (dedup_batch base stamps)) stamps fut)
          (sym (attaches s base stamp fut online here waiting)) rest)

  never_pending :
      (k : String) (g : InFlightRegistry F (Response F)) (id : ℕ)
      → in_flight k g ≡ 0
      → get g.inflight k ≡ some id
      → future_at g id ≢ some pending
  unfolding in_flight
  never_pending k g id free e = λ f. ground (arith, e, f, free)

  owner-hits :
      (k : String) (g : InFlightRegistry F (Response F))
      → (get_or_create k g).1 ≡ true
      → (get_or_create k g).2.dedup_hits ≡ g.dedup_hits
  unfolding get_or_create
  owner-hits k g owner = ground (arith, owner)

  -- The first request of the batch owns its future.
  abbrev opened : System F → String → String × F → System F
  opened s base stamp =
      let c = s.client in
      let r = demo_request base stamp in
      let (fut, owner, g) = get_or_create (idempotency_key w.platform r) c.dedup in
      record s { client = record c { dedup = g }; callers = s.callers ++ persists r fut ∷ [] }

  opens :
      (s : System F) (base : String) (stamp : String × F)
      → s.client.has_session ≡ true
      → (get_or_create (idempotency_key w.platform (demo_request base stamp)) s.client.dedup).1
        ≡ true
      → step w s (asks (flaky_url base) unique stamp) ≡ opened s base stamp
  unfolding step submit
  opens s base (id, at) online owner = ground (arith, online, owner)

  -- In a system with a session, on a key that is not in flight, the demo's batch of identical
  -- requests, however many, leaves one new owner with a fresh pending future, which all the other
  -- callers wait for; each of them counts as one hit, and nothing goes on the queue yet.
  pub dedup_batch_shares :
      (s : System F) (base : String) (stamp : String × F) (stamps : List (String × F))
      → s.client.has_session ≡ true
      → in_flight (idempotency_key w.platform (demo_request base stamp)) s.client.dedup ≡ 0
      → let t = run w s (dedup_batch base (stamp ∷ stamps)) in
        let fut = length s.client.dedup.futures in
        (t.callers
          ≡ s.callers
            ++ persists (demo_request base stamp) fut ∷ map (λ (x : String × F). awaits fut) stamps)
        × (future_at t.client.dedup fut ≡ some pending)
        × (t.client.dedup.dedup_hits ≡ s.client.dedup.dedup_hits + length stamps)
        × (t.client.queue ≡ s.client.queue)
  unfolding run dedup_batch future_at
  dedup_batch_shares s base stamp stamps online free =
      let r = demo_request base stamp in
      let k = idempotency_key w.platform r in
      let g = s.client.dedup in
      let (found, owner, listed, waiting, others, earlier) =
        get_or_create_owns k g (λ id e. never_pending k g id free e) in
      let u = opened s base stamp in
      let fut = (get_or_create k g).0 in
      let still : is_pending (future_at (get_or_create k g).2 fut) ≡ true = rw waiting refl in
      let rest = batch-Shared u base stamp stamps fut online listed still in
      let t = run w u (dedup_batch base stamps) in
      let after : run w s (dedup_batch base (stamp ∷ stamps)) ≡ t =
        ap (λ v. run w v (dedup_batch base stamps)) (opens s base stamp online owner) in
      let all = λ (id : ℕ). persists r id ∷ map (λ (x : String × F). awaits id) stamps in
      let here = ap (λ v. v.client.dedup) after in
      (
        ap (λ v. v.callers) after
            ∙ rest.callers
            ∙ append_assoc s.callers (persists r fut ∷ [])
                (map (λ (x : String × F). awaits fut) stamps)
            ∙ ap (λ id. s.callers ++ all id) found,
        ap (λ d. future_at d (length g.futures)) here
            ∙ ap (λ fs. get_elem? fs (length g.futures)) rest.same_futures
            ∙ ap (future_at (get_or_create k g).2) (sym found)
            ∙ waiting,
        ap (λ d. d.dedup_hits) here
            ∙ rest.hits
            ∙ ap (λ n. n + length stamps) (owner-hits k g owner),
        ap (λ v. v.client.queue) after ∙ rest.same_queue,
      )
