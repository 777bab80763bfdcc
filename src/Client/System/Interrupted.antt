-- ===== src/Client/System/Interrupted.antt =====
-- The same with cancellations of callers.
use python_async_api_barebon.Base.{
  ◌<◌, ◌≢◌, ◌==◌, Bool-cases, Option-cases, arith, ◌≤◌, ◌≡◌, some, true, false, [], ◌∷◌, refl, inl,
  inr, List, ℕ, Bool, String,
}
use python_async_api_barebon.Base.Dict.{get}
use python_async_api_barebon.Base.Float.{Float}
use python_async_api_barebon.Base.Lists.{
  get_elem?_lt, get_elem?-set_self, get_elem?-set_ne, length, get_elem?,
}
use python_async_api_barebon.Base.Sums.{total-set}
use python_async_api_barebon.Client.State.{
  Client, Caller, World, persists, enqueues, awaits, refused, abandons,
}
use python_async_api_barebon.Client.System.Carriers.{caller_weight, carriers, in_flight}
use python_async_api_barebon.Client.System.Covered.{step-IsCovered, IsCovered}
use python_async_api_barebon.Client.System.Defs.{System}
use python_async_api_barebon.Client.System.Moves.{
  Move, cancel_caller, interrupt_caller, move, run_moves, goes, cancels_caller,
}
use python_async_api_barebon.Dedup.{cancelled, Future, InFlightRegistry, cancel, future_at}
use python_async_api_barebon.Dedup.Invariant.{cancel-IsValid, IsValid}

module _ {F T : Type 0} (k : String) where
  -- A cancellation leaves no more pending futures.
  pub in_flight-cancel-le :
      (id : ℕ) (g : InFlightRegistry F T) → in_flight k (cancel id g) ≤ in_flight k g
  unfolding in_flight future_at cancel
  in_flight-cancel-le id g = elim (Option-cases (get g.inflight k)) [
    | inl e ↦ ground (arith, e)
    | inr (i, e) ↦ elim (Bool-cases (id == i)) [
      | inl h ↦ ground (
        arith,
        e,
        h,
        λ (l : id < length g.futures). get_elem?-set_self {A = Future F T} g.futures id cancelled l,
        λ (x : Future F T). get_elem?_lt g.futures id x,
      )
      | inr h ↦
          ground
            (arith, e, h, λ (n : id ≢ i). get_elem?-set_ne {A = Future F T} g.futures cancelled n)
    ]
  ]

module _ {F : Type 0} ⦃o : Float F⦄ (w : World F) where
  -- A cancelled owner is left with its work; a cancelled future is no longer pending.
  pub cancel_caller-balanced :
      (k : String) (wall : F) (written : Bool) (x : Caller F) (c : Client F)
      → let (c', x') = cancel_caller w wall written x c in
        (caller_weight w.platform k x' ≡ caller_weight w.platform k x)
        × (c'.queue ≡ c.queue)
        × (in_flight k c'.dedup ≤ in_flight k c.dedup)
  unfolding cancel_caller
  cancel_caller-balanced k wall true (persists req id) c = (refl, refl, omega arith)
  cancel_caller-balanced k wall false (persists req id) c = (refl, refl, omega arith)
  cancel_caller-balanced k wall written (enqueues req id) c = (refl, refl, omega arith)
  cancel_caller-balanced k wall written (awaits id) c =
      (refl, refl, in_flight-cancel-le k id c.dedup)
  cancel_caller-balanced k wall written (refused e) c = (refl, refl, omega arith)
  cancel_caller-balanced k wall written (abandons req e) c = (refl, refl, omega arith)

  cancel_caller-IsValid :
      (wall : F) (written : Bool) (x : Caller F) (c : Client F)
      → IsValid c.dedup
      → IsValid (cancel_caller w wall written x c).0.dedup
  unfolding cancel_caller
  cancel_caller-IsValid wall true (persists req id) c v = v
  cancel_caller-IsValid wall false (persists req id) c v = v
  cancel_caller-IsValid wall written (enqueues req id) c v = v
  cancel_caller-IsValid wall written (awaits id) c v = cancel-IsValid id c.dedup v
  cancel_caller-IsValid wall written (refused e) c v = v
  cancel_caller-IsValid wall written (abandons req e) c v = v

  interrupt-IsCovered :
      (s : System F) (i : ℕ) (wall : F) (written : Bool) (x : Caller F)
      → get_elem? s.callers i ≡ some x
      → IsCovered w s
      → IsCovered w (interrupt_caller w wall written i (some x) s)
  unfolding carriers
  interrupt-IsCovered s i wall written x e inv =
      let (c, x') = cancel_caller w wall written x s.client in
      record {
        registry = cancel_caller-IsValid wall written x s.client inv.registry;
        covered = λ k. ground (
          arith,
          inv.covered k,
          cancel_caller-balanced k wall written x s.client,
          total-set (caller_weight w.platform k) s.callers i x x' e,
        );
        counted = ground (arith, inv.counted, cancel_caller-balanced "" wall written x s.client);
      }

  move-IsCovered : (s : System F) (m : Move F) → IsCovered w s → IsCovered w (move w s m)
  unfolding move
  move-IsCovered s (goes e) inv = step-IsCovered w s e inv
  move-IsCovered s (cancels_caller i wall written) inv =
      elim (Option-cases (get_elem? s.callers i)) [
        | inl e ↦ rw e inv
        | inr (x, e) ↦ rw e (interrupt-IsCovered s i wall written x e inv)
      ]

  -- With callers cancelled at whatever waits, over all orders of cancellations and steps of the
  -- tasks and `stop`: if the registry is sound, each pending future has a carrier of its key, and
  -- `unfinished` counts the items in the queue and in hand, then this is still so at the end.
  pub run_moves-IsCovered :
      (s : System F) (ms : List (Move F)) → IsCovered w s → IsCovered w (run_moves w s ms)
  unfolding run_moves
  run_moves-IsCovered s [] inv = inv
  run_moves-IsCovered s (m ∷ ms) inv = run_moves-IsCovered (move w s m) ms (move-IsCovered s m inv)
