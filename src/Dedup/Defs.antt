-- ===== src/Dedup/Defs.antt =====
-- The class InFlightRegistry, and the futures that it shares with its callers. A future is an object
-- on a heap, and a reference to it is its index, so that callers see what happens to it later.
use python_async_api_barebon.Base.{
  ℕ, ◌+◌, String, Bool, true, false, Option, none, some, List, [], ◌∷◌, ◌++◌, if◌then◌else◌,
}
use python_async_api_barebon.Base.Lists.{length, get_elem?, set}
use python_async_api_barebon.Base.Dict.{Dict, get, put, pop}
use python_async_api_barebon.Errors.{PyError}

pub data Future (F T : Type 0) : Type 0 where
  pending : Future F T
  resolved : T → Future F T
  failed : PyError F → Future F T
  cancelled : Future F T

pub record InFlightRegistry (F T : Type 0) : Type 0 where
  pub inflight : Dict ℕ
  pub futures : List (Future F T)
  pub dedup_hits : ℕ
  pub unique_requests : ℕ

module _ {F T : Type 0} where
  unfoldable pub new_registry : InFlightRegistry F T
  new_registry = record { inflight = []; futures = []; dedup_hits = 0; unique_requests = 0 }

  abbrev pub is_pending : Option (Future F T) → Bool
  is_pending (some pending) = true
  is_pending _ = false

  -- The state of the future of a reference.
  unfoldable pub future_at : InFlightRegistry F T → ℕ → Option (Future F T)
  future_at g id = get_elem? g.futures id

  abbrev pub create : String → InFlightRegistry F T → ℕ × Bool × InFlightRegistry F T
  create key g =
      let id = length g.futures in
      (
        id,
        true,
        record g {
          inflight = put g.inflight key id;
          futures = g.futures ++ pending ∷ [];
          unique_requests = g.unique_requests + 1;
        },
      )

  -- `existing is not None and not existing.done()`
  abbrev pub attach_or_create :
      String → Option ℕ → InFlightRegistry F T → ℕ × Bool × InFlightRegistry F T
  attach_or_create key none g = create key g
  attach_or_create key (some id) g =
      if is_pending (future_at g id)
      then (id, false, record g { dedup_hits = g.dedup_hits + 1 })
      else create key g

  -- The future, whether the caller owns it, and the registry.
  unfoldable pub get_or_create : String → InFlightRegistry F T → ℕ × Bool × InFlightRegistry F T
  get_or_create key g = attach_or_create key (get g.inflight key) g

  -- A future is set only while it is pending.
  abbrev pub settle_future : Future F T → Option ℕ → List (Future F T) → List (Future F T)
  settle_future outcome none futures = futures
  settle_future outcome (some id) futures =
      if is_pending (get_elem? futures id) then set futures id outcome else futures

  abbrev settle : String → Future F T → InFlightRegistry F T → InFlightRegistry F T
  settle key outcome g = record g {
    inflight = pop g.inflight key;
    futures = settle_future outcome (get g.inflight key) g.futures;
  }

  unfoldable pub resolve : String → T → InFlightRegistry F T → InFlightRegistry F T
  resolve key value g = settle key (resolved value) g

  unfoldable pub fail : String → PyError F → InFlightRegistry F T → InFlightRegistry F T
  fail key exc g = settle key (failed exc) g

  unfoldable pub discard : String → InFlightRegistry F T → InFlightRegistry F T
  discard key g = record g { inflight = pop g.inflight key }

  -- What asyncio does to a future when a task that awaits it directly is cancelled.
  unfoldable pub cancel : ℕ → InFlightRegistry F T → InFlightRegistry F T
  cancel id g = record g { futures = settle_future cancelled (some id) g.futures }
