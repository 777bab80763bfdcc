-- ===== src/Tests/Shared.antt =====
-- The theorems on the queue and on the registry of requests in flight at concrete inputs.
use python_async_api_barebon.Base.{ℕ, List, [], ◌∷◌, ◌≡◌, refl}
use python_async_api_barebon.Base.Dict.{get}
use python_async_api_barebon.Errors.{runtime_error}
use python_async_api_barebon.Queue.{QueueItem}
use python_async_api_barebon.Queue.Order
use python_async_api_barebon.Dedup.{
  InFlightRegistry, pending, resolved, failed, future_at, resolve, fail,
}
use python_async_api_barebon.Dedup.Invariant.{asks, resolves, cancels, run}
use python_async_api_barebon.Dedup.Sharing.{settled_stays, settling-Delivers, Delivers}
use python_async_api_barebon.Tests.Worlds.{request_to}

abbrev item : QueueItem ℕ
item = record { request = request_to "a"; attempt = 0 }

abbrev operations : List (Order.Event ℕ)
operations =
    Order.puts item ∷ Order.tries item ∷ Order.tries item ∷ Order.gets ∷ Order.finishes ∷ []

-- A registry with one key in flight.
abbrev one_pending : InFlightRegistry ℕ ℕ
one_pending = record {
  inflight = ("k", 0) ∷ [];
  futures = pending ∷ [];
  dedup_hits = 0;
  unique_requests = 1;
}

settled_stays_example :
    future_at (run (resolve "k" 5 one_pending) (asks "k" ∷ cancels 0 ∷ resolves "k" 6 ∷ [])) 0
    ≡ future_at (resolve "k" 5 one_pending) 0
unfolding resolve get future_at
settled_stays_example =
    settled_stays (resolve "k" 5 one_pending) (asks "k" ∷ cancels 0 ∷ resolves "k" 6 ∷ []) 0 tt

settling-Delivers_example :
    Delivers "k" 0 (resolved 5) one_pending (resolve "k" 5 one_pending)
    × Delivers "k" 0
        (failed (runtime_error "x"))
        one_pending
        (fail "k" (runtime_error "x") one_pending)
unfolding get future_at
settling-Delivers_example = settling-Delivers "k" 0 5 (runtime_error "x") one_pending refl refl
