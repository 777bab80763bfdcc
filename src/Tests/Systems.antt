-- ===== src/Tests/Systems.antt =====
-- The theorems on the client as a system of tasks at concrete inputs.
use python_async_api_barebon.Base.{
  ◌↔◌, ◌⊎◌, ◌<◌, ◌≢◌, ℕ, ◌≤◌, String, true, false, none, List, [], ◌∷◌, ◌≡◌, refl, arith,
}
use python_async_api_barebon.Base.Dict.{get}
use python_async_api_barebon.Breaker.{on_success, on_failure}
use python_async_api_barebon.Client.Start.{recover_rows}
use python_async_api_barebon.Client.Start.Recovery.{recover_rows_blocks}
use python_async_api_barebon.Client.State.{Client, idle}
use python_async_api_barebon.Client.System.Carriers.{carriers, in_flight}
use python_async_api_barebon.Client.System.Defs.{
  System, Event, requests, caller_runs, stop_begins, run,
}
use python_async_api_barebon.Client.System.Consistent.{IsConsistent}
use python_async_api_barebon.Client.System.Invariant.{run_one_carrier}
use python_async_api_barebon.Client.Tasks.{started}
use python_async_api_barebon.Client.Worker.Gate.{on_breaker}
use python_async_api_barebon.Client.Worker.Replies.{
  after_reply, IsSucceeding, IsRetrying, IsDeadLettering, status_decides_item,
  status_decides_breaker,
}
use python_async_api_barebon.Dedup.{new_registry}
use python_async_api_barebon.Dedup.Defs.{create}
use python_async_api_barebon.Limiter.{new_limiter}
use python_async_api_barebon.Metrics.{new_metrics}
use python_async_api_barebon.Models.{null, none_left, idempotency_key}
use python_async_api_barebon.Queue.{QueueItem}
use python_async_api_barebon.Storage.{InflightRow, status_pending}
use python_async_api_barebon.Tests.Numbers.{nat_float}
use python_async_api_barebon.Tests.Worlds.{plain, world, config, request_to, differ}

abbrev pub fresh_client : Client ℕ
fresh_client = record {
  cfg = config;
  has_session = true;
  storage = record { is_open = true; inflight = []; dead_letters = []; last_id = 0 };
  queue = record { items = []; max_size = 2; unfinished = 0 };
  dedup = new_registry;
  rate_limiter = new_limiter config.rate_limit;
  breakers = record { cfg = config.circuit_breaker; breakers = [] };
  stopping = false;
  metrics = new_metrics 2;
}

abbrev pub fresh_system : System ℕ
fresh_system = record { client = fresh_client; callers = []; workers = idle ∷ []; timers = [] }

pub fresh_system-IsConsistent : IsConsistent world fresh_system
unfolding new_registry carriers in_flight get
fresh_system-IsConsistent = record {
  registry = record { known = λ k id h. cc; apart = λ j k id a b. cc };
  owned = λ k. refl;
  counted = refl;
}

-- Two callers ask for the same, and the client begins to stop.
abbrev pub events : List (Event ℕ)
events =
    requests "r1" 3 "GET" "a" none_left none_left null 0
    ∷ requests "r2" 4 "GET" "a" none_left none_left null 0
    ∷ caller_runs 0 5
    ∷ stop_begins
    ∷ []

abbrev pub asked : String
asked = idempotency_key plain (request_to "a")

run_one_carrier_example :
    let t = run world fresh_system events in
    (carriers plain asked t ≡ in_flight asked t.client.dedup) × (carriers plain asked t ≤ 1)
run_one_carrier_example = run_one_carrier world fresh_system events asked fresh_system-IsConsistent

abbrev row_of : String → String → InflightRow ℕ
row_of key url = record {
  idempotency_key = key;
  request_id = "r1";
  request = request_to url;
  status = status_pending;
  retry_count = 1;
  last_error = none;
  created_at = 3;
  updated_at = 4;
}

abbrev rows : List (InflightRow ℕ)
rows = row_of "k1" "a" ∷ row_of "k2" "b" ∷ row_of "k3" "c" ∷ []

recover_rows_blocks_example : recover_rows rows fresh_client ≡ none
unfolding new_registry get
recover_rows_blocks_example =
    recover_rows_blocks rows fresh_client (refl, (refl, (refl, tt)))
      (
        (differ "k2" "k1" refl, (differ "k3" "k1" refl, tt)),
        ((differ "k3" "k2" refl, tt), (tt, tt)),
      )
      (ground arith) (ground arith)

-- An item in its second attempt, which upstream throttles.
abbrev second_try : QueueItem ℕ
second_try = record { request = request_to "a"; attempt = 1 }

abbrev throttled : ℕ
throttled = 429

status_decides_item_example :
    let x = (after_reply world 9 second_try throttled null none_left fresh_client).1 in
    (IsSucceeding world x ↔ ((200 ≤ throttled) × (throttled < 400)))
    × (IsRetrying world x
        ↔ (((throttled ≡ 429) ⊎ ((500 ≤ throttled) × (throttled < 600))) × (1 < 3)))
    × (IsDeadLettering world x ↔ (
        (throttled < 200)
        ⊎ ((400 ≤ throttled) × (throttled < 500) × (throttled ≢ 429))
        ⊎ (600 ≤ throttled)
        ⊎ ((400 ≤ throttled) × (3 ≤ 1))))
status_decides_item_example =
    status_decides_item world 9 second_try throttled null none_left fresh_client

status_decides_breaker_example :
    let c' = (after_reply world 9 second_try throttled null none_left fresh_client).0 in
    ((200 ≤ throttled)
      × (throttled < 400)
      × (c'.breakers ≡ (on_breaker world on_success second_try fresh_client).breakers))
    ⊎ ((throttled ≡ 429) × (c'.breakers ≡ fresh_client.breakers))
    ⊎ (((throttled < 200) ⊎ (400 ≤ throttled))
        × (throttled ≢ 429)
        × (c'.breakers ≡ (on_breaker world (on_failure 9) second_try fresh_client).breakers))
status_decides_breaker_example =
    status_decides_breaker world 9 second_try throttled null none_left fresh_client

-- A row that an earlier run has left, and the client that recovers it.
abbrev left_rows : List (InflightRow ℕ)
left_rows = row_of asked "a" ∷ []

abbrev recovered_client : Client ℕ
recovered_client =
    let c = started (record fresh_client { dedup = (create asked fresh_client.dedup).2 }) in
    record c {
      queue = record {
        items = record { request = request_to "a"; attempt = 1 } ∷ [];
        max_size = 2;
        unfinished = 1;
      };
    }
