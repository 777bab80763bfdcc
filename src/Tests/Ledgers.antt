-- ===== src/Tests/Ledgers.antt =====
-- The theorems on what the client's books hold, over a concrete run.
use python_async_api_barebon.Base.{◌*◌, ◌∷◌, String, List, ℕ, ◌+◌, ◌≤◌, arith, ◌≡◌, false, [], refl}
use python_async_api_barebon.Base.Dict.{get}
use python_async_api_barebon.Base.Lists.{length}
use python_async_api_barebon.Base.Sums.{total}
use python_async_api_barebon.Client.Start.{running, start, new_client}
use python_async_api_barebon.Client.State.{Worker, Client}
use python_async_api_barebon.Client.System.Budget.{sends_left}
use python_async_api_barebon.Client.System.Carriers.{item_weight, in_flight}
use python_async_api_barebon.Client.System.Counted.{outstanding, run-IsAccounted, IsAccounted}
use python_async_api_barebon.Client.System.Crashed.{crash_recovers, online_system, IsSafe}
use python_async_api_barebon.Client.System.Defs.{caller_runs, requests, Event, System, step, run}
use python_async_api_barebon.Client.System.Invariant.{run-IsConsistent}
use python_async_api_barebon.Client.System.Saved.{run-at_stake-le, at_stake}
use python_async_api_barebon.Client.System.Sends.{run-sent-le, sent}
use python_async_api_barebon.Client.System.Stuck.{stuck_for_ever, IsStuck, by_caller}
use python_async_api_barebon.Client.Tasks.{caller_step, submit}
use python_async_api_barebon.Dedup.{get_or_create, new_registry}
use python_async_api_barebon.Errors.{type_error}
use python_async_api_barebon.Exec.{ok}
use python_async_api_barebon.Limiter.{new_limiter}
use python_async_api_barebon.Metrics.{new_metrics}
use python_async_api_barebon.Models.{
  none_left, Request, idempotency_key, bytes, to_storage, is_serializable,
}
use python_async_api_barebon.Queue.{enqueue, new_queue}
use python_async_api_barebon.Storage.{Storage, upsert_inflight}
use python_async_api_barebon.Storage.Inflight.{upsert_row}
use python_async_api_barebon.Storage.Presence.{has_row}
use python_async_api_barebon.Storage.Writes.{rows_of_key}
use python_async_api_barebon.Tests.Numbers.{nat_laws, nat_float}
use python_async_api_barebon.Tests.Systems.{
  fresh_client, asked, fresh_system-IsConsistent, events, fresh_system,
}
use python_async_api_barebon.Tests.Worlds.{config, plain, world}

fresh_system-IsAccounted : IsAccounted world fresh_system
unfolding new_metrics outstanding
fresh_system-IsAccounted = record {
  no_more = omega arith;
  no_less = omega arith;
  letters = refl;
  retries = refl;
}

run-IsAccounted_example : IsAccounted world (run world fresh_system events)
run-IsAccounted_example =
    run-IsAccounted world fresh_system events fresh_system-IsConsistent fresh_system-IsAccounted

run-at_stake-le_example :
    let t = run world fresh_system events in at_stake plain asked t ≤ has_row asked t.client.storage
unfolding at_stake has_row
run-at_stake-le_example =
    run-at_stake-le world asked fresh_system events fresh_system-IsConsistent (ground arith)

pub fresh_system-IsSafe : IsSafe world fresh_system
unfolding at_stake has_row rows_of_key
fresh_system-IsSafe = record {
  consistent = fresh_system-IsConsistent;
  written = record { holds = tt; once = λ k. omega arith };
  saved = λ k. omega arith;
}

abbrev left : Storage ℕ
left = (run world fresh_system events).client.storage

-- The client that is built on what a crash leaves.
abbrev rebooted : Client ℕ
rebooted = record fresh_client { has_session = false; storage = left }

rebooted_lem : new_client config left ≡ ok rebooted
unfolding new_client new_queue new_limiter new_metrics new_registry
rebooted_lem = refl

left-fits : length left.inflight ≤ 2
unfolding run step submit caller_step upsert_inflight upsert_row get_or_create get new_registry
    is_serializable to_storage enqueue
left-fits = omega arith

crash_recovers_example :
    (d : Client ℕ) × (ws : List (Worker ℕ)) × (start "r9" 8 rebooted ≡ running d ws)
    × IsSafe world (online_system world d ws)
    × ((k : String)
        → at_stake plain k (run world fresh_system events)
          ≤ total (item_weight plain k) d.queue.items)
    × (d.metrics.requests_started ≡ length left.inflight)
crash_recovers_example =
    crash_recovers world nat_laws fresh_system events "r9" 8 config rebooted fresh_system-IsSafe
      rebooted_lem left-fits

run-sent-le_example :
    let limit : ℕ = 3 in
    let t = run world fresh_system events in
    sent world fresh_system events + sends_left limit t + (limit + 1) * 0
    ≤ sends_left limit fresh_system + (limit + 1) * t.client.metrics.requests_started
unfolding new_metrics
run-sent-le_example = run-sent-le world fresh_system events fresh_system-IsConsistent

-- A caller asks with a body of bytes, and its row cannot be written.
abbrev unwritable : List (Event ℕ)
unwritable = requests "r1" 3 "GET" "a" none_left none_left (bytes "b") 0 ∷ caller_runs 0 5 ∷ []

abbrev posted : Request ℕ
posted = record {
  method = "GET";
  url = "a";
  headers = none_left;
  params = none_left;
  body = bytes "b";
  priority = 0;
  request_id = "r1";
  created_at = 3;
}

abbrev lost : System ℕ
lost = run world fresh_system unwritable

lost-IsStuck : IsStuck plain (idempotency_key plain posted) lost
unfolding run step submit caller_step upsert_inflight get_or_create get new_registry is_serializable
    to_storage
lost-IsStuck = by_caller 0 posted type_error refl refl

stuck_for_ever_example :
    let k = idempotency_key plain posted in
    let g = (run world lost events).client.dedup in
    (in_flight k g ≡ 1) × ((get_or_create k g).1 ≡ false)
stuck_for_ever_example =
    stuck_for_ever world (idempotency_key plain posted) lost events
      (run-IsConsistent world fresh_system unwritable fresh_system-IsConsistent) lost-IsStuck
