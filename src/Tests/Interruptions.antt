-- ===== src/Tests/Interruptions.antt =====
-- The theorems on cancelled callers at concrete inputs.
use python_async_api_barebon.Base.{
  arith, ◌⊎◌, ◌≤◌, some, String, map, ◌≡◌, true, false, [], ◌∷◌, refl, List, ℕ,
}
use python_async_api_barebon.Base.Dict.{put, get}
use python_async_api_barebon.Client.State.{idle, awaits, persists}
use python_async_api_barebon.Client.System.Carriers.{carriers, in_flight}
use python_async_api_barebon.Client.System.Consistent.{IsConsistent}
use python_async_api_barebon.Client.System.Covered.{IsConsistent-IsCovered, IsCovered}
use python_async_api_barebon.Client.System.Defs.{step, Event, System, run, requests}
use python_async_api_barebon.Client.System.Interrupted.{run_moves-IsCovered}
use python_async_api_barebon.Client.System.Invariant.{run-IsConsistent}
use python_async_api_barebon.Client.System.Moves.{move, run_moves, Move, goes, cancels_caller}
use python_async_api_barebon.Client.System.Progress.{Advances, no_cyclic_wait}
use python_async_api_barebon.Client.System.Runnable.{CanRun}
use python_async_api_barebon.Client.System.Split.{
  cancelled_future_doubles, cancelled_owner_lost, built,
}
use python_async_api_barebon.Client.System.Stuck.{IsStuck}
use python_async_api_barebon.Client.Tasks.{submit}
use python_async_api_barebon.Dedup.{future_at, pending, new_registry, get_or_create}
use python_async_api_barebon.Demo.{dedup_batch}
use python_async_api_barebon.Demo.Shares.{dedup_batch_shares, demo_request}
use python_async_api_barebon.Models.{
  sort_value, write_value, idempotency_key, Request, null, none_left,
}
use python_async_api_barebon.Tests.Numbers.{nat_float}
use python_async_api_barebon.Tests.Systems.{
  fresh_client, asked, events, fresh_system-IsConsistent, fresh_system,
}
use python_async_api_barebon.Tests.Worlds.{plain, world}

-- The second of two callers of the same request goes away while it waits for the future.
abbrev moves : List (Move ℕ)
moves =
    goes (requests "r1" 3 "GET" "a" none_left none_left null 0)
    ∷ goes (requests "r2" 4 "GET" "a" none_left none_left null 0)
    ∷ cancels_caller 1 5 true
    ∷ goes (requests "r3" 6 "GET" "a" none_left none_left null 0)
    ∷ []

run_moves-IsCovered_example : IsCovered world (run_moves world fresh_system moves)
run_moves-IsCovered_example =
    run_moves-IsCovered world fresh_system moves
      (IsConsistent-IsCovered world fresh_system fresh_system-IsConsistent)

abbrev two_callers : List (Event ℕ)
two_callers =
    requests "r1" 3 "GET" "a" none_left none_left null 0
    ∷ requests "r2" 4 "GET" "a" none_left none_left null 0
    ∷ []

abbrev shared : System ℕ
shared = run world fresh_system two_callers

shared-IsConsistent : IsConsistent world shared
shared-IsConsistent = run-IsConsistent world fresh_system two_callers fresh_system-IsConsistent

abbrev first : Request ℕ
first = built world "r1" 3 "GET" "a" none_left none_left null 0

cancelled_owner_lost_example :
    let k = idempotency_key plain first in
    let g = (run world (move world shared (cancels_caller 0 5 true)) events).client.dedup in
    (in_flight k g ≡ 1) × ((get_or_create k g).1 ≡ false)
unfolding run step submit get_or_create get new_registry
cancelled_owner_lost_example =
    cancelled_owner_lost world shared 0 5 true (persists first 0) first events shared-IsConsistent
      refl refl

cancelled_future_doubles_example :
    let t = move world shared (cancels_caller 1 5 true) in
    (carriers plain asked t ≡ 1)
    × (in_flight asked t.client.dedup ≡ 0)
    × (carriers plain asked (step world t (requests "r3" 6 "GET" "a" none_left none_left null 0))
        ≡ 2)
unfolding run step submit get_or_create get new_registry in_flight put idempotency_key write_value
    sort_value future_at
cancelled_future_doubles_example =
    cancelled_future_doubles world shared asked 1 0 5 true "r3" 6 "GET" "a" none_left none_left null
      0 shared-IsConsistent refl refl refl refl refl

-- Three callers of the demo's second batch.
abbrev stamps : List (String × ℕ)
stamps = ("r2", 4) ∷ ("r3", 5) ∷ []

dedup_batch_shares_example :
    let t = run world fresh_system (dedup_batch "http://h" (("r1", 3) ∷ stamps)) in
    (t.callers
      ≡ persists (demo_request world "http://h" ("r1", 3)) 0
        ∷ map (λ (x : String × ℕ). awaits 0) stamps)
    × (future_at t.client.dedup 0 ≡ some pending)
    × (t.client.dedup.dedup_hits ≡ 2)
    × (t.client.queue ≡ fresh_client.queue)
unfolding in_flight get new_registry
dedup_batch_shares_example =
    dedup_batch_shares world fresh_system "http://h" ("r1", 3) stamps refl refl

-- One caller that has yet to write its row.
abbrev asked_once : List (Move ℕ)
asked_once = goes (requests "r1" 3 "GET" "a" none_left none_left null 0) ∷ []

asked_once_waits : 1 ≤ in_flight asked (run_moves world fresh_system asked_once).client.dedup
unfolding run_moves move step submit get_or_create get new_registry in_flight put idempotency_key
    write_value sort_value future_at
asked_once_waits = omega arith

no_cyclic_wait_example :
    let t = run_moves world fresh_system asked_once in
    IsStuck plain asked t ⊎ ((r : CanRun t) × Advances world t r)
unfolding run_moves move step submit get_or_create get new_registry
no_cyclic_wait_example =
    no_cyclic_wait world fresh_system asked_once asked 0 idle
      (IsConsistent-IsCovered world fresh_system fresh_system-IsConsistent) asked_once_waits refl
      (omega arith) (omega arith)
