-- ===== src/Tests/Starts.antt =====
-- A start that fails, and a stop that leaves an item, at concrete inputs.
use python_async_api_barebon.Base.{List, ◌≤◌, none, ◌≡◌, true, false, [], ◌∷◌, ℕ, refl}
use python_async_api_barebon.Base.Dict.{put, get}
use python_async_api_barebon.Client.Execute.{answers}
use python_async_api_barebon.Client.Start.{start_client, start, running, fails}
use python_async_api_barebon.Client.State.{Client}
use python_async_api_barebon.Client.System.Carriers.{in_flight}
use python_async_api_barebon.Client.System.Crashed.{online_system}
use python_async_api_barebon.Client.System.Defs.{
  Event, System, step, no_pending, all_ended, no_busy, stop_cancels, storage_closes, session_closes,
  worker_runs, caller_runs, requests, stop_begins, run,
}
use python_async_api_barebon.Client.System.Invariant.{run-IsConsistent}
use python_async_api_barebon.Client.System.Stranded.{stop_strands}
use python_async_api_barebon.Client.System.Unserved.{failed_start_unserved}
use python_async_api_barebon.Client.Tasks.{caller_step, submit}
use python_async_api_barebon.Dedup.{future_at, get_or_create, new_registry}
use python_async_api_barebon.Dedup.Invariant.{IsValid}
use python_async_api_barebon.Errors.{other}
use python_async_api_barebon.Models.{
  sort_value, write_value, idempotency_key, none_left, to_storage, is_serializable, from_storage,
  null,
}
use python_async_api_barebon.Queue.{enqueue}
use python_async_api_barebon.Storage.{upsert_inflight, status_pending, list_inflight, Storage}
use python_async_api_barebon.Storage.Inflight.{insert_oldest, oldest_first, read_rows}
use python_async_api_barebon.Tests.Numbers.{nat_float}
use python_async_api_barebon.Tests.Systems.{
  fresh_system, fresh_system-IsConsistent, asked, events, fresh_client,
}
use python_async_api_barebon.Tests.Worlds.{world}

abbrev empty_file : Storage ℕ
empty_file = record { is_open = false; inflight = []; dead_letters = []; last_id = 0 }

abbrev unstarted : Client ℕ
unstarted = record fresh_client { has_session = false; storage = empty_file }

-- A row with a payload that is no request.
abbrev broken_file : Storage ℕ
broken_file = record empty_file {
  inflight =
      record {
        idempotency_key = "k";
        request_id = "r1";
        payload = null;
        status = status_pending;
        retry_count = 0;
        last_error = none;
        created_at = 3;
        updated_at = 3;
      }
      ∷ [];
}

abbrev half_started : Client ℕ
half_started = record fresh_client { storage = record broken_file { is_open = true } }

half_started_lem :
    start "r9" 8 (record unstarted { storage = broken_file })
    ≡ fails (other "KeyError" "") half_started
unfolding start list_inflight read_rows oldest_first insert_oldest from_storage
half_started_lem = refl

unstarted-IsValid : IsValid unstarted.dedup
unfolding new_registry get
unstarted-IsValid = record { known = λ k id h. cc; apart = λ j k id a b. cc }

failed_start_unserved_example :
    let t = run world (online_system world half_started []) events in
    (start_client "r10" 9 half_started [] ≡ running half_started [])
    × ((run world t events).workers ≡ [])
    × (in_flight asked t.client.dedup ≤ in_flight asked (run world t events).client.dedup)
failed_start_unserved_example =
    failed_start_unserved world "r9" "r10" 8 9 (record unstarted { storage = broken_file })
      half_started (other "KeyError" "") events events asked unstarted-IsValid half_started_lem

-- `stop` has begun and the queue is joined; a caller puts its item before `join` is resumed.
abbrev late_put : List (Event ℕ)
late_put = stop_begins ∷ requests "r1" 3 "GET" "a" none_left none_left null 0 ∷ caller_runs 0 4 ∷ []

abbrev late : System ℕ
late = run world fresh_system late_put

late_lem :
    (late.client.stopping ≡ true)
    × (no_busy late.workers ≡ true)
    × (no_pending late.timers ≡ true)
    × (in_flight asked late.client.dedup ≡ 1)
unfolding run step submit caller_step get_or_create get new_registry upsert_inflight is_serializable
    to_storage enqueue no_busy no_pending in_flight put idempotency_key write_value sort_value
    future_at
late_lem = (refl, refl, refl, refl)

-- A worker and a caller are resumed behind the cancellation.
abbrev behind : List (Event ℕ)
behind =
    worker_runs 0 (record { now = 5; wall = 6; reply = answers 200 null none_left })
    ∷ session_closes
    ∷ caller_runs 0 6
    ∷ storage_closes
    ∷ []

stop_strands_example :
    let t = run world (step world late stop_cancels) behind in
    (all_ended t.workers ≡ true)
    × (in_flight asked late.client.dedup ≤ in_flight asked t.client.dedup)
stop_strands_example =
    stop_strands world late behind asked
      (run-IsConsistent world fresh_system late_put fresh_system-IsConsistent).registry late_lem.0
      late_lem.1 late_lem.2
