-- ===== src/Tests/Operators.antt =====
-- The theorems on the dead letters, the command line and the mock server at concrete inputs.
use python_async_api_barebon.Base.{◌+◌, ◌≢◌, ◌≡◌, ℕ, List, true, none, some, [], ◌∷◌, refl}
use python_async_api_barebon.Base.Lists.{All}
use python_async_api_barebon.Base.Sums.{total}
use python_async_api_barebon.Cli.Defs.{started_system, replay_on}
use python_async_api_barebon.Cli.ExitCodes.{replay_all-Reports, Reports, Ensures}
use python_async_api_barebon.Client.Execute.{answers}
use python_async_api_barebon.Client.Start.{running}
use python_async_api_barebon.Client.State.{idle, Client}
use python_async_api_barebon.Client.System.Defs.{step, worker_runs, Event, run, caller_runs}
use python_async_api_barebon.Client.Worker.Settle.{run_step, Input}
use python_async_api_barebon.DeadLetter.Defs.{waits, walks}
use python_async_api_barebon.DeadLetter.Removal.{replay_window, begun}
use python_async_api_barebon.DeadLetter.Results.{run_session-IsSound, row_ids, IsSound}
use python_async_api_barebon.DeadLetter.Sessions.{run_session, Act, Session, tasks, replays}
use python_async_api_barebon.Exec.{ok}
use python_async_api_barebon.MockServer.Admin.{
  serve, Server, ServerEvent, handler_runs, flaky_arrives,
}
use python_async_api_barebon.MockServer.Counts.{serve-counters, answers as answers_with}
use python_async_api_barebon.MockServer.State.{Builtins, FailureProfile, counter}
use python_async_api_barebon.Models.{none_left, from_storage, to_storage, null}
use python_async_api_barebon.Queue.{dequeue}
use python_async_api_barebon.Storage.{Storage}
use python_async_api_barebon.Storage.DeadLetters.{
  insert_newest, newest_first, read_letters, new_letter, list_dead_letter,
}
use python_async_api_barebon.Storage.Tables.{DeadLetterRow}
use python_async_api_barebon.Tests.Numbers.{nat_float}
use python_async_api_barebon.Tests.Systems.{fresh_client, asked, fresh_system}
use python_async_api_barebon.Tests.Worlds.{request_to, world}

abbrev letter : DeadLetterRow ℕ
letter = record {
  id = 4;
  idempotency_key = asked;
  request_id = "r1";
  request = request_to "a";
  error = "HTTP 500";
  retry_count = 3;
  first_seen = 4;
  last_attempt = 4;
}

-- The replay begins, submits its request, and finds it in flight while its row is written.
abbrev acts_beside : List (Act ℕ)
acts_beside = replays "r5" 6 ∷ replays "r5" 6 ∷ tasks (caller_runs 0 7) ∷ replays "r5" 6 ∷ []

abbrev session : Session ℕ
session = record { system = fresh_system; replay = walks (letter ∷ []) [] }

run_session-IsSound_example :
    IsSound (row_ids (letter ∷ [])) (run_session world session acts_beside).replay
run_session-IsSound_example = run_session-IsSound world (letter ∷ []) fresh_system acts_beside

replay_window_example :
    let (t, r) = begun world "r5" 6 (walks (letter ∷ []) []) fresh_system in
    (r ≡ waits letter 0 [] [])
    × (t.client.storage.inflight ≡ [])
    × All (λ x. x.id ≢ 4) t.client.storage.dead_letters
replay_window_example = replay_window world "r5" 6 letter [] [] fresh_system refl

abbrev lettered : Storage ℕ
lettered = record {
  is_open = true;
  inflight = [];
  dead_letters =
      new_letter 4 asked (request_to "a") "HTTP 500" 3 4 (to_storage (request_to "a")) ∷ [];
  last_id = 4;
}

abbrev lettered_client : Client ℕ
lettered_client = record fresh_client { storage = lettered }

abbrev quiet_input : Input ℕ
quiet_input = record { now = 5; wall = 6; reply = answers 200 null none_left }

-- A worker looks at the empty queue before the dead letters are read.
abbrev waking : List (Event ℕ)
waking = worker_runs 0 quiet_input ∷ []

abbrev woken : Storage ℕ
woken = (run world (started_system world lettered_client (idle ∷ [])) waking).client.storage

listed_woken : list_dead_letter "r5" 6 10000 woken ≡ (ok (letter ∷ []), lettered)
unfolding list_dead_letter read_letters newest_first insert_newest from_storage to_storage run step
    run_step dequeue
listed_woken = refl

replay_all-Reports_example :
    Ensures
      (Reports (row_ids (letter ∷ [])))
      (replay_on world "r5" 6 none (running lettered_client (idle ∷ [])) waking acts_beside)
replay_all-Reports_example =
    replay_all-Reports world "r5" 6 (letter ∷ []) lettered_client (idle ∷ []) waking acts_beside
      lettered listed_woken

-- A server over natural numbers, whose generator counts, and which enforces one request at a time.
abbrev simple : Builtins ℕ ℕ
simple = record {
  seeded = λ x. ok 0;
  random = λ r. (r, r + 1);
  choice = λ codes r. (503, r + 1);
  float_of = λ x. ok 0;
  int_of = λ x. ok 0;
  format3 = λ x. "1.000";
}

abbrev quota : FailureProfile ℕ
quota = record {
  p_429 = 0;
  p_500 = 5;
  latency_seconds = 2;
  enforce_rate_per_second = some 1;
  enforce_burst = 3;
  seed = null;
  succeed_first = 1;
}

abbrev server : Server ℕ ℕ
server = record {
  state = record {
    profile = quota;
    rng = 0;
    counters = [];
    request_count = 0;
    bucket_tokens = 3;
    bucket_last_refill = 10;
  };
  handlers = [];
}

-- One request in the warm-up, one that sleeps and then fails, and one that posts a body.
abbrev served : List (ServerEvent ℕ)
served =
    flaky_arrives "GET" 10
    ∷ flaky_arrives "GET" 10
    ∷ flaky_arrives "POST" 11
    ∷ handler_runs 1 (ok null)
    ∷ []

serve-counters_example :
    counter 503 (serve simple server served).state.counters + 0
    ≡ 0 + total (answers_with 503) (serve simple server served).handlers
unfolding counter
serve-counters_example = serve-counters simple 503 server served (tt, (tt, (tt, (tt, tt))))
