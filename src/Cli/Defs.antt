-- ===== src/Cli/Defs.antt =====
-- The commands, behind the parser of their arguments, with what each prints and its exit code.
use python_async_api_barebon.Base.{
  str_eq, String, ◌+◌, ◌==◌, Bool, Option, if◌then◌else◌, not, List, ℕ, some, none, [], ◌∷◌,
}
use python_async_api_barebon.Base.Float.{Float}
use python_async_api_barebon.Base.Lists.{length}
use python_async_api_barebon.Client.Snapshot.{metrics}
use python_async_api_barebon.Client.Start.{start, Start, new_client, running, blocked, fails}
use python_async_api_barebon.Client.State.{Worker, Client, World}
use python_async_api_barebon.Client.System.Defs.{run, System, Event}
use python_async_api_barebon.Config.{ClientConfig}
use python_async_api_barebon.DeadLetter.{
  replay_all, list_entries, purge, replay_entry, Replay, ReplayResult, finished, aborted,
}
use python_async_api_barebon.DeadLetter.Sessions.{Session, run_session, Act}
use python_async_api_barebon.Errors.{PyError}
use python_async_api_barebon.Exec.{Result, ok, err}
use python_async_api_barebon.Models.{Fields, Value, dict, int, field, none_left}
use python_async_api_barebon.Storage.{list_inflight}
use python_async_api_barebon.Storage.DeadLetters.{list_dead_letter}
use python_async_api_barebon.Storage.Tables.{
  close_storage, InflightRow, Storage, open_storage, DeadLetterRow,
}

-- What `parse_args` leaves. A limit and an id are not negative.
pub data Command : Type 0 where
  dlq_list : ℕ → Command
  dlq_replay : Option ℕ → Command
  dlq_purge : Bool → Command
  show_metrics : Command

-- What a command prints, before its text is written out.
pub data Output (F : Type 0) : Type 0 where
  listed : List (DeadLetterRow F) → Output F
  no_row : ℕ → Output F
  single : ReplayResult → Output F
  every : ℕ → ℕ → List ReplayResult → Output F
  refusal : Output F
  removed_rows : ℕ → Output F
  document : Value F → Output F

-- How far a command has come: still waiting for its tasks, ended with an output and an exit code, or
-- ended by an exception.
pub data Progress (F : Type 0) : Type 0 where
  going : Progress F
  exits : Output F → ℕ → Progress F
  raises : PyError F → Progress F

-- How the body of `_cmd_replay` begins: without a row of the id, with the task of one row, or with
-- that of all.
pub data Beginning (F : Type 0) : Type 0 where
  missing : ℕ → Beginning F
  one_row : Replay F → Beginning F
  all_rows : Replay F → Beginning F
  unlisted : PyError F → Beginning F

abbrev pub count_if : (ReplayResult → Bool) → List ReplayResult → ℕ
count_if p [] = 0
count_if p (r ∷ rs) = (if p r then 1 else 0) + count_if p rs

-- The results that `replayed` and `still_failing` count.
abbrev pub succeeded_count : List ReplayResult → ℕ
succeeded_count = count_if (λ r. r.succeeded)

abbrev pub failed_count : List ReplayResult → ℕ
failed_count = count_if (λ r. not r.succeeded)

module _ {F : Type 0} where
  -- `next((r for r in rows if r.id == id), None)`
  unfoldable pub target : ℕ → List (DeadLetterRow F) → Option (DeadLetterRow F)
  target n [] = none
  target n (r ∷ rs) = if r.id == n then some r else target n rs

module _ {F : Type 0} ⦃o : Float F⦄ where
  -- The result of the body of `async with Storage(db) as s`, and the storage that `__aexit__` closes.
  abbrev pub closing :
      {A : Type 0} → (A → Output F) → Result F A × Storage F → Progress F × Storage F
  closing print (ok x, s) = (exits (print x) 0, close_storage s)
  closing print (err e, s) = (raises e, close_storage s)

  -- `_cmd_list`
  unfoldable pub cmd_list : String → F → ℕ → Storage F → Progress F × Storage F
  unfolding list_entries open_storage close_storage
  cmd_list fresh_id now limit s = closing listed (list_entries fresh_id now limit (open_storage s))

  -- `_cmd_purge`
  unfoldable pub cmd_purge : Bool → Storage F → Progress F × Storage F
  unfolding purge open_storage close_storage
  cmd_purge confirmed s =
      if confirmed then closing removed_rows (purge (open_storage s)) else (exits refusal 1, s)

  abbrev pub targeted : ℕ → Option (DeadLetterRow F) → Beginning F
  targeted n none = missing n
  targeted n (some row) = one_row (replay_entry row)

  abbrev pub chosen : ℕ → Result F (List (DeadLetterRow F)) × Storage F → Beginning F
  chosen n (err e, s) = unlisted e
  chosen n (ok rows, s) = targeted n (target n rows)

  unfoldable pub begins : String → F → Option ℕ → Storage F → Beginning F
  unfolding list_dead_letter replay_all
  begins fresh_id now none s = all_rows (replay_all fresh_id now s)
  begins fresh_id now (some n) s = chosen n (list_dead_letter fresh_id now 10000 s)

-- How a replay ends, of one row and of all.
abbrev pub one_exit : {F : Type 0} → Replay F → Progress F
one_exit (finished (r ∷ rs)) = exits (single r) (if r.succeeded then 0 else 1)
one_exit (aborted e results) = raises e
one_exit _ = going

abbrev pub all_exit : {F : Type 0} → Replay F → Progress F
all_exit (finished rs) =
    exits (every (succeeded_count rs) (failed_count rs) rs) (if failed_count rs == 0 then 0 else 2)
all_exit (aborted e results) = raises e
all_exit _ = going

module _ {F : Type 0} ⦃o : Float F⦄ (w : World F) where
  -- The tasks behind `start`.
  abbrev pub started_system : Client F → List (Worker F) → System F
  started_system c ws = record { client = c; callers = []; workers = ws; timers = [] }

  abbrev pub session_of : System F → Replay F → Session F
  session_of s r = record { system = s; replay = r }

  -- The rest of the body, over the steps of the client's tasks and of the replay.
  abbrev pub followed : Beginning F → System F → List (Act F) → Progress F
  followed (missing n) s todo = exits (no_row n) 1
  followed (one_row r) s todo = one_exit (run_session w (session_of s r) todo).replay
  followed (all_rows r) s todo = all_exit (run_session w (session_of s r) todo).replay
  followed (unlisted e) s todo = raises e

  -- The steps of the client's tasks up to the moment at which the dead letters are read, and those
  -- behind it.
  abbrev pub replay_on :
      String → F → Option ℕ → Start F → List (Event F) → List (Act F) → Progress F
  replay_on fresh_id now id (running c ws) before todo =
      let s = run w (started_system c ws) before in
      followed (begins fresh_id now id s.client.storage) s todo
  replay_on fresh_id now id blocked before todo = going
  replay_on fresh_id now id (fails e d) before todo = raises e

  abbrev pub replay_with :
      String → F → Option ℕ → Result F (Client F) → List (Event F) → List (Act F) → Progress F
  replay_with fresh_id now id (err e) before todo = raises e
  replay_with fresh_id now id (ok c) before todo =
      replay_on fresh_id now id (start fresh_id now c) before todo

  -- `_cmd_replay` on a database, up to its `return`; the client then stops.
  unfoldable pub cmd_replay :
      String
      → F
      → ClientConfig F
      → Option ℕ
      → Storage F
      → List (Event F)
      → List (Act F)
      → Progress F
  unfolding new_client
  cmd_replay fresh_id now cfg id s before todo =
      replay_with fresh_id now id (new_client cfg s) before todo

  -- `snap[k] = x`
  unfoldable pub set_entry : String → Value F → Fields F → Fields F
  set_entry k x none_left = field k x none_left
  set_entry k x (field j y fs) = if str_eq j k then field j x fs else field j y (set_entry k x fs)

  abbrev pub with_entry : String → ℕ → Value F → Value F
  with_entry k n (dict fs) = dict (set_entry k (int n) fs)
  with_entry k n x = x

  abbrev pub shown :
      Value F
      → Result F (List (InflightRow F)) × Storage F
      → Result F (List (DeadLetterRow F)) × Storage F
      → Progress F
  shown snap (err e, s) x = raises e
  shown snap (ok rows, s) (err e, t) = raises e
  shown snap (ok rows, s) (ok dlq, t) =
      exits
        (document (
          with_entry "dlq_persisted" (length dlq)
            (with_entry "inflight_persisted" (length rows) snap)))
        0

  abbrev pub measured :
      String → F → (F → F) → Start F → List (Event F) → List (Event F) → Progress F
  measured fresh_id now round4 blocked before between = going
  measured fresh_id now round4 (fails e d) before between = raises e
  measured fresh_id now round4 (running c ws) before between =
      let (c', snap) = metrics round4 c in
      let s = run w (started_system c' ws) before in
      let t = run w s between in
      shown snap (list_inflight fresh_id now s.client.storage)
        (list_dead_letter fresh_id now 10000 t.client.storage)

  abbrev pub measured_with :
      String → F → (F → F) → Result F (Client F) → List (Event F) → List (Event F) → Progress F
  measured_with fresh_id now round4 (err e) before between = raises e
  measured_with fresh_id now round4 (ok c) before between =
      measured fresh_id now round4 (start fresh_id now c) before between

  -- `_cmd_metrics`, with the steps of the client's tasks before its first read and between the two.
  unfoldable pub cmd_metrics :
      String
      → F
      → (F → F)
      → ClientConfig F
      → Storage F
      → List (Event F)
      → List (Event F)
      → Progress F
  unfolding new_client
  cmd_metrics fresh_id now round4 cfg s before between =
      measured_with fresh_id now round4 (new_client cfg s) before between

  -- `_async_main` behind the parser, with the steps that each command leaves to the client's tasks.
  unfoldable pub async_main :
      String
      → F
      → (F → F)
      → ClientConfig F
      → Command
      → Storage F
      → List (Act F)
      → List (Event F)
      → List (Event F)
      → Progress F
  unfolding cmd_list cmd_purge cmd_replay cmd_metrics
  async_main fresh_id now round4 cfg (dlq_list limit) s todo before between =
      (cmd_list fresh_id now limit s).0
  async_main fresh_id now round4 cfg (dlq_replay id) s todo before between =
      cmd_replay fresh_id now cfg id s before todo
  async_main fresh_id now round4 cfg (dlq_purge confirmed) s todo before between =
      (cmd_purge confirmed s).0
  async_main fresh_id now round4 cfg show_metrics s todo before between =
      cmd_metrics fresh_id now round4 cfg s before between
