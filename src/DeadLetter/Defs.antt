-- ===== src/DeadLetter/Defs.antt =====
-- The functions of dead_letter.py. `replay_entry` and `replay_all` are one task, which is resumed
-- beside the tasks of the client; the request that it submits is one more caller of the system.
use python_async_api_barebon.Base.{
  ◌++◌, if◌then◌else◌, Bool, Option, ⊤, String, List, ℕ, some, none, true, false, [], ◌∷◌,
}
use python_async_api_barebon.Base.Float.{Float}
use python_async_api_barebon.Base.Lists.{get_elem?, length}
use python_async_api_barebon.Client.Execute.{text_of}
use python_async_api_barebon.Client.State.{Caller, World, awaits, refused, abandons}
use python_async_api_barebon.Client.System.Defs.{requests, step, System}
use python_async_api_barebon.Dedup.{
  future_at, InFlightRegistry, Future, resolved, failed, cancelled,
}
use python_async_api_barebon.Errors.{other, is_async_hardened_error, PyError}
use python_async_api_barebon.Exec.{Exec, Result, ok, err}
use python_async_api_barebon.Models.{Response}
use python_async_api_barebon.Storage.{remove_dead_letter, Storage, purge_dead_letter}
use python_async_api_barebon.Storage.DeadLetters.{list_dead_letter}
use python_async_api_barebon.Storage.Tables.{DeadLetterRow}

pub record ReplayResult : Type 0 where
  pub row_id : ℕ
  pub request_id : String
  pub succeeded : Bool
  pub error : Option String

-- Where the task stands: before the removal of the next row, before its request, or waiting for the
-- outcome that the caller of a number gets; ended, or ended by an exception that is not the client's
-- own. The rows that are left and the results so far go along.
pub data Replay (F : Type 0) : Type 0 where
  walks : List (DeadLetterRow F) → List ReplayResult → Replay F
  asks : DeadLetterRow F → List (DeadLetterRow F) → List ReplayResult → Replay F
  waits : DeadLetterRow F → ℕ → List (DeadLetterRow F) → List ReplayResult → Replay F
  finished : List ReplayResult → Replay F
  aborted : PyError F → List ReplayResult → Replay F

module _ {F : Type 0} ⦃o : Float F⦄ where
  unfoldable pub list_entries : String → F → ℕ → Exec F (Storage F) (List (DeadLetterRow F))
  unfolding list_dead_letter
  list_entries fresh_id now limit = list_dead_letter fresh_id now limit

  unfoldable pub purge : Exec F (Storage F) ℕ
  unfolding purge_dead_letter
  purge s = purge_dead_letter s

  -- The task of `replay_entry` on one row.
  unfoldable pub replay_entry : DeadLetterRow F → Replay F
  replay_entry row = walks (row ∷ []) []

  abbrev pub walk_all : Result F (List (DeadLetterRow F)) × Storage F → Replay F
  walk_all (ok rows, s) = walks rows []
  walk_all (err e, s) = aborted e []

  -- The task of `replay_all`, behind its snapshot of the newest 10,000 rows.
  unfoldable pub replay_all : String → F → Storage F → Replay F
  unfolding list_dead_letter
  replay_all fresh_id now s = walk_all (list_dead_letter fresh_id now 10000 s)

  abbrev pub replayed : DeadLetterRow F → ReplayResult
  replayed row = record {
    row_id = row.id;
    request_id = row.request_id;
    succeeded = true;
    error = none;
  }

  abbrev pub still_failing : DeadLetterRow F → PyError F → ReplayResult
  still_failing row e = record {
    row_id = row.id;
    request_id = row.request_id;
    succeeded = false;
    error = some (text_of e);
  }

  -- `except AsyncHardenedError`: any other exception leaves `replay_entry`, and the loop of `replay_all`.
  abbrev pub caught :
      DeadLetterRow F → PyError F → List (DeadLetterRow F) → List ReplayResult → Replay F
  caught row e rows results =
      if is_async_hardened_error e
      then walks rows (results ++ still_failing row e ∷ [])
      else aborted e results

  abbrev pub answered :
      DeadLetterRow F
      → ℕ
      → Option (Future F (Response F))
      → List (DeadLetterRow F)
      → List ReplayResult
      → Replay F
  answered row i (some (resolved response)) rows results = walks rows (results ++ replayed row ∷ [])
  answered row i (some (failed e)) rows results = caught row e rows results
  answered row i (some cancelled) rows results = aborted (other "CancelledError" "") results
  answered row i _ rows results = waits row i rows results

  -- What `await client.request(...)` has come to for the caller of the number.
  abbrev pub outcome :
      DeadLetterRow F
      → ℕ
      → Option (Caller F)
      → InFlightRegistry F (Response F)
      → List (DeadLetterRow F)
      → List ReplayResult
      → Replay F
  outcome row i (some (awaits id)) g rows results = answered row i (future_at g id) rows results
  outcome row i (some (refused e)) g rows results = caught row e rows results
  outcome row i (some (abandons req e)) g rows results = caught row e rows results
  outcome row i _ g rows results = waits row i rows results

  abbrev pub removed :
      DeadLetterRow F
      → List (DeadLetterRow F)
      → List ReplayResult
      → Result F ⊤ × Storage F
      → System F
      → System F × Replay F
  removed row rows results (r, s) t =
      let c = t.client in
      (
        record t { client = record c { storage = s } },
        elim r [ ok x ↦ asks row rows results | err e ↦ aborted e results ],
      )

  module _ (w : World F) where
    -- A step of the task; the identifier and the time are those that a new Request takes.
    unfoldable pub replay_step : String → F → Replay F → System F → System F × Replay F
    replay_step id at (walks [] results) t = (t, finished results)
    replay_step id at (walks (row ∷ rows) results) t =
        removed row rows results (remove_dead_letter row.id t.client.storage) t
    replay_step id at (asks row rows results) t =
        let r = row.request in
        (
          step w t (requests id at r.method r.url r.params r.headers r.body r.priority),
          waits row (length t.callers) rows results,
        )
    replay_step id at (waits row i rows results) t =
        (t, outcome row i (get_elem? t.callers i) t.client.dedup rows results)
    replay_step id at (finished results) t = (t, finished results)
    replay_step id at (aborted e results) t = (t, aborted e results)
