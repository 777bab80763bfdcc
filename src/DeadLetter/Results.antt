-- ===== src/DeadLetter/Results.antt =====
-- dead_letter.py: the results of a replay, over all orders of steps beside it.
use mathlib.Core.List.{map, List, map-append, append_assoc, append-nil}
use python_async_api_barebon.Base.{
  arith, ⊤, if◌then◌else◌, Bool, Option, ◌++◌, ◌↔◌, String, ℕ, ◌≡◌, refl, [], ◌∷◌, true, false,
  none, some,
}
use python_async_api_barebon.Base.Float.{Float}
use python_async_api_barebon.Base.Lists.{get_elem?, All}
use python_async_api_barebon.Client.State.{
  Caller, World, awaits, refused, abandons, persists, enqueues,
}
use python_async_api_barebon.Client.System.Defs.{System}
use python_async_api_barebon.DeadLetter.Defs.{
  replayed, answered, outcome, still_failing, removed, replay_step, Replay, ReplayResult, walks,
  asks, waits, finished, aborted,
}
use python_async_api_barebon.DeadLetter.Sessions.{Session, act, Act, run_session, tasks, replays}
use python_async_api_barebon.Dedup.{
  future_at, InFlightRegistry, Future, resolved, failed, cancelled, pending,
}
use python_async_api_barebon.Errors.{is_async_hardened_error, PyError}
use python_async_api_barebon.Exec.{Result, ok, err}
use python_async_api_barebon.Models.{Response}
use python_async_api_barebon.Storage.{Storage, remove_dead_letter}
use python_async_api_barebon.Storage.Tables.{DeadLetterRow}

abbrev pub result_ids : List ReplayResult → List ℕ
result_ids = map (λ r. r.row_id)

-- A result has an error exactly if it did not succeed.
abbrev pub IsHonest : ReplayResult → Type 0
IsHonest r = (r.succeeded ≡ true) ↔ (r.error ≡ none)

All-snoc :
    (rs : List ReplayResult) (r : ReplayResult)
    → All IsHonest rs
    → IsHonest r
    → All IsHonest (rs ++ r ∷ [])
All-snoc [] r h k = (k, tt)
All-snoc (x ∷ xs) r h k = (h.0, All-snoc xs r h.1 k)

module _ {F : Type 0} where
  abbrev pub row_ids : List (DeadLetterRow F) → List ℕ
  row_ids = map (λ row. row.id)

  -- The results so far, the row in hand and those left are the snapshot's rows, in its order. An
  -- exception that ends the task is none of the client's own, and leaves the rest of the rows.
  abbrev pub Accounts : List ℕ → Replay F → Type 0
  Accounts ids (walks rows results) = result_ids results ++ row_ids rows ≡ ids
  Accounts ids (asks row rows results) = result_ids results ++ row.id ∷ row_ids rows ≡ ids
  Accounts ids (waits row i rows results) = result_ids results ++ row.id ∷ row_ids rows ≡ ids
  Accounts ids (finished results) = result_ids results ≡ ids
  Accounts ids (aborted e results) =
      (is_async_hardened_error e ≡ false) × ((rest : List ℕ) × (result_ids results ++ rest ≡ ids))

  abbrev pub results_of : Replay F → List ReplayResult
  results_of (walks rows results) = results
  results_of (asks row rows results) = results
  results_of (waits row i rows results) = results
  results_of (finished results) = results
  results_of (aborted e results) = results

  pub record IsSound (ids : List ℕ) (r : Replay F) : Type 0 where
    pub accounts : Accounts ids r
    pub honest : All IsHonest (results_of r)

  one_more :
      (ids : List ℕ) (row : DeadLetterRow F) (rows : List (DeadLetterRow F))
      (results : List ReplayResult) (r : ReplayResult)
      → r.row_id ≡ row.id
      → IsHonest r
      → IsSound ids (waits row 0 rows results)
      → IsSound ids (walks rows (results ++ r ∷ []))
  one_more ids row rows results r e h s = record {
    accounts = simp (map-append, append_assoc, e) s.accounts;
    honest = All-snoc results r s.honest h;
  }

module _ {F : Type 0} ⦃o : Float F⦄ where
  caught-IsSound :
      (ids : List ℕ) (row : DeadLetterRow F) (e : PyError F) (hardened : Bool)
      (rows : List (DeadLetterRow F)) (results : List ReplayResult)
      → is_async_hardened_error e ≡ hardened
      → IsSound ids (waits row 0 rows results)
      → IsSound ids
          (if hardened then walks rows (results ++ still_failing row e ∷ []) else aborted e results)
  caught-IsSound ids row e true rows results h s =
      one_more ids row rows results (still_failing row e) refl (λ p. cc, λ p. cc) s
  caught-IsSound ids row e false rows results h s = record {
    accounts = (h, (row.id ∷ row_ids rows, s.accounts));
    honest = s.honest;
  }

  answered-IsSound :
      (ids : List ℕ) (row : DeadLetterRow F) (i : ℕ) (f : Option (Future F (Response F)))
      (rows : List (DeadLetterRow F)) (results : List ReplayResult)
      → IsSound ids (waits row i rows results)
      → IsSound ids (answered row i f rows results)
  answered-IsSound ids row i (some (resolved response)) rows results s =
      one_more ids row rows results (replayed row) refl (λ p. refl, λ p. refl)
        (record { accounts = s.accounts; honest = s.honest })
  answered-IsSound ids row i (some (failed e)) rows results s =
      caught-IsSound ids row e _ rows results refl
        (record { accounts = s.accounts; honest = s.honest })
  answered-IsSound ids row i (some cancelled) rows results s = record {
    accounts = (refl, (row.id ∷ row_ids rows, s.accounts));
    honest = s.honest;
  }
  answered-IsSound ids row i (some pending) rows results s = s
  answered-IsSound ids row i none rows results s = s

  outcome-IsSound :
      (ids : List ℕ) (row : DeadLetterRow F) (i : ℕ) (x : Option (Caller F))
      (g : InFlightRegistry F (Response F)) (rows : List (DeadLetterRow F))
      (results : List ReplayResult)
      → IsSound ids (waits row i rows results)
      → IsSound ids (outcome row i x g rows results)
  outcome-IsSound ids row i (some (awaits id)) g rows results s =
      answered-IsSound ids row i (future_at g id) rows results s
  outcome-IsSound ids row i (some (refused e)) g rows results s =
      caught-IsSound ids row e _ rows results refl
        (record { accounts = s.accounts; honest = s.honest })
  outcome-IsSound ids row i (some (abandons req e)) g rows results s =
      caught-IsSound ids row e _ rows results refl
        (record { accounts = s.accounts; honest = s.honest })
  outcome-IsSound ids row i (some (persists req id)) g rows results s = s
  outcome-IsSound ids row i (some (enqueues req id)) g rows results s = s
  outcome-IsSound ids row i none g rows results s = s

  removed-IsSound :
      (ids : List ℕ) (row : DeadLetterRow F) (rows : List (DeadLetterRow F))
      (results : List ReplayResult) (x : Result F ⊤ × Storage F) (t : System F)
      → ((e : PyError F) → x.0 ≡ err e → is_async_hardened_error e ≡ false)
      → IsSound ids (walks (row ∷ rows) results)
      → IsSound ids (removed row rows results x t).1
  removed-IsSound ids row rows results (ok x, st) t h s = record {
    accounts = s.accounts;
    honest = s.honest;
  }
  removed-IsSound ids row rows results (err e, st) t h s = record {
    accounts = (h e refl, (row.id ∷ row_ids rows, s.accounts));
    honest = s.honest;
  }

  remove_dead_letter_errors :
      (k : ℕ) (s : Storage F) (e : PyError F)
      → (remove_dead_letter k s).0 ≡ err e
      → is_async_hardened_error e ≡ false
  unfolding remove_dead_letter
  remove_dead_letter_errors k s e h = ground arith

  module _ (w : World F) where
    replay_step-IsSound :
        (ids : List ℕ) (id : String) (at : F) (r : Replay F) (t : System F)
        → IsSound ids r
        → IsSound ids (replay_step w id at r t).1
    unfolding replay_step
    replay_step-IsSound ids id at (walks [] results) t s = record {
      accounts = simp append-nil at s.accounts;
      honest = s.honest;
    }
    replay_step-IsSound ids id at (walks (row ∷ rows) results) t s =
        removed-IsSound ids row rows results (remove_dead_letter row.id t.client.storage) t
          (remove_dead_letter_errors row.id t.client.storage) s
    replay_step-IsSound ids id at (asks row rows results) t s = record {
      accounts = s.accounts;
      honest = s.honest;
    }
    replay_step-IsSound ids id at (waits row i rows results) t s =
        outcome-IsSound ids row i (get_elem? t.callers i) t.client.dedup rows results s
    replay_step-IsSound ids id at (finished results) t s = s
    replay_step-IsSound ids id at (aborted e results) t s = s

    run_keeps :
        (ids : List ℕ) (s : Session F) (todo : List (Act F))
        → IsSound ids s.replay
        → IsSound ids (run_session w s todo).replay
    unfolding run_session act
    run_keeps ids s [] h = h
    run_keeps ids s (tasks e ∷ rest) h = run_keeps ids (act w s (tasks e)) rest h
    run_keeps ids s (replays id at ∷ rest) h =
        run_keeps ids (act w s (replays id at)) rest
          (replay_step-IsSound ids id at s.replay s.system h)

    -- A replay of a snapshot of dead letters, beside the tasks of the client in any order of steps:
    -- its results so far, the row in hand and the rows left are the snapshot's rows in their order,
    -- a result carries an error exactly if it did not succeed, and only an exception that is not
    -- the client's own ends the replay early.
    pub run_session-IsSound :
        (rows : List (DeadLetterRow F)) (t : System F) (todo : List (Act F))
        → IsSound
            (row_ids rows)
            (run_session w (record { system = t; replay = walks rows [] }) todo).replay
    run_session-IsSound rows t todo =
        run_keeps (row_ids rows) (record { system = t; replay = walks rows [] }) todo
          (record { accounts = refl; honest = tt })
