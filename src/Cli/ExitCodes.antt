-- ===== src/Cli/ExitCodes.antt =====
-- What the commands print and how they exit, over all orders of the client's steps.
use python_async_api_barebon.Base.{
  ◌↔◌, ◌⊎◌, subst, Bool-cases, String, Option, ◌==◌, if◌then◌else◌, arith, ◌≢◌, ◌+◌, ⊤, ◌≡◌, List,
  ℕ, some, none, true, [], ◌∷◌, inl, inr, refl,
}
use python_async_api_barebon.Base.Float.{Float}
use python_async_api_barebon.Base.Lists.{length, All}
use python_async_api_barebon.Base.Sums.{total}
use python_async_api_barebon.Cli.Defs.{
  replay_on, session_of, started_system, targeted, followed, begins, target, all_exit, one_exit,
  failed_count, succeeded_count, Progress, Output, no_row, single, every, going, exits, raises,
}
use python_async_api_barebon.Client.Start.{running}
use python_async_api_barebon.Client.State.{Worker, Client, World}
use python_async_api_barebon.Client.System.Defs.{run, Event, System}
use python_async_api_barebon.DeadLetter.{
  replay_all, replay_entry, Replay, ReplayResult, finished, aborted, walks, asks, waits,
}
use python_async_api_barebon.DeadLetter.Results.{
  run_session-IsSound, row_ids, IsHonest, IsSound, result_ids,
}
use python_async_api_barebon.DeadLetter.Sessions.{run_session, Act}
use python_async_api_barebon.Exec.{ok}
use python_async_api_barebon.Storage.DeadLetters.{list_dead_letter}
use python_async_api_barebon.Storage.Tables.{Storage, DeadLetterRow}

-- 1 for a result that succeeded, and 1 for one that did not.
abbrev pub success : ReplayResult → ℕ
success r = if r.succeeded then 1 else 0

abbrev pub failure : ReplayResult → ℕ
failure r = if r.succeeded then 0 else 1

counts-total :
    (rs : List ReplayResult)
    → (succeeded_count rs ≡ total success rs)
      × (failed_count rs ≡ total failure rs)
      × (succeeded_count rs + failed_count rs ≡ length (result_ids rs))
counts-total [] = (refl, refl, refl)
counts-total (r ∷ rs) = ground (arith, counts-total rs)

-- No result is counted as failed exactly if all have succeeded.
none_failed : (rs : List ReplayResult) → (failed_count rs ≡ 0) ↔ All (λ r. r.succeeded ≡ true) rs
none_failed [] = (λ h. tt, λ h. refl)
none_failed (r ∷ rs) =
    let (down, up) = none_failed rs in
    (λ h. (ground arith, down (ground arith)), λ h. ground (arith, up h.1))

-- The exit code of a report with a number of failures.
exit_code :
    (rs : List ReplayResult)
    → let code : ℕ = if failed_count rs == 0 then 0 else 2 in
      ((code ≡ 0) ⊎ (code ≡ 2)) × ((code ≡ 0) ↔ All (λ r. r.succeeded ≡ true) rs)
exit_code rs =
    let (down, up) = none_failed rs in
    elim (Bool-cases (failed_count rs == 0)) [
      | inl e ↦ rw e (inl refl, (λ h. down (ground arith), λ h. refl))
      | inr e ↦ rw e (inr refl, (λ h. cc, λ h. let all_fine = up h in ground arith))
    ]

module _ {F : Type 0} where
  -- The report of a replay of rows with the ids: a result for each, `replayed` and
  -- `still_failing` count those that succeeded and those that did not, and the code is 0 exactly if
  -- all succeeded.
  abbrev pub Reports : List ℕ → Output F → ℕ → Type 0
  Reports ids (every n m rs) code =
      (result_ids rs ≡ ids)
      × (n ≡ total success rs)
      × (m ≡ total failure rs)
      × (n + m ≡ length ids)
      × ((code ≡ 0) ⊎ (code ≡ 2))
      × ((code ≡ 0) ↔ All (λ r. r.succeeded ≡ true) rs)
      × All IsHonest rs
  Reports ids _ code = ⊥

  -- The report of a replay of the row with an id.
  abbrev pub ReportsOne : ℕ → List (DeadLetterRow F) → Output F → ℕ → Type 0
  ReportsOne n rows (no_row k) code = (k ≡ n) × (code ≡ 1) × All (λ r. r.id ≢ n) rows
  ReportsOne n rows (single r) code =
      (r.row_id ≡ n) × (code ≡ (if r.succeeded then 0 else 1)) × IsHonest r
  ReportsOne n rows _ code = ⊥

  -- What holds of the output and the code of a command that has ended by itself.
  abbrev pub Ensures : (Output F → ℕ → Type 0) → Progress F → Type 0
  Ensures P going = ⊤
  Ensures P (exits out code) = P out code
  Ensures P (raises e) = ⊤

  all_exit-Reports :
      (ids : List ℕ) (r : Replay F) → IsSound ids r → Ensures (Reports ids) (all_exit r)
  all_exit-Reports ids (walks rows results) s = tt
  all_exit-Reports ids (asks row rows results) s = tt
  all_exit-Reports ids (waits row i rows results) s = tt
  all_exit-Reports ids (aborted e results) s = tt
  all_exit-Reports ids (finished rs) s =
      let (succeeded, failed, both) = counts-total rs in
      let (codes, zero_iff) = exit_code rs in
      (s.accounts, succeeded, failed, rw (← s.accounts) both, codes, zero_iff, s.honest)

  one_exit-ReportsOne :
      (n : ℕ) (rows : List (DeadLetterRow F)) (r : Replay F)
      → IsSound (n ∷ []) r
      → Ensures (ReportsOne n rows) (one_exit r)
  one_exit-ReportsOne n rows (walks left results) s = tt
  one_exit-ReportsOne n rows (asks row left results) s = tt
  one_exit-ReportsOne n rows (waits row i left results) s = tt
  one_exit-ReportsOne n rows (aborted e results) s = tt
  one_exit-ReportsOne n rows (finished []) s = tt
  one_exit-ReportsOne n rows (finished (r ∷ rs)) s = (ground arith, refl, s.honest.0)

  -- What a search for an id has found.
  abbrev Found : ℕ → List (DeadLetterRow F) → Option (DeadLetterRow F) → Type 0
  Found n rows none = All (λ r. r.id ≢ n) rows
  Found n rows (some row) = row.id ≡ n

  further :
      (n : ℕ) (r : DeadLetterRow F) (rs : List (DeadLetterRow F)) (x : Option (DeadLetterRow F))
      → r.id ≢ n
      → Found n rs x
      → Found n (r ∷ rs) x
  further n r rs none h f = (h, f)
  further n r rs (some row) h f = f

  target-Found : (n : ℕ) (rows : List (DeadLetterRow F)) → Found n rows (target n rows)
  unfolding target
  target-Found n [] = tt
  target-Found n (r ∷ rs) = elim (Bool-cases (r.id == n)) [
    | inl e ↦ rw e (ground arith)
    | inr e ↦ rw e (further n r rs (target n rs) (ground arith) (target-Found n rs))
  ]

module _ {F : Type 0} ⦃o : Float F⦄ (w : World F) where
  -- Where `dlq replay` of all rows comes to its report, on a client that has started, over any
  -- order of the steps of the client before the rows are read and of the steps beside the replay,
  -- the report has one result for each row of the snapshot, in its order; `replayed` counts the
  -- results that succeeded and `still_failing` those that did not, which together are as many as
  -- the rows; each result carries an error exactly if it did not succeed; and the exit code is 0 or
  -- 2, and 0 exactly if every replay succeeded.
  pub replay_all-Reports :
      (fresh_id : String) (now : F) (rows : List (DeadLetterRow F)) (c : Client F)
      (ws : List (Worker F)) (before : List (Event F)) (todo : List (Act F)) (d : Storage F)
      → list_dead_letter fresh_id now 10000 (run w (started_system w c ws) before).client.storage
        ≡ (ok rows, d)
      → Ensures (Reports (row_ids rows)) (replay_on w fresh_id now none (running c ws) before todo)
  unfolding begins replay_all
  replay_all-Reports fresh_id now rows c ws before todo d e =
      let s = run w (started_system w c ws) before in
      rw e (
        all_exit-Reports (row_ids rows) (run_session w (session_of w s (walks rows [])) todo).replay
          (run_session-IsSound w rows s todo))

  targeted-ReportsOne :
      (n : ℕ) (rows : List (DeadLetterRow F)) (x : Option (DeadLetterRow F)) (s : System F)
      (todo : List (Act F))
      → Found n rows x
      → Ensures (ReportsOne n rows) (followed w (targeted n x) s todo)
  unfolding replay_entry
  targeted-ReportsOne n rows none s todo h = (refl, refl, h)
  targeted-ReportsOne n rows (some row) s todo h =
      one_exit-ReportsOne n rows (run_session w (session_of w s (walks (row ∷ []) [])) todo).replay
        (subst
          (λ k. IsSound (k ∷ []) (run_session w (session_of w s (walks (row ∷ []) [])) todo).replay)
          h (run_session-IsSound w (row ∷ []) s todo))

  -- Where `dlq replay --id` comes to its end, over any order of the steps beside it, it prints
  -- either that there is no row, with exit code 1, and no row of the snapshot has the id, or the
  -- result of a row with the id, with exit code 0 if it succeeded and 1 otherwise.
  pub replay_one-ReportsOne :
      (fresh_id : String) (now : F) (n : ℕ) (rows : List (DeadLetterRow F)) (c : Client F)
      (ws : List (Worker F)) (before : List (Event F)) (todo : List (Act F)) (d : Storage F)
      → list_dead_letter fresh_id now 10000 (run w (started_system w c ws) before).client.storage
        ≡ (ok rows, d)
      → Ensures (ReportsOne n rows) (replay_on w fresh_id now (some n) (running c ws) before todo)
  unfolding begins
  replay_one-ReportsOne fresh_id now n rows c ws before todo d e =
      let s = run w (started_system w c ws) before in
      rw e (targeted-ReportsOne n rows (target n rows) s todo (target-Found n rows))
