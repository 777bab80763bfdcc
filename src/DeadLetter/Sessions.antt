-- ===== src/DeadLetter/Sessions.antt =====
-- dead_letter.py: a replay beside the tasks of the client, over all orders of steps.
use mathlib.Core.List.{List}
use python_async_api_barebon.Base.{String, [], ◌∷◌}
use python_async_api_barebon.Base.Float.{Float}
use python_async_api_barebon.Client.State.{World}
use python_async_api_barebon.Client.System.Carriers.{carriers}
use python_async_api_barebon.Client.System.Defs.{requests, step, Event, System}
use python_async_api_barebon.Client.System.Consistent.{IsConsistent}
use python_async_api_barebon.Client.System.Invariant.{step-IsConsistent}
use python_async_api_barebon.DeadLetter.Defs.{
  replay_step, Replay, walks, asks, waits, finished, aborted,
}
use python_async_api_barebon.Dedup.{}

pub record Session (F : Type 0) : Type 0 where
  pub system : System F
  pub replay : Replay F

-- A step of the client's tasks, or of the replay with the identifier and time of its request.
pub data Act (F : Type 0) : Type 0 where
  tasks : Event F → Act F
  replays : String → F → Act F

module _ {F : Type 0} ⦃o : Float F⦄ (w : World F) where
  unfoldable pub act : Session F → Act F → Session F
  act s (tasks e) = record s { system = step w s.system e }
  act s (replays id at) =
      let (t, r) = replay_step w id at s.replay s.system in record { system = t; replay = r }

  unfoldable pub run_session : Session F → List (Act F) → Session F
  run_session s [] = s
  run_session s (a ∷ rest) = run_session (act s a) rest

  replay_step-IsConsistent :
      (id : String) (at : F) (r : Replay F) (t : System F)
      → IsConsistent w t
      → IsConsistent w (replay_step w id at r t).0
  unfolding replay_step carriers
  replay_step-IsConsistent id at (walks [] results) t inv = inv
  replay_step-IsConsistent id at (walks (row ∷ rows) results) t inv = record {
    registry = inv.registry;
    owned = inv.owned;
    counted = inv.counted;
  }
  replay_step-IsConsistent id at (asks row rows results) t inv =
      let r = row.request in
      step-IsConsistent w t (requests id at r.method r.url r.params r.headers r.body r.priority) inv
  replay_step-IsConsistent id at (waits row i rows results) t inv = inv
  replay_step-IsConsistent id at (finished results) t inv = inv
  replay_step-IsConsistent id at (aborted e results) t inv = inv

  -- A replay keeps the client consistent, in any order of its steps and those of the client's
  -- tasks.
  pub run_session-IsConsistent :
      (s : Session F) (todo : List (Act F))
      → IsConsistent w s.system
      → IsConsistent w (run_session s todo).system
  unfolding run_session act
  run_session-IsConsistent s [] inv = inv
  run_session-IsConsistent s (tasks e ∷ rest) inv =
      run_session-IsConsistent (act s (tasks e)) rest (step-IsConsistent w s.system e inv)
  run_session-IsConsistent s (replays id at ∷ rest) inv =
      run_session-IsConsistent (act s (replays id at)) rest
        (replay_step-IsConsistent id at s.replay s.system inv)
