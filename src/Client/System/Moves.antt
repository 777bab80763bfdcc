-- ===== src/Client/System/Moves.antt =====
-- The cancellation of a task that is in `request`, beside the steps of the system.
use python_async_api_barebon.Base.{if◌then◌else◌, some, none, [], ◌∷◌, List, ℕ, Bool, Option}
use python_async_api_barebon.Base.Float.{Float}
use python_async_api_barebon.Base.Lists.{get_elem?, set}
use python_async_api_barebon.Client.State.{
  Caller, Client, World, persists, enqueues, awaits, refused, abandons,
}
use python_async_api_barebon.Client.System.Defs.{step, System, Event}
use python_async_api_barebon.Dedup.Defs.{cancel}
use python_async_api_barebon.Errors.{PyError, other}
use python_async_api_barebon.Storage.{status_pending, upsert_inflight, Storage}

-- What happens next: a step, or the cancellation of a caller (by its number). A caller that is
-- cancelled in the write of its row has had it written or not.
pub data Move (F : Type 0) : Type 0 where
  goes : Event F → Move F
  cancels_caller : ℕ → F → Bool → Move F

abbrev pub cancelled_error : {F : Type 0} → PyError F
cancelled_error = other "CancelledError" ""

module _ {F : Type 0} where
  abbrev pub write_cut : Storage F → Bool → Client F → Client F
  write_cut s written c = if written then record c { storage = s } else c

module _ {F : Type 0} (w : World F) where
  -- `_submit` when CancelledError is raised at the wait where the caller stands. One that waits for
  -- its future cancels the future itself.
  unfoldable pub cancel_caller : F → Bool → Caller F → Client F → Client F × Caller F
  cancel_caller wall written (persists req id) c =
      let s = (upsert_inflight w.platform wall req status_pending 0 none c.storage).1 in
      (write_cut s written c, abandons req cancelled_error)
  cancel_caller wall written (enqueues req id) c = (c, abandons req cancelled_error)
  cancel_caller wall written (awaits id) c = (record c { dedup = cancel id c.dedup }, awaits id)
  cancel_caller wall written (refused e) c = (c, refused e)
  cancel_caller wall written (abandons req e) c = (c, abandons req e)

module _ {F : Type 0} ⦃o : Float F⦄ (w : World F) where
  abbrev pub interrupt_caller : F → Bool → ℕ → Option (Caller F) → System F → System F
  interrupt_caller wall written i none s = s
  interrupt_caller wall written i (some x) s =
      let (c, x') = cancel_caller w wall written x s.client in
      record s { client = c; callers = set s.callers i x' }

  unfoldable pub move : System F → Move F → System F
  move s (goes e) = step w s e
  move s (cancels_caller i wall written) = interrupt_caller wall written i (get_elem? s.callers i) s

  unfoldable pub run_moves : System F → List (Move F) → System F
  run_moves s [] = s
  run_moves s (m ∷ ms) = run_moves (move s m) ms
