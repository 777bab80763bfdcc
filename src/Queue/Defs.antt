-- ===== src/Queue/Defs.antt =====
-- The class RequestQueue over asyncio.Queue. An operation that would wait answers `none`.
use python_async_api_barebon.Base.{
  ℕ, ◌+◌, ◌-◌, ⊤, Bool, true, false, Option, none, some, List, [], ◌∷◌, ◌++◌, leb, ◌==◌,
  if◌then◌else◌,
}
use python_async_api_barebon.Base.Lists.{length}
use python_async_api_barebon.Errors.{value_error}
use python_async_api_barebon.Exec.{Result, ok, err}
use python_async_api_barebon.Models.{Request}

pub record QueueItem (F : Type 0) : Type 0 where
  pub request : Request F
  pub attempt : ℕ

-- `unfinished` counts the puts whose `task_done` has not been called.
pub record RequestQueue (F : Type 0) : Type 0 where
  pub items : List (QueueItem F)
  pub max_size : ℕ
  pub unfinished : ℕ

module _ {F : Type 0} where
  unfoldable pub new_queue : ℕ → Result F (RequestQueue F)
  new_queue max_size =
      if max_size == 0
      then err (value_error "max_size must be > 0")
      else ok (record { items = []; max_size = max_size; unfinished = 0 })

  unfoldable pub depth : RequestQueue F → ℕ
  depth q = length q.items

  unfoldable pub is_full : RequestQueue F → Bool
  is_full q = leb q.max_size (length q.items)

  abbrev put_item : QueueItem F → RequestQueue F → RequestQueue F
  put_item item q = record q { items = q.items ++ item ∷ []; unfinished = q.unfinished + 1 }

  -- `enqueue`: `none` while the queue is full.
  unfoldable pub enqueue : QueueItem F → RequestQueue F → Option (RequestQueue F)
  unfolding is_full
  enqueue item q = if is_full q then none else some (put_item item q)

  unfoldable pub try_enqueue : QueueItem F → RequestQueue F → Bool × RequestQueue F
  unfolding is_full
  try_enqueue item q = if is_full q then (false, q) else (true, put_item item q)

  abbrev take_first : List (QueueItem F) → RequestQueue F → Option (QueueItem F × RequestQueue F)
  take_first [] q = none
  take_first (item ∷ items) q = some (item, record q { items = items })

  -- `dequeue`: `none` while the queue is empty.
  unfoldable pub dequeue : RequestQueue F → Option (QueueItem F × RequestQueue F)
  dequeue q = take_first q.items q

  -- One call more than the puts raises.
  unfoldable pub task_done : RequestQueue F → Result F ⊤ × RequestQueue F
  task_done q =
      if q.unfinished == 0
      then (err (value_error "task_done() called too many times"), q)
      else (ok tt, record q { unfinished = q.unfinished - 1 })

  -- `join()` returns.
  unfoldable pub is_joined : RequestQueue F → Bool
  is_joined q = q.unfinished == 0
