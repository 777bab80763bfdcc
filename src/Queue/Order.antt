-- ===== src/Queue/Order.antt =====
-- async_hardened_client/queue.py: the queue is first in, first out, and bounded, and `join` waits
-- for the items that are out.
use python_async_api_barebon.Base.{
  ℕ, ◌+◌, ◌≤◌, ⊤, Bool, true, false, Option, none, some, List, [], ◌∷◌, ◌++◌, ◌≡◌,
}
use python_async_api_barebon.Base.Lists.{length}
use python_async_api_barebon.Exec.{Result, ok, err}
use python_async_api_barebon.Queue.Defs.{
  QueueItem, RequestQueue, enqueue, dequeue, try_enqueue, task_done,
}

pub data Event (F : Type 0) : Type 0 where
  puts : QueueItem F → Event F
  tries : QueueItem F → Event F
  gets : Event F
  finishes : Event F

-- A run of operations: the items that went in, those that came out, the calls of `task_done`, and
-- the queue.
pub record Log (F : Type 0) : Type 0 where
  pub accepted : List (QueueItem F)
  pub delivered : List (QueueItem F)
  pub finished : ℕ
  pub queue : RequestQueue F

module _ {F : Type 0} where
  abbrev put_in : QueueItem F → Option (RequestQueue F) → Log F → Log F
  put_in item none l = l
  put_in item (some q) l = record l { accepted = l.accepted ++ item ∷ []; queue = q }

  abbrev tried : QueueItem F → Bool × RequestQueue F → Log F → Log F
  tried item (true, q) l = record l { accepted = l.accepted ++ item ∷ []; queue = q }
  tried item (false, q) l = record l { queue = q }

  abbrev take_out : Option (QueueItem F × RequestQueue F) → Log F → Log F
  take_out none l = l
  take_out (some (item, q)) l = record l { delivered = l.delivered ++ item ∷ []; queue = q }

  abbrev finish : Result F ⊤ × RequestQueue F → Log F → Log F
  finish (ok x, q) l = record l { finished = l.finished + 1; queue = q }
  finish (err e, q) l = record l { queue = q }

  -- A put on a full queue and a get on an empty one wait: they are no steps.
  unfoldable pub step : Log F → Event F → Log F
  step l (puts item) = put_in item (enqueue item l.queue) l
  step l (tries item) = tried item (try_enqueue item l.queue) l
  step l gets = take_out (dequeue l.queue) l
  step l finishes = finish (task_done l.queue) l

  unfoldable pub run : Log F → List (Event F) → Log F
  run l [] = l
  run l (e ∷ es) = run (step l e) es

  abbrev pub start : ℕ → Log F
  start max_size = record {
    accepted = [];
    delivered = [];
    finished = 0;
    queue = record { items = []; max_size = max_size; unfinished = 0 };
  }

  pub record IsConsistent (n : ℕ) (l : Log F) : Type 0 where
    pub fifo : l.delivered ++ l.queue.items ≡ l.accepted
    pub bounded : length l.queue.items ≤ n
    pub size : l.queue.max_size ≡ n
    pub counted : l.queue.unfinished + l.finished ≡ length l.accepted
