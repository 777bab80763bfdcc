-- ===== src/Queue.antt =====
-- async_hardened_client/queue.py: the bounded queue of requests.
pub mod Defs
pub mod Order
pub use Defs.{QueueItem, RequestQueue}
unfoldable pub use Defs.{
  new_queue, depth, is_full, enqueue, try_enqueue, dequeue, task_done, is_joined,
}
