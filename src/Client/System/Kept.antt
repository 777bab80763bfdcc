-- ===== src/Client/System/Kept.antt =====
-- What a segment of a worker does to the work of one key.
use python_async_api_barebon.Base.{arith, ◌+◌, ◌<◌, ◌≡◌, ℕ, String}
use python_async_api_barebon.Base.Float.{Float}
use python_async_api_barebon.Base.Sums.{total}
use python_async_api_barebon.Client.State.{waits, Client, Worker, World}
use python_async_api_barebon.Client.System.Carriers.{busy, item_weight, timer_weight, worker_weight}
use python_async_api_barebon.Client.System.Segments.{Ends, Lands}
use python_async_api_barebon.Client.Worker.Gate.{Outcome}
use python_async_api_barebon.Queue.{QueueItem}

module _ {F : Type 0} ⦃o : Float F⦄ (w : World F) (k : String) where
  -- The registry and the items in the queue stay; the item is still in hand, also of a worker that
  -- died, and `task_done` is called exactly if the worker is not busy.
  pub record Keeps (item : QueueItem F) (c : Client F) (out : Outcome F) : Type 0 where
    pub same_dedup : out.0.dedup ≡ c.dedup
    pub same_items : out.0.queue.items ≡ c.queue.items
    pub held :
        worker_weight w.platform k out.1 + total (timer_weight w.platform k) out.2
        ≡ item_weight w.platform k item
    pub reported : out.0.queue.unfinished + 1 ≡ c.queue.unfinished + busy out.1

  pub Lands-weight :
      (limit : ℕ) (item : QueueItem F) (x : Worker F)
      → Lands limit item x
      → worker_weight w.platform k x ≡ item_weight w.platform k item
  Lands-weight limit item (waits i id delay) h = ground arith
  Lands-weight limit item _ h = ground arith

  pub Ends-Keeps :
      (item : QueueItem F) (c : Client F) (out : Outcome F)
      → 0 < c.queue.unfinished
      → Ends w item c out
      → Keeps item c out
  Ends-Keeps item c out h ends = record {
    same_dedup = ends.same_dedup;
    same_items = ends.same_items;
    held =
        ground (arith, ends.no_timers, Lands-weight c.cfg.retry.max_retries item out.1 ends.lands);
    reported = ends.reported h;
  }
