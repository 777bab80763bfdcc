-- ===== src/Client/Start/Restart.antt =====
-- `start` after a crash: what stands in the in-flight table comes back to the queue.
use mathlib.Core.List.{Perm}
use python_async_api_barebon.Base.{
  subst, ◌++◌, ap, sym, ◌∙◌, is_some, str_eq, if◌then◌else◌, eq_iff, map, ◌≢◌, arith, ◌≡◌, ◌≤◌, ℕ,
  List, String, some, true, false, [], ◌∷◌, refl,
}
use python_async_api_barebon.Base.Dict.{get}
use python_async_api_barebon.Base.Float.{FloatLaws, Float}
use python_async_api_barebon.Base.Lists.{All, length}
use python_async_api_barebon.Base.Sums.{length-total, total-Perm, total}
use python_async_api_barebon.Client.Start.{
  Start, workers_online, recovered, ClientConfig, idle_workers, recover_rows, new_client, start,
  running,
}
use python_async_api_barebon.Client.Start.Recovery.{
  recover_rows_fits, IsFreshIn, item_of, AreDistinct,
}
use python_async_api_barebon.Client.State.{Client}
use python_async_api_barebon.Client.System.Carriers.{item_weight}
use python_async_api_barebon.Dedup.{new_registry}
use python_async_api_barebon.Exec.{ok}
use python_async_api_barebon.Metrics.{new_metrics}
use python_async_api_barebon.Models.{idempotency_key, Platform}
use python_async_api_barebon.Queue.{new_queue}
use python_async_api_barebon.Storage.{list_inflight, open_storage, Storage, InflightRow}
use python_async_api_barebon.Storage.Listing.{list_inflight_returns, AllReadFrom}
use python_async_api_barebon.Storage.Presence.{has_row}
use python_async_api_barebon.Storage.Tables.{find_row, InflightRecord}
use python_async_api_barebon.Storage.Writes.{IsWritten, row_weight, rows_of_key}

module _ {F : Type 0} (k : String) where
  abbrev read_weight : InflightRow F → ℕ
  read_weight r = if str_eq r.idempotency_key k then 1 else 0

  found-le :
      (rs : List (InflightRecord F))
      → (if is_some (find_row k rs) then 1 else 0) ≤ total (row_weight k) rs
  unfolding find_row
  found-le [] = omega arith
  found-le (r ∷ rs) = ground (arith, found-le rs)

  found-once :
      (rs : List (InflightRecord F))
      → total (row_weight k) rs ≤ 1
      → total (row_weight k) rs ≤ (if is_some (find_row k rs) then 1 else 0)
  unfolding find_row
  found-once [] h = omega arith
  found-once (r ∷ rs) h = ground (arith, found-once rs)

  pub rows-le_has_row :
      (s : Storage F) → rows_of_key k s.inflight ≤ 1 → rows_of_key k s.inflight ≤ has_row k s
  unfolding has_row rows_of_key
  rows-le_has_row s h = found-once s.inflight h

  pub has_row-le_rows : (s : Storage F) → has_row k s ≤ rows_of_key k s.inflight
  unfolding has_row rows_of_key
  has_row-le_rows s = found-le s.inflight

  total-read :
      (p : Platform F) (xs : List (InflightRow F)) (rs : List (InflightRecord F))
      → AllReadFrom p xs rs
      → (total read_weight xs ≡ total (row_weight k) rs)
        × (total (item_weight p k) (map item_of xs) ≡ total (row_weight k) rs)
  total-read p [] [] h = (refl, refl)
  total-read p (x ∷ xs) (r ∷ rs) (h, hs) = ground (arith, total-read p xs rs hs)
  total-read p [] (r ∷ rs) h = elim h [ ]
  total-read p (x ∷ xs) [] h = elim h [ ]

module _ {F : Type 0} where
  no_other :
      (key : String) (xs : List (InflightRow F))
      → total (read_weight key) xs ≡ 0
      → All (λ r. r.idempotency_key ≢ key) xs
  no_other key [] h = tt
  no_other key (x ∷ xs) h =
      (ground (arith, eq_iff x.idempotency_key key), no_other key xs (ground arith))

  once-AreDistinct :
      (xs : List (InflightRow F)) → ((k : String) → total (read_weight k) xs ≤ 1) → AreDistinct xs
  once-AreDistinct [] h = tt
  once-AreDistinct (x ∷ xs) h = (
    no_other x.idempotency_key xs
        (ground (arith, h x.idempotency_key, eq_iff x.idempotency_key x.idempotency_key)),
    once-AreDistinct xs (λ k. ground (arith, h k)),
  )

  all_fresh : (rows : List (InflightRow F)) → IsFreshIn new_registry rows
  unfolding new_registry get
  all_fresh [] = tt
  all_fresh (r ∷ rs) = (refl, all_fresh rs)

  length-read :
      (p : Platform F) (xs : List (InflightRow F)) (rs : List (InflightRecord F))
      → AllReadFrom p xs rs
      → length xs ≡ length rs
  length-read p [] [] h = refl
  length-read p (x ∷ xs) (r ∷ rs) (h, hs) = omega (arith, length-read p xs rs hs)
  length-read p [] (r ∷ rs) h = elim h [ ]
  length-read p (x ∷ xs) [] h = elim h [ ]

module _ {F : Type 0} (p : Platform F) where
  read-keyed :
      (xs : List (InflightRow F)) (rs : List (InflightRecord F))
      → AllReadFrom p xs rs
      → All (λ x. x.idempotency_key ≡ idempotency_key p x.request) xs
  read-keyed [] [] h = tt
  read-keyed (x ∷ xs) (r ∷ rs) (h, hs) = (h.2, read-keyed xs rs hs)
  read-keyed [] (r ∷ rs) h = elim h [ ]
  read-keyed (x ∷ xs) [] h = elim h [ ]

module _ {F : Type 0} ⦃o : Float F⦄ where
  -- The client when the recovery begins.
  abbrev pub opened : Client F → Client F
  opened c = record c { storage = open_storage c.storage; has_session = true }

  pub new_client_lem :
      (cfg : ClientConfig F) (s : Storage F) (c : Client F)
      → new_client cfg s ≡ ok c
      → (c.storage ≡ s)
        × (c.queue.items ≡ [])
        × (c.queue.max_size ≡ cfg.queue.max_size)
        × (c.dedup ≡ new_registry)
        × (c.metrics.requests_started ≡ 0)
        × (c.queue.unfinished ≡ 0)
  unfolding new_client new_queue new_metrics
  new_client_lem cfg s c e = ground arith

  goes_online :
      (fresh_id : String) (now : F) (s : Storage F) (c : Client F) (rows : List (InflightRow F))
      (d : Client F)
      → c.storage ≡ s
      → list_inflight fresh_id now (open_storage s) ≡ (ok rows, open_storage s)
      → recover_rows rows (record c { storage = open_storage c.storage; has_session = true })
        ≡ some d
      → start fresh_id now c
        ≡ running (record d { stopping = false }) (idle_workers d.cfg.queue.workers)
  unfolding start
  goes_online fresh_id now s c rows d stored listed done =
      let listed' : list_inflight fresh_id now (open_storage c.storage)
          ≡ (ok rows, open_storage c.storage) =
        subst (λ u. list_inflight fresh_id now (open_storage u) ≡ (ok rows, open_storage u))
          (sym stored) listed in
      let c' = record c { storage = open_storage c.storage; has_session = true } in
      ap (λ x. recovered x c') listed' ∙ ap workers_online done

  -- How a start has gone that recovered a database, by what it read and the client that the recovery
  -- has left.
  pub record Recovers (p : Platform F) (s : Storage F) (c : Client F) (begun : Start F)
      : Type 0 where
    pub rows : List (InflightRow F)
    pub last : Client F
    pub keyed : All (λ x. x.idempotency_key ≡ idempotency_key p x.request) rows
    pub recovered_rows : recover_rows rows (opened c) ≡ some last
    pub online :
        begun ≡ running (record last { stopping = false }) (idle_workers last.cfg.queue.workers)
    pub covered : (k : String) → total (item_weight p k) last.queue.items ≡ rows_of_key k s.inflight
    pub count : last.metrics.requests_started ≡ length s.inflight
    pub stored : last.storage ≡ open_storage s

  module _ (p : Platform F) where
    covers :
        (fresh_id : String) (now : F) (s : Storage F) (c : Client F) (xs : List (InflightRow F))
        (rows : List (InflightRecord F))
        → (c.storage ≡ s)
          × (c.queue.items ≡ [])
          × (length s.inflight ≤ c.queue.max_size)
          × (c.dedup ≡ new_registry)
          × (c.metrics.requests_started ≡ 0)
        → list_inflight fresh_id now (open_storage s) ≡ (ok xs, open_storage s)
        → AllReadFrom p xs rows
        → Perm rows s.inflight
        → ((k : String) → rows_of_key k s.inflight ≤ 1)
        → Recovers p s c (start fresh_id now c)
    unfolding rows_of_key
    covers fresh_id now s c xs rows (stored, empty, room, free, none_started) listed read perm
          once =
        let as_many : length xs ≡ length s.inflight =
          length-read p xs rows read
          ∙ length-total rows
          ∙ total-Perm (λ (x : InflightRecord F). 1) perm
          ∙ sym (length-total s.inflight) in
        let (d, done, items, kept, count) =
          recover_rows_fits xs (opened c) (rw free (all_fresh xs))
            (once-AreDistinct xs (λ k.
              omega
                (arith, once k, (total-read k p xs rows read).0, total-Perm (row_weight k) perm)))
            (rw empty (omega (arith, as_many, room))) in
        record {
          rows = xs;
          last = d;
          keyed = read-keyed p xs rows read;
          recovered_rows = done;
          online = goes_online fresh_id now s c xs d stored listed done;
          covered = λ k.
              ap (total (item_weight p k)) (items ∙ ap (λ l. l ++ map item_of xs) empty)
              ∙ (total-read k p xs rows read).1
              ∙ total-Perm (row_weight k) perm;
          count = omega (arith, count, none_started, as_many);
          stored = kept ∙ ap open_storage stored;
        }

  module _ (laws : FloatLaws F o) (p : Platform F) where
    -- Over lawful floats, a new client that is started on a table that is written, with no more
    -- rows than its queue has room for, comes online, with each key's row back in its queue.
    pub start-Recovers :
        (fresh_id : String) (now : F) (cfg : ClientConfig F) (s : Storage F) (c : Client F)
        → new_client cfg s ≡ ok c
        → IsWritten p s.inflight
        → length s.inflight ≤ cfg.queue.max_size
        → Recovers p s c (start fresh_id now c)
    unfolding open_storage
    start-Recovers fresh_id now cfg s c new written fits =
        let (stored, empty, room, free, none_started, unfinished) = new_client_lem cfg s c new in
        let (xs, rows, listed, read, perm, sorted) =
          list_inflight_returns laws p fresh_id now (open_storage s) refl written.holds in
        covers p fresh_id now s c xs rows
          (stored, empty, omega (arith, room, fits), free, none_started) listed read perm
          written.once
