-- ===== src/Client/System/Crashed.antt =====
-- A crash at any point, and the client that is started on the database that it leaves.
use python_async_api_barebon.Base.{
  sym, subst, false, ℕ, refl, [], suc, zero, arith, ◌≡◌, ◌≤◌, String, List,
}
use python_async_api_barebon.Base.Dict.{get}
use python_async_api_barebon.Base.Float.{FloatLaws, Float}
use python_async_api_barebon.Base.Lists.{length}
use python_async_api_barebon.Base.Sums.{total}
use python_async_api_barebon.Client.Start.{Start, idle_workers, new_client, running, start}
use python_async_api_barebon.Client.Start.Restart.{
  start-Recovers, new_client_lem, rows-le_has_row, opened, Recovers, has_row-le_rows,
}
use python_async_api_barebon.Client.State.{idle, Worker, Client, World}
use python_async_api_barebon.Client.System.Carriers.{
  busy, worker_weight, in_flight, carriers, item_weight,
}
use python_async_api_barebon.Client.System.Defs.{run, Event, System}
use python_async_api_barebon.Client.System.Consistent.{IsConsistent}
use python_async_api_barebon.Client.System.Invariant.{run-IsConsistent}
use python_async_api_barebon.Client.System.Ledger.{weigh}
use python_async_api_barebon.Client.System.Recovered.{recover_rows-IsConsistent}
use python_async_api_barebon.Client.System.Saved.{saves, run-at_stake-le, at_stake}
use python_async_api_barebon.Client.System.Written.{run-IsWritten}
use python_async_api_barebon.Config.{ClientConfig}
use python_async_api_barebon.Dedup.{new_registry}
use python_async_api_barebon.Exec.{ok}
use python_async_api_barebon.Storage.{open_storage, Storage}
use python_async_api_barebon.Storage.Presence.{has_row}
use python_async_api_barebon.Storage.Writes.{IsWritten}

module _ {F : Type 0} ⦃o : Float F⦄ (w : World F) where
  -- The work of each key is consistent, its rows are written, and what is at stake has its row.
  pub record IsSafe (s : System F) : Type 0 where
    pub consistent : IsConsistent w s
    pub written : IsWritten w.platform s.client.storage.inflight
    pub saved : (k : String) → at_stake w.platform k s ≤ has_row k s.client.storage

  pub run-IsSafe : (s : System F) (es : List (Event F)) → IsSafe s → IsSafe (run w s es)
  run-IsSafe s es safe = record {
    consistent = run-IsConsistent w s es safe.consistent;
    written = run-IsWritten w s es safe.consistent safe.written;
    saved = λ k. run-at_stake-le w k s es safe.consistent (safe.saved k);
  }

  -- The tasks behind `start`.
  abbrev pub online_system : Client F → List (Worker F) → System F
  online_system c ws = record { client = c; callers = []; workers = ws; timers = [] }

  idle_weight :
      (weight : Worker F → ℕ) (n : ℕ) → weight idle ≡ 0 → total weight (idle_workers n) ≡ 0
  idle_weight weight zero h = refl
  idle_weight weight (suc n) h = omega (arith, h, idle_weight weight n h)

  new-IsConsistent :
      (c : Client F) (n : ℕ)
      → c.dedup ≡ new_registry
      → c.queue.items ≡ []
      → c.queue.unfinished ≡ 0
      → IsConsistent w (online_system c (idle_workers n))
  unfolding carriers in_flight get new_registry
  new-IsConsistent c n free empty unfinished = record {
    registry = rw free (record { known = λ j id h. cc; apart = λ i j id a b. cc });
    owned = λ k. ground (arith, free, empty, idle_weight (worker_weight w.platform k) n refl);
    counted = ground (arith, empty, unfinished, idle_weight busy n refl);
  }

  -- `_stopping.clear()`
  running-IsConsistent :
      (c : Client F) (ws : List (Worker F))
      → IsConsistent w (online_system c ws)
      → IsConsistent w (online_system (record c { stopping = false }) ws)
  unfolding carriers
  running-IsConsistent c ws inv = record {
    registry = inv.registry;
    owned = inv.owned;
    counted = inv.counted;
  }

  pub restarted-IsSafe :
      (s : Storage F) (c : Client F) (begun : Start F) (r : Recovers w.platform s c begun)
      → IsWritten w.platform s.inflight
      → c.dedup ≡ new_registry
      → c.queue.items ≡ []
      → c.queue.unfinished ≡ 0
      → IsSafe (
          online_system
            (record r.last { stopping = false })
            (idle_workers r.last.cfg.queue.workers))
  unfolding at_stake weigh open_storage
  restarted-IsSafe s c begun r rows free empty unfinished =
      let ws : List (Worker F) = idle_workers r.last.cfg.queue.workers in
      record {
        consistent = running-IsConsistent r.last ws (
            recover_rows-IsConsistent w r.rows (online_system (opened c) ws) r.last
              (new-IsConsistent (opened c) r.last.cfg.queue.workers free empty unfinished) r.keyed
              r.recovered_rows);
        written = subst (λ u. IsWritten w.platform u.inflight) (sym r.stored) rows;
        saved = λ k.
            subst
              (λ u.
                weigh (saves w.platform k) (online_system (record r.last { stopping = false }) ws)
                ≤ has_row k u)
              (sym r.stored)
              (omega (
                arith,
                r.covered k,
                rows-le_has_row k (open_storage s) (rows.once k),
                idle_weight (saves w.platform k).of_worker r.last.cfg.queue.workers refl,
              ));
      }

  -- A crash at any point loses no persisted work. From a system that is safe (each key has the
  -- carriers that its pending future accounts for, the in-flight table holds each key at most once
  -- with a request of that key, and what is at stake has its row), after any order of steps of
  -- callers, workers, reschedules and `stop`, over lawful floats: a new client that is started on
  -- the database as it is then, with no more rows than its queue has room for, comes online with
  -- all that was at stake (the work of each key between the write of its row and the deletion of
  -- it) in its queue, counts one started request for each row, and is safe again.
  pub crash_recovers :
      FloatLaws F o
      → (s : System F) (es : List (Event F)) (fresh_id : String) (now : F) (cfg : ClientConfig F)
        (c : Client F)
      → IsSafe s
      → let t = run w s es in
        let left = t.client.storage in
        new_client cfg left ≡ ok c
        → length left.inflight ≤ cfg.queue.max_size
        → (d : Client F) × (ws : List (Worker F)) × (start fresh_id now c ≡ running d ws)
          × IsSafe (online_system d ws)
          × ((k : String)
              → at_stake w.platform k t ≤ total (item_weight w.platform k) d.queue.items)
          × (d.metrics.requests_started ≡ length left.inflight)
  crash_recovers laws s es fresh_id now cfg c safe new fits =
      let t = run-IsSafe s es safe in
      let left = (run w s es).client.storage in
      let (same, empty, room, free, none_started, unfinished) = new_client_lem cfg left c new in
      let r = start-Recovers laws w.platform fresh_id now cfg left c new t.written fits in
      (
        record r.last { stopping = false },
        idle_workers r.last.cfg.queue.workers,
        r.online,
        restarted-IsSafe left c (start fresh_id now c) r t.written free empty unfinished,
        λ k. omega (arith, t.saved k, r.covered k, has_row-le_rows k left),
        r.count,
      )
