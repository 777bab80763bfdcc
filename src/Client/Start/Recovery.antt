-- ===== src/Client/Start/Recovery.antt =====
-- When `_recover_inflight` comes to an end, and when it waits for room in the queue for ever.
use mathlib.Core.List.{append_assoc, append-nil}
use python_async_api_barebon.Base.{
  sym, map, refl, ℕ, ◌+◌, ◌≤◌, ◌<◌, ⊤, String, Option, none, some, List, [], ◌∷◌, ◌++◌, ◌≡◌, ◌≢◌,
  arith, eq_iff, ap, ◌∙◌, leb, Bool-cases, inl, inr,
}
use python_async_api_barebon.Base.Dict.{get, put, get-put}
use python_async_api_barebon.Base.Float.{Float}
use python_async_api_barebon.Base.Lists.{length, All, length-append}
use python_async_api_barebon.Client.Start.{QueueItem, recover_rows, recover_item, bind}
use python_async_api_barebon.Client.State.{Client}
use python_async_api_barebon.Client.System.Carriers.{}
use python_async_api_barebon.Client.Tasks.{started}
use python_async_api_barebon.Dedup.{InFlightRegistry, get_or_create}
use python_async_api_barebon.Dedup.Defs.{attach_or_create, create}
use python_async_api_barebon.Models.{Response}
use python_async_api_barebon.Queue.{enqueue}
use python_async_api_barebon.Storage.{InflightRow}

module _ {F : Type 0} where
  -- A row that the recovery has not met: its key is not in flight, and no later row has it.
  abbrev pub IsFreshIn : InFlightRegistry F (Response F) → List (InflightRow F) → Type 0
  IsFreshIn g rows = All (λ row. get g.inflight row.idempotency_key ≡ none) rows

  abbrev pub AreDistinct : List (InflightRow F) → Type 0
  AreDistinct [] = ⊤
  AreDistinct (row ∷ rows) =
      All (λ r. r.idempotency_key ≢ row.idempotency_key) rows × AreDistinct rows

  get_or_create_fresh :
      (key : String) (g : InFlightRegistry F (Response F))
      → get g.inflight key ≡ none
      → get_or_create key g ≡ create key g
  unfolding get_or_create
  get_or_create_fresh key g e = ap (λ found. attach_or_create key found g) e

  fresh_after :
      (row : InflightRow F) (rows : List (InflightRow F)) (g : InFlightRegistry F (Response F))
      (id : ℕ)
      → IsFreshIn g rows
      → All (λ r. r.idempotency_key ≢ row.idempotency_key) rows
      → All (λ r. get (put g.inflight row.idempotency_key id) r.idempotency_key ≡ none) rows
  fresh_after row [] g id f d = tt
  fresh_after row (r ∷ rows) g id f d = (
    ground (
      arith,
      get-put g.inflight row.idempotency_key r.idempotency_key id,
      eq_iff row.idempotency_key r.idempotency_key,
      f.0,
      d.0,
    ),
    fresh_after row rows g id f.1 d.1,
  )

module _ {F : Type 0} where
  -- The item that the recovery makes of a row.
  abbrev pub item_of : InflightRow F → QueueItem F
  item_of row = record { request = row.request; attempt = row.retry_count }

module _ {F : Type 0} ⦃o : Float F⦄ where
  bind-none :
      (r : Option (Client F)) (f : Client F → Option (Client F)) → r ≡ none → bind r f ≡ none
  bind-none r f e = ap (λ x. bind x f) e

  -- The client with one recovered item more.
  abbrev with_item : InflightRow F → Client F → Client F
  with_item row c =
      let (id, owner, g) = create row.idempotency_key c.dedup in
      record (started (record c { dedup = g })) {
        queue = record c.queue {
          items =
              c.queue.items ++ (record { request = row.request; attempt = row.retry_count }) ∷ [];
          unfinished = c.queue.unfinished + 1;
        };
      }

  recover_item_full :
      (row : InflightRow F) (c : Client F)
      → c.queue.max_size ≤ length c.queue.items
      → recover_item row (create row.idempotency_key c.dedup) c ≡ none
  unfolding enqueue
  recover_item_full row c full = ground arith

  recover_item_room :
      (row : InflightRow F) (c : Client F)
      → length c.queue.items < c.queue.max_size
      → recover_item row (create row.idempotency_key c.dedup) c ≡ some (with_item row c)
  unfolding enqueue
  recover_item_room row c room = ground arith

  -- Rows whose keys are distinct and not in flight, no more than the queue has room for, are all
  -- recovered: the recovery ends with one item for each row behind those that the queue had, in the
  -- order of the rows, with one request more counted as started for each, and with the storage as
  -- it was.
  pub recover_rows_fits :
      (rows : List (InflightRow F)) (c : Client F)
      → IsFreshIn c.dedup rows
      → AreDistinct rows
      → length c.queue.items + length rows ≤ c.queue.max_size
      → (d : Client F) × (recover_rows rows c ≡ some d)
        × (d.queue.items ≡ c.queue.items ++ map item_of rows)
        × (d.storage ≡ c.storage)
        × (d.metrics.requests_started ≡ c.metrics.requests_started + length rows)
  unfolding recover_rows
  recover_rows_fits [] c f d fits = (c, refl, sym (append-nil c.queue.items), refl, omega arith)
  recover_rows_fits (row ∷ rows) c f d fits =
      let longer = length-append c.queue.items (item_of row ∷ []) in
      let (last, done, all, kept, count) =
        recover_rows_fits rows (with_item row c)
          (fresh_after row rows c.dedup (length c.dedup.futures) f.1 d.0) d.1
          (ground (arith, fits, longer)) in
      (
        last,
        ap (λ found. bind (recover_item row found c) (recover_rows rows))
              (get_or_create_fresh row.idempotency_key c.dedup f.0)
            ∙ ap (λ next. bind next (recover_rows rows))
                (recover_item_room row c (ground (arith, fits)))
            ∙ done,
        all ∙ append_assoc c.queue.items (item_of row ∷ []) (map item_of rows),
        kept,
        ground (arith, count),
      )

  -- Rows whose keys are distinct and not in flight, more than the queue has room for, keep the
  -- recovery waiting for ever: it fills the queue before any worker runs.
  pub recover_rows_blocks :
      (rows : List (InflightRow F)) (c : Client F)
      → IsFreshIn c.dedup rows
      → AreDistinct rows
      → length c.queue.items ≤ c.queue.max_size
      → c.queue.max_size < length c.queue.items + length rows
      → recover_rows rows c ≡ none
  unfolding recover_rows
  recover_rows_blocks [] c f d fits over = ground arith
  recover_rows_blocks (row ∷ rows) c f d fits over =
      ap (λ found. bind (recover_item row found c) (recover_rows rows))
        (get_or_create_fresh row.idempotency_key c.dedup f.0)
      ∙ elim (Bool-cases (leb c.queue.max_size (length c.queue.items))) [
        | inl full ↦
            bind-none (recover_item row (create row.idempotency_key c.dedup) c) (recover_rows rows)
              (recover_item_full row c (ground (arith, full)))
        | inr room ↦
            ap (λ next. bind next (recover_rows rows))
              (recover_item_room row c (ground (arith, room)))
            ∙ recover_rows_blocks rows (with_item row c)
                (fresh_after row rows c.dedup (length c.dedup.futures) f.1 d.0) d.1
                (ground (
                  arith,
                  room,
                  length-append c.queue.items
                      ((record { request = row.request; attempt = row.retry_count }) ∷ []),
                ))
                (ground (
                  arith,
                  room,
                  over,
                  length-append c.queue.items
                      ((record { request = row.request; attempt = row.retry_count }) ∷ []),
                ))
      ]
