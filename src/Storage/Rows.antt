-- ===== src/Storage/Rows.antt =====
-- async_hardened_client/storage.py: the in-flight table as a map from keys to rows.
use python_async_api_barebon.Base.{
  ℕ, ◌+◌, String, true, false, Option, none, some, List, [], ◌∷◌, ◌≡◌, ◌≢◌, refl, arith, eq_iff,
  str_eq, if◌then◌else◌,
}
use python_async_api_barebon.Errors.{type_error}
use python_async_api_barebon.Exec.{ok, err}
use python_async_api_barebon.Models.{
  Request, Platform, to_storage, is_serializable, idempotency_key,
}
use python_async_api_barebon.Storage.Tables.{
  Status, status_pending, InflightRecord, Storage, find_row,
}
use python_async_api_barebon.Storage.Inflight.{
  update_row, upsert_row, delete_row, upsert_inflight, increment_retry, delete_inflight, new_row,
}

module _ {F : Type 0} where
  -- What the conflict clause keeps of an old row.
  abbrev pub merged : InflightRecord F → Option (InflightRecord F) → InflightRecord F
  merged new none = new
  merged new (some r) = record r {
    status = new.status;
    retry_count = new.retry_count;
    last_error = new.last_error;
    updated_at = new.updated_at;
  }

  pub find_row-upsert_row :
      (k : String) (new : InflightRecord F) (rs : List (InflightRecord F))
      → find_row k (upsert_row new rs) ≡ (
          if str_eq new.idempotency_key k
          then some (merged new (find_row new.idempotency_key rs))
          else find_row k rs)
  unfolding find_row upsert_row
  find_row-upsert_row k new [] = refl
  find_row-upsert_row k new (r ∷ rs) = ground (
    arith,
    find_row-upsert_row k new rs,
    eq_iff r.idempotency_key k,
    eq_iff r.idempotency_key new.idempotency_key,
    eq_iff new.idempotency_key k,
  )

  pub find_row-delete_row :
      (j k : String) (rs : List (InflightRecord F))
      → find_row j (delete_row k rs) ≡ (if str_eq k j then none else find_row j rs)
  unfolding find_row delete_row
  find_row-delete_row j k [] = ground arith
  find_row-delete_row j k (r ∷ rs) = ground (
    arith,
    find_row-delete_row j k rs,
    eq_iff r.idempotency_key k,
    eq_iff r.idempotency_key j,
    eq_iff k j,
  )

  abbrev pub update_found :
      (InflightRecord F → InflightRecord F) → Option (InflightRecord F) → Option (InflightRecord F)
  update_found f none = none
  update_found f (some r) = some (f r)

  pub find_row-update_row :
      (j k : String) (f : InflightRecord F → InflightRecord F) (rs : List (InflightRecord F))
      → ((r : InflightRecord F) → (f r).idempotency_key ≡ r.idempotency_key)
      → find_row j (update_row k f rs)
        ≡ (if str_eq k j then update_found f (find_row j rs) else find_row j rs)
  unfolding find_row update_row
  find_row-update_row j k f [] keeps = ground arith
  find_row-update_row j k f (r ∷ rs) keeps = ground (
    arith,
    keeps r,
    find_row-update_row j k f rs keeps,
    eq_iff r.idempotency_key k,
    eq_iff r.idempotency_key j,
    eq_iff (f r).idempotency_key j,
    eq_iff k j,
  )

module _ {F : Type 0} (p : Platform F) where
  -- On an open connection a request that JSON can write gets its row, which the other keys and the
  -- dead letters do not notice: a new one, or the old one with its payload, its request_id and its
  -- created_at kept.
  pub upsert_inflight_row :
      (now : F) (r : Request F) (status : Status) (n : ℕ) (e : Option String) (s : Storage F)
      → s.is_open ≡ true
      → is_serializable (to_storage r) ≡ true
      → let (result, s') = upsert_inflight p now r status n e s in
        let key = idempotency_key p r in
        (result ≡ ok tt)
        × (find_row key s'.inflight
            ≡ some (merged (new_row key r status n e now (to_storage r)) (find_row key s.inflight)))
        × ((j : String) → j ≢ key → find_row j s'.inflight ≡ find_row j s.inflight)
        × (s'.dead_letters ≡ s.dead_letters)
  unfolding upsert_inflight
  upsert_inflight_row now r status n e s opened writes =
      let key = idempotency_key p r in
      let new = new_row key r status n e now (to_storage r) in
      (
        ground arith,
        ground (arith, find_row-upsert_row key new s.inflight, eq_iff key key),
        λ j ne. ground (arith, find_row-upsert_row j new s.inflight, eq_iff key j),
        ground arith,
      )

  -- A request that JSON cannot write, such as one with a body of bytes, raises a TypeError, and no
  -- row is written.
  pub upsert_inflight_refused :
      (now : F) (r : Request F) (status : Status) (n : ℕ) (e : Option String) (s : Storage F)
      → is_serializable (to_storage r) ≡ false
      → upsert_inflight p now r status n e s ≡ (err type_error, s)
  unfolding upsert_inflight
  upsert_inflight_refused now r status n e s h = rw h

module _ {F : Type 0} where
  -- On an open connection `increment_retry` of a key with a row returns one more than the row's
  -- counter, and the row has that counter, the error and the pending status; other keys keep their
  -- rows.
  pub increment_retry_row :
      (now : F) (key error : String) (s : Storage F) (r : InflightRecord F)
      → s.is_open ≡ true
      → find_row key s.inflight ≡ some r
      → let (result, s') = increment_retry now key error s in
        (result ≡ ok (r.retry_count + 1))
        × (find_row key s'.inflight
            ≡ some (record r {
              retry_count = r.retry_count + 1;
              status = status_pending;
              last_error = some error;
              updated_at = now;
            }))
        × ((j : String) → j ≢ key → find_row j s'.inflight ≡ find_row j s.inflight)
  unfolding increment_retry
  increment_retry_row now key error s r opened e =
      let bump = λ (x : InflightRecord F). record x {
        retry_count = x.retry_count + 1;
        status = status_pending;
        last_error = some error;
        updated_at = now;
      } in
      (
        ground (arith, find_row-update_row key key bump s.inflight (λ x. refl), eq_iff key key),
        ground (arith, find_row-update_row key key bump s.inflight (λ x. refl), eq_iff key key),
        λ j ne. ground (arith, find_row-update_row j key bump s.inflight (λ x. refl), eq_iff key j),
      )

  -- On an open connection `delete_inflight` removes the row of its key and no other.
  pub delete_inflight_row :
      (key : String) (s : Storage F)
      → s.is_open ≡ true
      → let (result, s') = delete_inflight key s in
        (result ≡ ok tt)
        × (find_row key s'.inflight ≡ none)
        × ((j : String) → j ≢ key → find_row j s'.inflight ≡ find_row j s.inflight)
  unfolding delete_inflight
  delete_inflight_row key s opened = (
    ground arith,
    ground (arith, find_row-delete_row key key s.inflight, eq_iff key key),
    λ j ne. ground (arith, find_row-delete_row j key s.inflight, eq_iff key j),
  )
