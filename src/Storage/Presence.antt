-- ===== src/Storage/Presence.antt =====
-- async_hardened_client/storage.py: which statements make and remove the row of a key.
use python_async_api_barebon.Base.{
  eq_iff, Option-cases, ◌⊎◌, ◌≢◌, is_some, str_eq, String, inl, inr, List, some, Option, arith, ◌+◌,
  ◌≡◌, ◌≤◌, if◌then◌else◌, ℕ, refl,
}
use python_async_api_barebon.Errors.{PyError}
use python_async_api_barebon.Exec.{ok, err}
use python_async_api_barebon.Models.{to_storage, idempotency_key, Platform, Request}
use python_async_api_barebon.Storage.{
  InflightRecord, find_row, Status, status_pending, upsert_inflight, delete_inflight,
  push_dead_letter, increment_retry, Storage,
}
use python_async_api_barebon.Storage.Inflight.{new_row, update_row}
use python_async_api_barebon.Storage.Rows.{
  find_row-update_row, find_row-upsert_row, find_row-delete_row,
}

-- Whether a key has a row, as a number.
unfoldable pub has_row : {F : Type 0} → String → Storage F → ℕ
has_row k s = if is_some (find_row k s.inflight) then 1 else 0

module _ {F : Type 0} (k : String) where
  pub has_row-le : (s : Storage F) → has_row k s ≤ 1
  unfolding has_row
  has_row-le s = ground arith

  update_row-has_row :
      (key : String) (f : InflightRecord F → InflightRecord F) (rs : List (InflightRecord F))
      → ((r : InflightRecord F) → (f r).idempotency_key ≡ r.idempotency_key)
      → is_some (find_row k (update_row key f rs)) ≡ is_some (find_row k rs)
  update_row-has_row key f rs keeps = elim (Option-cases (find_row k rs)) [
    | inl e ↦ ground (arith, find_row-update_row k key f rs keeps)
    | inr (r, e) ↦ ground (arith, find_row-update_row k key f rs keeps)
  ]

  pub increment_retry-has_row :
      (now : F) (key error : String) (s : Storage F)
      → has_row k (increment_retry now key error s).1 ≡ has_row k s
  unfolding increment_retry has_row
  increment_retry-has_row now key error s =
      let bump = λ (r : InflightRecord F). record r {
        status = status_pending;
        retry_count = r.retry_count + 1;
        last_error = some error;
        updated_at = now;
      } in
      ground (arith, update_row-has_row key bump s.inflight (λ r. refl))

  pub delete_inflight-has_row :
      (key : String) (s : Storage F)
      → has_row k s ≤ has_row k (delete_inflight key s).1 + (if str_eq key k then 1 else 0)
  unfolding delete_inflight has_row
  delete_inflight-has_row key s = ground (arith, find_row-delete_row k key s.inflight)

  pub delete_refused :
      (key : String) (s : Storage F) (e : PyError F) (t : Storage F)
      → delete_inflight key s ≡ (err e, t)
      → t ≡ s
  unfolding delete_inflight
  delete_refused key s e t h = ground arith

  pub push_dead_letter-has_row :
      (p : Platform F) (now : F) (r : Request F) (error : String) (n : ℕ) (s : Storage F)
      → has_row k (push_dead_letter p now r error n s).1 ≡ has_row k s
  unfolding push_dead_letter has_row
  push_dead_letter-has_row p now r error n s = ground arith

  pub upsert_inflight-has_row :
      (p : Platform F) (now : F) (r : Request F) (status : Status) (n : ℕ) (e : Option String)
      (s : Storage F)
      → (has_row k s ≤ has_row k (upsert_inflight p now r status n e s).1)
        × (((upsert_inflight p now r status n e s).0 ≢ ok tt)
            ⊎ ((if str_eq (idempotency_key p r) k then 1 else 0)
                ≤ has_row k (upsert_inflight p now r status n e s).1))
  unfolding upsert_inflight has_row
  upsert_inflight-has_row p now r status n e s =
      let key = idempotency_key p r in
      ground (
        arith,
        find_row-upsert_row k (new_row key r status n e now (to_storage r)) s.inflight,
        eq_iff key k,
      )
