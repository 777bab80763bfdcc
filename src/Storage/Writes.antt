-- ===== src/Storage/Writes.antt =====
-- storage.py: the in-flight table holds each key once, with a request of that key.
use python_async_api_barebon.Base.{
  ◌&&◌, Option, Bool, ◌+◌, eq_iff, Bool-cases, arith, str_eq, ℕ, ◌≡◌, ◌≤◌, List, String, some, true,
  false, [], ◌∷◌, refl, inl, inr, if◌then◌else◌,
}
use python_async_api_barebon.Base.Lists.{All}
use python_async_api_barebon.Base.Sums.{total}
use python_async_api_barebon.Models.{
  idempotency_key, to_storage, is_serializable, Request, Platform,
}
use python_async_api_barebon.Storage.{Status, status_pending, push_dead_letter}
use python_async_api_barebon.Storage.Inflight.{
  new_row, delete_inflight, increment_retry, upsert_inflight, delete_row, update_row, upsert_row,
}
use python_async_api_barebon.Storage.Listing.{Holds}
use python_async_api_barebon.Storage.Tables.{Storage, InflightRecord}

module _ {F : Type 0} (k : String) where
  abbrev pub row_weight : InflightRecord F → ℕ
  row_weight r = if str_eq r.idempotency_key k then 1 else 0

  -- The rows of the key in a table.
  unfoldable pub rows_of_key : List (InflightRecord F) → ℕ
  rows_of_key = total row_weight

  rows_of_key-other :
      (new : InflightRecord F) (rs : List (InflightRecord F))
      → str_eq new.idempotency_key k ≡ false
      → rows_of_key (upsert_row new rs) ≡ rows_of_key rs
  unfolding rows_of_key upsert_row
  rows_of_key-other new [] e = ground arith
  rows_of_key-other new (r ∷ rs) e = ground (arith, rows_of_key-other new rs e)

  rows_of_key-upsert_row :
      (new : InflightRecord F) (rs : List (InflightRecord F))
      → rows_of_key rs ≤ 1
      → rows_of_key (upsert_row new rs) ≤ 1
  unfolding rows_of_key upsert_row
  rows_of_key-upsert_row new [] h = ground arith
  rows_of_key-upsert_row new (r ∷ rs) h = elim (Bool-cases (str_eq new.idempotency_key k)) [
    | inl e ↦ ground (
      arith,
      e,
      rows_of_key-upsert_row new rs,
      eq_iff r.idempotency_key k,
      eq_iff new.idempotency_key k,
      eq_iff r.idempotency_key new.idempotency_key,
    )
    | inr e ↦ ground (arith, rows_of_key-other new rs e)
  ]

  rows_of_key-update_row :
      (key : String) (f : InflightRecord F → InflightRecord F) (rs : List (InflightRecord F))
      → ((r : InflightRecord F) → (f r).idempotency_key ≡ r.idempotency_key)
      → rows_of_key (update_row key f rs) ≡ rows_of_key rs
  unfolding rows_of_key update_row
  rows_of_key-update_row key f [] keeps = refl
  rows_of_key-update_row key f (r ∷ rs) keeps =
      ground (arith, keeps r, rows_of_key-update_row key f rs keeps)

  rows_of_key-delete_row :
      (key : String) (rs : List (InflightRecord F))
      → rows_of_key (delete_row key rs) ≤ rows_of_key rs
  unfolding rows_of_key delete_row
  rows_of_key-delete_row key [] = omega arith
  rows_of_key-delete_row key (r ∷ rs) = ground (arith, rows_of_key-delete_row key rs)

module _ {F : Type 0} (p : Platform F) where
  upsert_row-Holds :
      (new : InflightRecord F) (rs : List (InflightRecord F))
      → Holds p new
      → All (Holds p) rs
      → All (Holds p) (upsert_row new rs)
  unfolding upsert_row
  upsert_row-Holds new [] h hs = (h, tt)
  upsert_row-Holds new (r ∷ rs) h (g, hs) =
      elim (Bool-cases (str_eq r.idempotency_key new.idempotency_key)) [
        | inl e ↦ rw e (record { request = g.request; written = g.written; keyed = g.keyed }, hs)
        | inr e ↦ rw e (g, upsert_row-Holds new rs h hs)
      ]

  update_row-Holds :
      (key : String) (f : InflightRecord F → InflightRecord F) (rs : List (InflightRecord F))
      → ((r : InflightRecord F) → Holds p r → Holds p (f r))
      → All (Holds p) rs
      → All (Holds p) (update_row key f rs)
  unfolding update_row
  update_row-Holds key f [] keeps hs = tt
  update_row-Holds key f (r ∷ rs) keeps (h, hs) = elim (Bool-cases (str_eq r.idempotency_key key)) [
    | inl e ↦ rw e (keeps r h, update_row-Holds key f rs keeps hs)
    | inr e ↦ rw e (h, update_row-Holds key f rs keeps hs)
  ]

  delete_row-Holds :
      (key : String) (rs : List (InflightRecord F))
      → All (Holds p) rs
      → All (Holds p) (delete_row key rs)
  unfolding delete_row
  delete_row-Holds key [] hs = tt
  delete_row-Holds key (r ∷ rs) (h, hs) = elim (Bool-cases (str_eq r.idempotency_key key)) [
    | inl e ↦ rw e (delete_row-Holds key rs hs)
    | inr e ↦ rw e (h, delete_row-Holds key rs hs)
  ]

  -- Every row holds a request under the request's own key, and no key has two rows.
  pub record IsWritten (rows : List (InflightRecord F)) : Type 0 where
    pub holds : All (Holds p) rows
    pub once : (k : String) → rows_of_key k rows ≤ 1

  either :
      (is_open : Bool) (rows new : List (InflightRecord F))
      → IsWritten rows
      → IsWritten new
      → IsWritten (if is_open then new else rows)
  either true rows new h g = g
  either false rows new h g = h

  delete_inflight-rows :
      (key : String) (s : Storage F)
      → (delete_inflight key s).1.inflight
        ≡ (if s.is_open then delete_row key s.inflight else s.inflight)
  unfolding delete_inflight
  delete_inflight-rows key s = ground arith

  pub delete_inflight-IsWritten :
      (key : String) (s : Storage F)
      → IsWritten s.inflight
      → IsWritten (delete_inflight key s).1.inflight
  delete_inflight-IsWritten key s h = rw (delete_inflight-rows key s) (
      either s.is_open s.inflight (delete_row key s.inflight) h (record {
        holds = delete_row-Holds key s.inflight h.holds;
        once = λ k. omega (arith, h.once k, rows_of_key-delete_row k key s.inflight);
      }))

  abbrev retried : F → String → InflightRecord F → InflightRecord F
  retried now last_error r = record r {
    retry_count = r.retry_count + 1;
    status = status_pending;
    last_error = some last_error;
    updated_at = now;
  }

  increment_retry-rows :
      (now : F) (key last_error : String) (s : Storage F)
      → (increment_retry now key last_error s).1.inflight
        ≡ (if s.is_open then update_row key (retried now last_error) s.inflight else s.inflight)
  unfolding increment_retry
  increment_retry-rows now key last_error s = ground arith

  pub increment_retry-IsWritten :
      (now : F) (key last_error : String) (s : Storage F)
      → IsWritten s.inflight
      → IsWritten (increment_retry now key last_error s).1.inflight
  increment_retry-IsWritten now key last_error s h =
      rw (increment_retry-rows now key last_error s) (
        either s.is_open s.inflight (update_row key (retried now last_error) s.inflight) h (record {
          holds =
              update_row-Holds key (retried now last_error) s.inflight
                (λ r g. record { request = g.request; written = g.written; keyed = g.keyed })
                h.holds;
          once = λ k. omega (
            arith,
            h.once k,
            rows_of_key-update_row k key (retried now last_error) s.inflight (λ r. refl),
          );
        }))

  abbrev upserted_row : F → Request F → Status → ℕ → Option String → InflightRecord F
  upserted_row now r status retry_count last_error =
      new_row (idempotency_key p r) r status retry_count last_error now (to_storage r)

  upsert_inflight-rows :
      (now : F) (r : Request F) (status : Status) (retry_count : ℕ) (last_error : Option String)
      (s : Storage F)
      → (upsert_inflight p now r status retry_count last_error s).1.inflight ≡ (
          if is_serializable (to_storage r) && s.is_open
          then upsert_row (upserted_row now r status retry_count last_error) s.inflight
          else s.inflight)
  unfolding upsert_inflight
  upsert_inflight-rows now r status retry_count last_error s = ground arith

  pub upsert_inflight-IsWritten :
      (now : F) (r : Request F) (status : Status) (retry_count : ℕ) (last_error : Option String)
      (s : Storage F)
      → IsWritten s.inflight
      → IsWritten (upsert_inflight p now r status retry_count last_error s).1.inflight
  upsert_inflight-IsWritten now r status retry_count last_error s h =
      let new = upserted_row now r status retry_count last_error in
      rw (upsert_inflight-rows now r status retry_count last_error s) (
        either (is_serializable (to_storage r) && s.is_open) s.inflight (upsert_row new s.inflight)
          h
          (record {
            holds =
                upsert_row-Holds new s.inflight
                  (record { request = r; written = refl; keyed = refl }) h.holds;
            once = λ k. rows_of_key-upsert_row k new s.inflight (h.once k);
          }))

  pub push_dead_letter-inflight :
      (now : F) (r : Request F) (error : String) (retry_count : ℕ) (s : Storage F)
      → (push_dead_letter p now r error retry_count s).1.inflight ≡ s.inflight
  unfolding push_dead_letter
  push_dead_letter-inflight now r error retry_count s = ground arith
