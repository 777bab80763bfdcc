-- ===== src/Storage/Inflight.antt =====
-- The methods of Storage on `inflight_requests`.
use python_async_api_barebon.Base.{
  ℕ, ◌+◌, ⊤, String, Option, none, some, List, [], ◌∷◌, str_eq, if◌then◌else◌,
}
use python_async_api_barebon.Base.Float.{Float}
use python_async_api_barebon.Errors.{other}
use python_async_api_barebon.Exec.{Result, ok, err, Exec}
use python_async_api_barebon.Models.{Value, Request, Platform, from_storage, idempotency_key}
use python_async_api_barebon.Storage.Tables.{
  Status, status_pending, InflightRecord, Storage, InflightRow, with_connection, document, find_row,
}

-- COALESCE(?, last_error)
abbrev pub coalesce : Option String → Option String → Option String
coalesce none old = old
coalesce (some new) old = some new

module _ {F : Type 0} where
  -- UPDATE ... WHERE idempotency_key = ?
  unfoldable pub update_row :
      String
      → (InflightRecord F → InflightRecord F)
      → List (InflightRecord F)
      → List (InflightRecord F)
  update_row k f [] = []
  update_row k f (r ∷ rs) =
      let rest = update_row k f rs in (if str_eq r.idempotency_key k then f r else r) ∷ rest

  -- INSERT ... ON CONFLICT(idempotency_key) DO UPDATE SET status, retry_count, last_error,
  -- updated_at: a row that is there keeps its payload, its request_id and its created_at.
  unfoldable pub upsert_row : InflightRecord F → List (InflightRecord F) → List (InflightRecord F)
  upsert_row new [] = new ∷ []
  upsert_row new (r ∷ rs) =
      if str_eq r.idempotency_key new.idempotency_key
      then record r {
        status = new.status;
        retry_count = new.retry_count;
        last_error = new.last_error;
        updated_at = new.updated_at;
      }
        ∷ rs
      else r ∷ upsert_row new rs

  -- DELETE ... WHERE idempotency_key = ?
  unfoldable pub delete_row : String → List (InflightRecord F) → List (InflightRecord F)
  delete_row k [] = []
  delete_row k (r ∷ rs) =
      let rest = delete_row k rs in if str_eq r.idempotency_key k then rest else r ∷ rest

  abbrev pub new_row :
      String → Request F → Status → ℕ → Option String → F → Value F → InflightRecord F
  new_row key r status retry_count last_error now payload = record {
    idempotency_key = key;
    request_id = r.request_id;
    payload = payload;
    status = status;
    retry_count = retry_count;
    last_error = last_error;
    created_at = now;
    updated_at = now;
  }

  abbrev upsert_document :
      String
      → Request F
      → Status
      → ℕ
      → Option String
      → F
      → Result F (Value F)
      → Exec F (Storage F) ⊤
  upsert_document key r status retry_count last_error now (err e) s = (err e, s)
  upsert_document key r status retry_count last_error now (ok payload) s =
      with_connection
        (λ t. (
          ok tt,
          record t {
            inflight =
                upsert_row (new_row key r status retry_count last_error now payload) t.inflight;
          },
        ))
        s

  unfoldable pub upsert_inflight :
      Platform F → F → Request F → Status → ℕ → Option String → Exec F (Storage F) ⊤
  upsert_inflight p now r status retry_count last_error =
      upsert_document (idempotency_key p r) r status retry_count last_error now (document r)

  unfoldable pub mark_inflight_status : F → String → Status → Option String → Exec F (Storage F) ⊤
  mark_inflight_status now key status last_error = with_connection λ t. (
    ok tt,
    record t {
      inflight =
          update_row key
            (λ r. record r {
              status = status;
              last_error = coalesce last_error r.last_error;
              updated_at = now;
            })
            t.inflight;
    },
  )

  abbrev count_of : Option (InflightRecord F) → ℕ
  count_of none = 0
  count_of (some r) = r.retry_count

  -- The counter's new value, read back after the update; 0 if the row is missing.
  unfoldable pub increment_retry : F → String → String → Exec F (Storage F) ℕ
  increment_retry now key last_error = with_connection λ t.
      let rows =
        update_row key
          (λ r. record r {
            retry_count = r.retry_count + 1;
            status = status_pending;
            last_error = some last_error;
            updated_at = now;
          })
          t.inflight in
      (ok (count_of (find_row key rows)), record t { inflight = rows })

  unfoldable pub delete_inflight : String → Exec F (Storage F) ⊤
  delete_inflight key =
      with_connection λ t. (ok tt, record t { inflight = delete_row key t.inflight })

  abbrev with_request : InflightRecord F → Option (Request F) → Result F (InflightRow F)
  with_request r none = err (other "KeyError" "")
  with_request r (some request) = ok (record {
    idempotency_key = r.idempotency_key;
    request_id = r.request_id;
    request = request;
    status = r.status;
    retry_count = r.retry_count;
    last_error = r.last_error;
    created_at = r.created_at;
    updated_at = r.updated_at;
  })

  abbrev cons_row :
      Result F (InflightRow F) → Result F (List (InflightRow F)) → Result F (List (InflightRow F))
  cons_row (err e) rest = err e
  cons_row (ok r) (err e) = err e
  cons_row (ok r) (ok rs) = ok (r ∷ rs)

module _ {F : Type 0} ⦃o : Float F⦄ where
  -- The rows read: what is missing in a payload is filled with this identifier and this time.
  unfoldable pub read_rows : String → F → List (InflightRecord F) → Result F (List (InflightRow F))
  read_rows fresh_id now [] = ok []
  read_rows fresh_id now (r ∷ rs) =
      cons_row (with_request r (from_storage fresh_id now r.payload)) (read_rows fresh_id now rs)

  unfoldable pub insert_oldest :
      InflightRecord F → List (InflightRecord F) → List (InflightRecord F)
  insert_oldest r [] = r ∷ []
  insert_oldest r (x ∷ xs) =
      if o.lt x.created_at r.created_at then x ∷ insert_oldest r xs else r ∷ x ∷ xs

  -- ORDER BY created_at ASC: rows of one time in the order of the table.
  unfoldable pub oldest_first : List (InflightRecord F) → List (InflightRecord F)
  oldest_first [] = []
  oldest_first (r ∷ rs) = insert_oldest r (oldest_first rs)

  unfoldable pub list_inflight : String → F → Exec F (Storage F) (List (InflightRow F))
  list_inflight fresh_id now =
      with_connection λ t. (read_rows fresh_id now (oldest_first t.inflight), t)
