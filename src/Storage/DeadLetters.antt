-- ===== src/Storage/DeadLetters.antt =====
-- The methods of Storage on `dead_letter_queue`.
use python_async_api_barebon.Base.{
  ℕ, ◌+◌, ⊤, String, Option, none, some, List, [], ◌∷◌, ◌++◌, ◌==◌, if◌then◌else◌,
}
use python_async_api_barebon.Base.Lists.{length, take}
use python_async_api_barebon.Base.Float.{Float}
use python_async_api_barebon.Errors.{other}
use python_async_api_barebon.Exec.{Result, ok, err, Exec}
use python_async_api_barebon.Models.{Value, Request, Platform, from_storage, idempotency_key}
use python_async_api_barebon.Storage.Tables.{
  DeadLetterRecord, DeadLetterRow, Storage, with_connection, document,
}

module _ {F : Type 0} where
  abbrev pub new_letter : ℕ → String → Request F → String → ℕ → F → Value F → DeadLetterRecord F
  new_letter id key r error retry_count now payload = record {
    id = id;
    idempotency_key = key;
    request_id = r.request_id;
    payload = payload;
    error = error;
    retry_count = retry_count;
    first_seen = now;
    last_attempt = now;
  }

  abbrev push_document :
      String → Request F → String → ℕ → F → Result F (Value F) → Exec F (Storage F) ℕ
  push_document key r error retry_count now (err e) s = (err e, s)
  push_document key r error retry_count now (ok payload) s =
      with_connection
        (λ t.
          let id = t.last_id + 1 in
          (
            ok id,
            record t {
              dead_letters =
                  t.dead_letters ++ new_letter id key r error retry_count now payload ∷ [];
              last_id = id;
            },
          ))
        s

  -- The id of the new row.
  unfoldable pub push_dead_letter : Platform F → F → Request F → String → ℕ → Exec F (Storage F) ℕ
  push_dead_letter p now r error retry_count =
      push_document (idempotency_key p r) r error retry_count now (document r)

  -- DELETE ... WHERE id = ?
  unfoldable pub without_id : ℕ → List (DeadLetterRecord F) → List (DeadLetterRecord F)
  without_id n [] = []
  without_id n (r ∷ rs) = let rest = without_id n rs in if r.id == n then rest else r ∷ rest

  unfoldable pub remove_dead_letter : ℕ → Exec F (Storage F) ⊤
  remove_dead_letter n =
      with_connection λ t. (ok tt, record t { dead_letters = without_id n t.dead_letters })

  -- The number of rows that were deleted.
  unfoldable pub purge_dead_letter : Exec F (Storage F) ℕ
  purge_dead_letter =
      with_connection λ t. (ok (length t.dead_letters), record t { dead_letters = [] })

  abbrev with_request : DeadLetterRecord F → Option (Request F) → Result F (DeadLetterRow F)
  with_request r none = err (other "KeyError" "")
  with_request r (some request) = ok (record {
    id = r.id;
    idempotency_key = r.idempotency_key;
    request_id = r.request_id;
    request = request;
    error = r.error;
    retry_count = r.retry_count;
    first_seen = r.first_seen;
    last_attempt = r.last_attempt;
  })

  abbrev cons_row :
      Result F (DeadLetterRow F)
      → Result F (List (DeadLetterRow F))
      → Result F (List (DeadLetterRow F))
  cons_row (err e) rest = err e
  cons_row (ok r) (err e) = err e
  cons_row (ok r) (ok rs) = ok (r ∷ rs)

module _ {F : Type 0} ⦃o : Float F⦄ where
  unfoldable pub read_letters :
      String → F → List (DeadLetterRecord F) → Result F (List (DeadLetterRow F))
  read_letters fresh_id now [] = ok []
  read_letters fresh_id now (r ∷ rs) =
      cons_row (with_request r (from_storage fresh_id now r.payload)) (read_letters fresh_id now rs)

  unfoldable pub insert_newest :
      DeadLetterRecord F → List (DeadLetterRecord F) → List (DeadLetterRecord F)
  insert_newest r [] = r ∷ []
  insert_newest r (x ∷ xs) =
      if o.lt r.last_attempt x.last_attempt then x ∷ insert_newest r xs else r ∷ x ∷ xs

  -- ORDER BY last_attempt DESC
  unfoldable pub newest_first : List (DeadLetterRecord F) → List (DeadLetterRecord F)
  newest_first [] = []
  newest_first (r ∷ rs) = insert_newest r (newest_first rs)

  unfoldable pub list_dead_letter : String → F → ℕ → Exec F (Storage F) (List (DeadLetterRow F))
  list_dead_letter fresh_id now limit =
      with_connection λ t. (read_letters fresh_id now (take limit (newest_first t.dead_letters)), t)
