-- ===== src/Storage/Tables.antt =====
-- The schema, and the class Storage up to its connection. A row is a record of its columns; a
-- payload, a JSON text in the database, is the document that it stands for. The database is a file:
-- its rows stay when the connection is closed.
use python_async_api_barebon.Base.{
  ℕ, String, Bool, true, false, Option, none, some, List, [], ◌∷◌, str_eq, if◌then◌else◌,
}
use python_async_api_barebon.Errors.{runtime_error, type_error}
use python_async_api_barebon.Exec.{Result, ok, err, Exec}
use python_async_api_barebon.Models.{Value, Request, to_storage, is_serializable}

pub data Status : Type 0 where
  status_pending : Status
  status_in_progress : Status

-- A row of `inflight_requests`.
pub record InflightRecord (F : Type 0) : Type 0 where
  pub idempotency_key : String
  pub request_id : String
  pub payload : Value F
  pub status : Status
  pub retry_count : ℕ
  pub last_error : Option String
  pub created_at : F
  pub updated_at : F

-- A row of `dead_letter_queue`.
pub record DeadLetterRecord (F : Type 0) : Type 0 where
  pub id : ℕ
  pub idempotency_key : String
  pub request_id : String
  pub payload : Value F
  pub error : String
  pub retry_count : ℕ
  pub first_seen : F
  pub last_attempt : F

-- The tables in the order of insertion. `last_id` is the largest id that AUTOINCREMENT has given.
pub record Storage (F : Type 0) : Type 0 where
  pub is_open : Bool
  pub inflight : List (InflightRecord F)
  pub dead_letters : List (DeadLetterRecord F)
  pub last_id : ℕ

-- What the reading methods return.
pub record InflightRow (F : Type 0) : Type 0 where
  pub idempotency_key : String
  pub request_id : String
  pub request : Request F
  pub status : Status
  pub retry_count : ℕ
  pub last_error : Option String
  pub created_at : F
  pub updated_at : F

pub record DeadLetterRow (F : Type 0) : Type 0 where
  pub id : ℕ
  pub idempotency_key : String
  pub request_id : String
  pub request : Request F
  pub error : String
  pub retry_count : ℕ
  pub first_seen : F
  pub last_attempt : F

module _ {F : Type 0} where
  -- A new database file.
  unfoldable pub new_storage : Storage F
  new_storage = record { is_open = false; inflight = []; dead_letters = []; last_id = 0 }

  -- The schema creates only tables that are missing.
  unfoldable pub open_storage : Storage F → Storage F
  open_storage s = record s { is_open = true }

  unfoldable pub close_storage : Storage F → Storage F
  close_storage s = record s { is_open = false }

  -- The property `conn`.
  abbrev pub with_connection : {A : Type 0} → Exec F (Storage F) A → Exec F (Storage F) A
  with_connection m s = if s.is_open then m s else (err (runtime_error "Storage not opened"), s)

  -- `json.dumps(request.to_storage())`
  abbrev pub document : Request F → Result F (Value F)
  document r = if is_serializable (to_storage r) then ok (to_storage r) else err type_error

  -- The row of a key, which is the primary key of the table.
  unfoldable pub find_row : String → List (InflightRecord F) → Option (InflightRecord F)
  find_row k [] = none
  find_row k (r ∷ rs) = if str_eq r.idempotency_key k then some r else find_row k rs
