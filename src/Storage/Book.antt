-- ===== src/Storage/Book.antt =====
-- async_hardened_client/storage.py: the two tables refine maps from keys and from ids to rows.
use python_async_api_barebon.Base.{
  str_eq, ◌+◌, ◌==◌, ◌≡◌, if◌then◌else◌, some, none, true, false, [], ◌∷◌, List, ℕ, Bool, String,
  Option,
}
use python_async_api_barebon.Models.{
  is_serializable, to_storage, idempotency_key, Platform, Request,
}
use python_async_api_barebon.Storage.{
  purge_dead_letter, remove_dead_letter, push_dead_letter, delete_inflight, increment_retry,
  mark_inflight_status, upsert_inflight, close_storage, find_row, status_pending, open_storage,
  Storage,
}
use python_async_api_barebon.Storage.DeadLetters.{new_letter}
use python_async_api_barebon.Storage.Inflight.{new_row, coalesce}
use python_async_api_barebon.Storage.Rows.{update_found, merged}
use python_async_api_barebon.Storage.Tables.{DeadLetterRecord, InflightRecord, Status}

-- A method that changes the storage.
pub data Call (F : Type 0) : Type 0 where
  opens : Call F
  closes : Call F
  upserts : F → Request F → Status → ℕ → Option String → Call F
  marks : F → String → Status → Option String → Call F
  increments : F → String → String → Call F
  deletes : String → Call F
  pushes : F → Request F → String → ℕ → Call F
  removes : ℕ → Call F
  purges : Call F

-- What the storage holds, without the order of its rows.
pub record Book (F : Type 0) : Type 0 where
  pub is_open : Bool
  pub rows : String → Option (InflightRecord F)
  pub letters : ℕ → Option (DeadLetterRecord F)
  pub last_id : ℕ

module _ {F : Type 0} where
  unfoldable pub find_letter : ℕ → List (DeadLetterRecord F) → Option (DeadLetterRecord F)
  find_letter n [] = none
  find_letter n (r ∷ rs) = if r.id == n then some r else find_letter n rs

  abbrev pub or_letter :
      Option (DeadLetterRecord F) → Option (DeadLetterRecord F) → Option (DeadLetterRecord F)
  or_letter none new = new
  or_letter (some r) new = some r

  abbrev pub set_row : String → Option (InflightRecord F) → Book F → Book F
  set_row key row b = record b { rows = λ k. if str_eq key k then row else b.rows k }

  abbrev pub marked : F → Status → Option String → InflightRecord F → InflightRecord F
  marked now status e r = record r {
    status = status;
    last_error = coalesce e r.last_error;
    updated_at = now;
  }

  abbrev pub retried : F → String → InflightRecord F → InflightRecord F
  retried now e r = record r {
    retry_count = r.retry_count + 1;
    status = status_pending;
    last_error = some e;
    updated_at = now;
  }

  abbrev pub add_letter : DeadLetterRecord F → Book F → Book F
  add_letter new b = record b {
    letters = λ n. or_letter (b.letters n) (if new.id == n then some new else none);
    last_id = new.id;
  }

  abbrev pub drop_letter : ℕ → Book F → Book F
  drop_letter n b = record b { letters = λ m. if n == m then none else b.letters m }

  module _ (p : Platform F) where
    -- The state behind a call of the method.
    abbrev pub call : Call F → Storage F → Storage F
    call opens s = open_storage s
    call closes s = close_storage s
    call (upserts now r status n e) s = (upsert_inflight p now r status n e s).1
    call (marks now key status e) s = (mark_inflight_status now key status e s).1
    call (increments now key e) s = (increment_retry now key e s).1
    call (deletes key) s = (delete_inflight key s).1
    call (pushes now r e n) s = (push_dead_letter p now r e n s).1
    call (removes n) s = (remove_dead_letter n s).1
    call purges s = (purge_dead_letter s).1

    -- What the method promises, with a connection.
    abbrev pub promised : Call F → Book F → Book F
    promised opens b = b
    promised closes b = b
    promised (upserts now r status n e) b =
        let key = idempotency_key p r in
        let new = new_row key r status n e now (to_storage r) in
        if is_serializable (to_storage r) then set_row key (some (merged new (b.rows key))) b else b
    promised (marks now key status e) b =
        set_row key (update_found (marked now status e) (b.rows key)) b
    promised (increments now key e) b = set_row key (update_found (retried now e) (b.rows key)) b
    promised (deletes key) b = set_row key none b
    promised (pushes now r e n) b =
        let new = new_letter (b.last_id + 1) (idempotency_key p r) r e n now (to_storage r) in
        if is_serializable (to_storage r) then add_letter new b else b
    promised (removes n) b = drop_letter n b
    promised purges b = record b { letters = λ n. none }

    -- Without one a method raises, and changes nothing.
    unfoldable pub keeps_book : Call F → Book F → Book F
    keeps_book opens b = record b { is_open = true }
    keeps_book closes b = record b { is_open = false }
    keeps_book c b = if b.is_open then promised c b else b

    unfoldable pub calls : List (Call F) → Storage F → Storage F
    calls [] s = s
    calls (c ∷ cs) s = calls cs (call c s)

    unfoldable pub keeps_books : List (Call F) → Book F → Book F
    keeps_books [] b = b
    keeps_books (c ∷ cs) b = keeps_books cs (keeps_book c b)

  -- The storage holds what the book says.
  pub record Represents (s : Storage F) (b : Book F) : Type 0 where
    pub same_connection : s.is_open ≡ b.is_open
    pub same_rows : (k : String) → find_row k s.inflight ≡ b.rows k
    pub same_letters : (n : ℕ) → find_letter n s.dead_letters ≡ b.letters n
    pub same_id : s.last_id ≡ b.last_id
