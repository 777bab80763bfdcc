-- ===== src/Storage/Represented.antt =====
-- async_hardened_client/storage.py: every method keeps the tables to what the maps hold.
use python_async_api_barebon.Base.{
  eq_iff, arith, ◌++◌, ◌+◌, ◌==◌, ◌≡◌, if◌then◌else◌, some, none, true, false, [], ◌∷◌, refl, List,
  ℕ, Bool, String, Option,
}
use python_async_api_barebon.Exec.{Result}
use python_async_api_barebon.Models.{to_storage, idempotency_key, Platform, Request}
use python_async_api_barebon.Storage.{
  with_connection, purge_dead_letter, remove_dead_letter, push_dead_letter, delete_inflight,
  increment_retry, mark_inflight_status, upsert_inflight, close_storage, open_storage, Storage,
}
use python_async_api_barebon.Storage.Book.{
  drop_letter, retried, marked, set_row, or_letter, find_letter, keeps_books, calls, keeps_book,
  call, Represents, Book, Call, purges, removes, pushes, deletes, increments, marks, closes, opens,
  upserts,
}
use python_async_api_barebon.Storage.DeadLetters.{new_letter, without_id}
use python_async_api_barebon.Storage.Inflight.{delete_row, new_row, update_row}
use python_async_api_barebon.Storage.Rows.{
  find_row-update_row, find_row-delete_row, find_row-upsert_row, update_found,
}
use python_async_api_barebon.Storage.Tables.{DeadLetterRecord, InflightRecord, Status}

module _ {F : Type 0} where
  find_letter-append :
      (n : ℕ) (ds : List (DeadLetterRecord F)) (new : DeadLetterRecord F)
      → find_letter n (ds ++ new ∷ [])
        ≡ or_letter (find_letter n ds) (if new.id == n then some new else none)
  unfolding find_letter
  find_letter-append n [] new = refl
  find_letter-append n (d ∷ ds) new = ground (arith, find_letter-append n ds new)

  find_letter-without_id :
      (n m : ℕ) (ds : List (DeadLetterRecord F))
      → find_letter m (without_id n ds) ≡ (if n == m then none else find_letter m ds)
  unfolding find_letter without_id
  find_letter-without_id n m [] = ground arith
  find_letter-without_id n m (d ∷ ds) = ground (arith, find_letter-without_id n m ds)

  updated-Represents :
      (f : InflightRecord F → InflightRecord F) (key : String) (s : Storage F) (b : Book F)
      → ((r : InflightRecord F) → (f r).idempotency_key ≡ r.idempotency_key)
      → Represents s b
      → Represents
          (record s { inflight = update_row key f s.inflight })
          (set_row key (update_found f (b.rows key)) b)
  updated-Represents f key s b keeps h = record {
    same_connection = h.same_connection;
    same_rows = λ k. ground (
      arith,
      find_row-update_row k key f s.inflight keeps,
      h.same_rows k,
      h.same_rows key,
      eq_iff key k,
    );
    same_letters = h.same_letters;
    same_id = h.same_id;
  }

  -- A method behind the test of its connection.
  connected_at :
      {A : Type 0} (x y : Bool) (s : Storage F) (b d : Book F)
      (done refused : Result F A × Storage F)
      → x ≡ y
      → refused.1 ≡ s
      → Represents s b
      → Represents done.1 d
      → Represents (if x then done else refused).1 (if y then d else b)
  connected_at true true s b d done refused e r h k = k
  connected_at false false s b d done refused e r h k = rw r h
  connected_at true false s b d done refused e r h k = cc
  connected_at false true s b d done refused e r h k = cc

  connected :
      {A : Type 0} (a : Result F A) (s t : Storage F) (b d : Book F)
      → Represents s b
      → Represents t d
      → Represents (with_connection (λ u. (a, t)) s).1 (if b.is_open then d else b)
  connected a s t b d h done =
      connected_at s.is_open b.is_open s b d (a, t) _ h.same_connection refl h done

  deleted-Represents :
      (key : String) (s : Storage F) (b : Book F)
      → Represents s b
      → Represents (record s { inflight = delete_row key s.inflight }) (set_row key none b)
  deleted-Represents key s b h = record {
    same_connection = h.same_connection;
    same_rows = λ k. ground (arith, find_row-delete_row k key s.inflight, h.same_rows k);
    same_letters = h.same_letters;
    same_id = h.same_id;
  }

  removed-Represents :
      (n : ℕ) (s : Storage F) (b : Book F)
      → Represents s b
      → Represents (record s { dead_letters = without_id n s.dead_letters }) (drop_letter n b)
  removed-Represents n s b h = record {
    same_connection = h.same_connection;
    same_rows = h.same_rows;
    same_letters = λ m. ground (arith, find_letter-without_id n m s.dead_letters, h.same_letters m);
    same_id = h.same_id;
  }

  purged-Represents :
      (s : Storage F) (b : Book F)
      → Represents s b
      → Represents (record s { dead_letters = [] }) (record b { letters = λ n. none })
  unfolding find_letter
  purged-Represents s b h = record {
    same_connection = h.same_connection;
    same_rows = h.same_rows;
    same_letters = λ m. refl;
    same_id = h.same_id;
  }

  module _ (p : Platform F) where
    upserts-Represents :
        (now : F) (r : Request F) (status : Status) (n : ℕ) (e : Option String) (s : Storage F)
        (b : Book F)
        → Represents s b
        → Represents
            (call p (upserts now r status n e) s)
            (keeps_book p (upserts now r status n e) b)
    unfolding keeps_book upsert_inflight
    upserts-Represents now r status n e s b h =
        let new = new_row (idempotency_key p r) r status n e now (to_storage r) in
        record {
          same_connection = ground (arith, h.same_connection);
          same_rows = λ k. ground (
            arith,
            find_row-upsert_row k new s.inflight,
            h.same_connection,
            h.same_rows k,
            h.same_rows (idempotency_key p r),
          );
          same_letters = λ m. ground (arith, h.same_connection, h.same_letters m);
          same_id = ground (arith, h.same_connection, h.same_id);
        }

    pushes-Represents :
        (now : F) (r : Request F) (e : String) (n : ℕ) (s : Storage F) (b : Book F)
        → Represents s b
        → Represents (call p (pushes now r e n) s) (keeps_book p (pushes now r e n) b)
    unfolding keeps_book push_dead_letter
    pushes-Represents now r e n s b h =
        let new = new_letter (s.last_id + 1) (idempotency_key p r) r e n now (to_storage r) in
        record {
          same_connection = ground (arith, h.same_connection);
          same_rows = λ k. ground (arith, h.same_connection, h.same_rows k);
          same_letters = λ m. ground (
            arith,
            find_letter-append m s.dead_letters new,
            h.same_connection,
            h.same_letters m,
            h.same_id,
          );
          same_id = ground (arith, h.same_connection, h.same_id);
        }

    call-Represents :
        (c : Call F) (s : Storage F) (b : Book F)
        → Represents s b
        → Represents (call p c s) (keeps_book p c b)
    unfolding keeps_book open_storage close_storage mark_inflight_status increment_retry
        delete_inflight remove_dead_letter purge_dead_letter
    call-Represents opens s b h = record {
      same_connection = refl;
      same_rows = h.same_rows;
      same_letters = h.same_letters;
      same_id = h.same_id;
    }
    call-Represents closes s b h = record {
      same_connection = refl;
      same_rows = h.same_rows;
      same_letters = h.same_letters;
      same_id = h.same_id;
    }
    call-Represents (upserts now r status n e) s b h = upserts-Represents now r status n e s b h
    call-Represents (marks now key status e) s b h =
        connected _ s _ b _ h (updated-Represents (marked now status e) key s b (λ r. refl) h)
    call-Represents (increments now key e) s b h =
        connected _ s _ b _ h (updated-Represents (retried now e) key s b (λ r. refl) h)
    call-Represents (deletes key) s b h = connected _ s _ b _ h (deleted-Represents key s b h)
    call-Represents (pushes now r e n) s b h = pushes-Represents now r e n s b h
    call-Represents (removes n) s b h = connected _ s _ b _ h (removed-Represents n s b h)
    call-Represents purges s b h = connected _ s _ b _ h (purged-Represents s b h)

    -- For a database in a file: from two tables that hold what maps from keys and from identifiers
    -- to rows hold, through any calls of the methods that change the storage, opening and closing
    -- included, they go on to hold what the maps hold under the same calls: without a connection,
    -- or for a request that JSON cannot write, nothing changes; a conflict keeps the old payload,
    -- request_id and created_at; an update or a removal reaches its own key or identifier.
    pub calls-Represents :
        (cs : List (Call F)) (s : Storage F) (b : Book F)
        → Represents s b
        → Represents (calls p cs s) (keeps_books p cs b)
    unfolding calls keeps_books
    calls-Represents [] s b h = h
    calls-Represents (c ∷ cs) s b h =
        calls-Represents cs (call p c s) (keeps_book p c b) (call-Represents c s b h)
