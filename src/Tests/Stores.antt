-- ===== src/Tests/Stores.antt =====
-- The theorems on requests and on the database at concrete inputs.
use mathlib.Core.List.{Perm}
use python_async_api_barebon.Base.{ℕ, ◌<◌, true, none, List, [], ◌∷◌, ◌≡◌, refl, arith}
use python_async_api_barebon.Exec.{ok}
use python_async_api_barebon.Models.{
  Request, is_serializable, int, none_left, field, idempotency_key, to_storage,
}
use python_async_api_barebon.Models.Keys.{swapped, idempotency_key-Reordered}
use python_async_api_barebon.Storage.{
  Storage, InflightRecord, InflightRow, status_pending, find_row, list_inflight, push_dead_letter,
  purge_dead_letter, remove_dead_letter,
}
use python_async_api_barebon.Storage.Book.{
  keeps_books, calls, Book, Call, Represents, find_letter, deletes, pushes, increments, upserts,
}
use python_async_api_barebon.Storage.Represented.{calls-Represents}
use python_async_api_barebon.Storage.Inflight.{new_row}
use python_async_api_barebon.Storage.Letters.{
  removes, purges, run, step, IsNumbered, push_dead_letter_fresh,
}
use python_async_api_barebon.Storage.Listing.{AllReadFrom, IsOldestFirst, list_inflight_returns}
use python_async_api_barebon.Tests.Numbers.{nat_float, nat_laws}
use python_async_api_barebon.Tests.Worlds.{plain, request_to, differ}

abbrev first_query : Request ℕ
first_query = record (request_to "a") { params = field "x" (int 1) (field "y" (int 2) none_left) }

abbrev second_query : Request ℕ
second_query = record (request_to "a") { params = field "y" (int 2) (field "x" (int 1) none_left) }

idempotency_key-Reordered_example :
    idempotency_key plain first_query ≡ idempotency_key plain second_query
idempotency_key-Reordered_example =
    idempotency_key-Reordered plain first_query second_query refl refl
      (swapped "x" "y" (int 1) (int 2) none_left (differ "x" "y" refl)) refl

abbrev empty : Storage ℕ
empty = record { is_open = true; inflight = []; dead_letters = []; last_id = 0 }

abbrev row : InflightRecord ℕ
row =
    new_row (idempotency_key plain first_query) first_query status_pending 0 none 3
      (to_storage first_query)

abbrev with_row : Storage ℕ
with_row = record empty { inflight = row ∷ [] }

list_inflight_returns_example :
    (xs : List (InflightRow ℕ)) × (rows : List (InflightRecord ℕ)) × (list_inflight "fresh" 99
        with_row
      ≡ (ok xs, with_row))
    × AllReadFrom plain xs rows
    × Perm rows (row ∷ [])
    × IsOldestFirst rows
list_inflight_returns_example =
    list_inflight_returns nat_laws plain "fresh" 99 with_row refl
      (record { request = first_query; written = refl; keyed = refl }, tt)

push_dead_letter_fresh_example :
    (1 < 2)
    × IsNumbered plain
        (push_dead_letter plain 9 second_query "gone" 4 (
          run plain
            (push_dead_letter plain 3 first_query "down" 4 empty).1
            (removes 1 ∷ purges ∷ []))).1
unfolding push_dead_letter run to_storage is_serializable step purge_dead_letter remove_dead_letter
push_dead_letter_fresh_example =
    push_dead_letter_fresh plain 3 9 first_query second_query "down" "gone" 4 4 1 2 empty
      (removes 1 ∷ purges ∷ []) (ground arith) refl refl

abbrev empty_book : Book ℕ
empty_book = record { is_open = true; rows = λ k. none; letters = λ n. none; last_id = 0 }

empty_book-Represents : Represents empty empty_book
unfolding find_row find_letter
empty_book-Represents = record {
  same_connection = refl;
  same_rows = λ k. refl;
  same_letters = λ n. refl;
  same_id = refl;
}

-- A row that is written, retried, and moved to the dead letters.
abbrev methods : List (Call ℕ)
methods =
    upserts 3 first_query status_pending 0 none
    ∷ increments 4 "k" "HTTP 500"
    ∷ pushes 5 first_query "down" 1
    ∷ deletes "k"
    ∷ []

calls-Represents_example :
    Represents (calls plain methods empty) (keeps_books plain methods empty_book)
calls-Represents_example = calls-Represents plain methods empty empty_book empty_book-Represents
