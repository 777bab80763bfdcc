-- ===== src/Storage.antt =====
-- async_hardened_client/storage.py: the two tables, and the statements that read and write them.
pub mod Tables
pub mod Inflight
pub mod DeadLetters
pub use Tables.{
  Status, status_pending, status_in_progress, InflightRecord, DeadLetterRecord, Storage,
  InflightRow, DeadLetterRow,
}
unfoldable pub use Tables.{
  new_storage, open_storage, close_storage, find_row, with_connection, document,
}
unfoldable pub use Inflight.{
  upsert_inflight, mark_inflight_status, increment_retry, delete_inflight, list_inflight,
}
unfoldable pub use DeadLetters.{
  push_dead_letter, list_dead_letter, remove_dead_letter, purge_dead_letter,
}
pub mod Rows
pub mod Presence
pub mod Writes
pub mod Listing
pub mod Letters
pub mod Book
pub mod Represented
