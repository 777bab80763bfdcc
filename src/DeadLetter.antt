-- ===== src/DeadLetter.antt =====
-- async_hardened_client/dead_letter.py: the operators' verbs on the dead-letter queue.
pub mod Defs
pub mod Sessions
pub mod Results
pub mod Removal
pub use Defs.{ReplayResult, Replay, asks, waits, walks, finished, aborted}
unfoldable pub use Defs.{list_entries, purge, replay_entry, replay_all, replay_step}
