-- ===== src/Client.antt =====
-- async_hardened_client/client.py: the orchestrator, as the tasks that run on the event loop.
pub mod State
pub mod Execute
pub mod Body
pub mod Worker
pub mod Tasks
pub mod Start
pub mod System
pub mod Snapshot
