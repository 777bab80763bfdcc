-- ===== src/MockServer.antt =====
-- mock_server/app.py: the server of the integration tests, which fails as its profile says.
pub mod State
pub mod Flaky
pub mod Admin
pub mod Counts
pub mod Bucket
