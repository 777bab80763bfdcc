-- ===== src/Cli.antt =====
-- async_hardened_client/cli.py: the commands of the operator.
pub mod Defs
pub mod ExitCodes
pub mod Purge
