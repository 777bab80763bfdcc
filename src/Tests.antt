-- ===== src/Tests.antt =====
-- Concrete inputs, and each theorem with conditions applied to one.
mod Numbers
mod Worlds
mod Retries
mod Breakers
mod Limits
mod Shared
mod Stores
mod Systems
mod Ledgers
mod Starts
mod Interruptions
mod Operators
