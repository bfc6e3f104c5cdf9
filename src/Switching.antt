-- ===== src/Switching.antt =====
-- internal/switching: the switch of the live login from one account to another.
pub mod Provenance
pub mod Classify
pub mod Transaction
pub mod Shared
pub mod Normal
pub mod Direct
pub mod Perform
pub mod Strategies
