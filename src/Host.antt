-- ===== src/Host.antt =====
-- The host driver, extras/driver/src.
pub mod Stream
pub mod Transfers
pub mod Exec
pub mod Driver
pub mod Enumerator
pub mod Watcher
