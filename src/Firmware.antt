-- ===== src/Firmware.antt =====
-- The firmware library, src/UsbIo.h and src/UsbIo.cpp.
pub mod Ring
pub mod State
pub mod Board
pub mod Modes
pub mod Queue
pub mod Watch
pub mod Select
pub mod Out
pub mod Reply
pub mod Setup
pub mod Poll
pub mod Scan
pub mod Sample
pub mod Main
pub mod Invariant
