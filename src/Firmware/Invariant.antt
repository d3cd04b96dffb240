-- ===== src/Firmware/Invariant.antt =====
-- The invariant of the device that src/UsbIo.cpp keeps between its handlers and its phases.
pub mod Events
pub mod Scan
pub mod Streaming
pub mod Selecting
pub mod StreamPoll
pub mod Consistent
pub mod Requests
pub mod Setup
pub mod Poll
pub mod Boot
pub mod Reach
