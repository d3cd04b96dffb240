-- ===== src/Protocol.antt =====
-- The wire protocol of src/usbio_protocol.h and its C++ view, extras/driver/include/arduino_driver/Protocol.h.
pub mod Status
pub mod Mode
pub mod Edge
pub mod Flag
pub mod StreamFlag
pub mod Limit
pub mod Request
pub mod Bytes
pub mod Clock
pub mod Caps
pub mod Layout
pub mod Errors
pub mod Features
pub mod Decode
pub mod Sizes
