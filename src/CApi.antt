-- ===== src/CApi.antt =====
-- The C interface of extras/c_api/src over the driver.
pub mod Errors
pub mod Device
pub mod Stream
