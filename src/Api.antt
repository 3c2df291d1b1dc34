-- ===== src/Api.antt =====
-- src/hipobj.cpp: the public functions, for a thread that calls one of them.
pub mod Errors
pub mod Checks
pub mod Instance
pub mod Staging
pub mod Transfer
pub mod Waits
pub mod Calls
pub mod Plain
pub mod Holders
pub mod Success
pub mod Balance
pub mod Ends
