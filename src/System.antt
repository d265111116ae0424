-- ===== src/System.antt =====
-- The helpers of src/library for paths, files, strings, addresses and log files.
pub mod Path
pub mod Files
pub mod Numbers
pub mod Addresses
pub mod Logs
pub mod Callers
pub mod Runes
pub mod Requests
