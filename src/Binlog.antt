-- ===== src/Binlog.antt =====
-- src/library/binlog: the binlog position, its cache file, the events and the life of the service.
pub mod Position
pub mod Column
pub mod State
pub mod Cache
pub mod Rows
pub mod Control
