-- ===== src/Persistence.antt =====
-- internal/persistence: the write-ahead log and the state that a store saves.
pub mod Wal
pub mod Redis
