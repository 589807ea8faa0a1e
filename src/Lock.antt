-- ===== src/Lock.antt =====
-- cds/lock: spin locks and a reader-writer lock.
pub mod Reentrant
pub mod Spin
pub mod ReaderWriter
