-- ===== src/Queue.antt =====
-- The queues of cds/queue.
pub mod Circular
pub mod FastForward
pub mod TwoLock
pub mod Mpmc
