-- ===== src/Queues.antt =====
-- The lock-free queues between the threads of a worker (src/queues).
pub mod Ring
pub mod LockFree
pub mod Channel
