-- ===== src/Threads.antt =====
-- The threads of a worker (src/thread).
pub mod AdapterDisk
pub mod Address
pub mod OutCallback
pub mod UpTrace
pub mod OutQueue
pub mod InCallback
pub mod Check
pub mod Item
pub mod Loop
pub mod AdapterRam
