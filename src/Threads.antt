-- ===== src/Threads.antt =====
-- threads/: synchronization of the kernel's threads.
pub mod Lock
pub mod LinkedList
pub mod Semaphore
pub mod Condition
