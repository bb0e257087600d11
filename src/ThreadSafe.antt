-- ===== src/ThreadSafe.antt =====
-- The synchronized containers of src/thread_safe.h. Every method takes the lock, so a method is one step and a
-- wait on the condition variable leaves the lock between two of them.
pub mod Queue
pub mod Fifo
pub mod Event
pub mod Latest
mod Tests
pub mod Shared
pub mod Counting
