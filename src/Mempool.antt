-- ===== src/Mempool.antt =====
-- src/mempool.rs: the memory pool.
pub mod Memory
pub mod Part
pub mod Shares
pub mod Pool
pub mod Threads
mod Tests
