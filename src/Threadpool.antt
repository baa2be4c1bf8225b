-- ===== src/Threadpool.antt =====
-- include/server/threadpool: the pool of worker threads and the timer that watches it.
pub mod Pool
pub mod Monitor
pub mod CpuStats
pub mod Reap
pub mod Global
pub mod Timer
