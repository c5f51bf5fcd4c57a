-- ===== src/WorkerPool.antt =====
-- internal/common/workerpool.go: jobs that run on several goroutines, and the wait for them.
pub mod Pool
pub mod Invariant
pub mod Wait
