-- ===== src/Worker.antt =====
-- internal/infrastructure/worker/pool.go: a pool of goroutines that run queued jobs.
pub mod Pool
pub mod Invariant
pub mod Shutdown
