-- ===== src/Worker.antt =====
-- The worker, worker/: the processes that make the load.
pub mod Servers
pub mod Ram
pub mod Cpu
pub mod Watcher
pub mod Config
pub mod Network
pub mod Feedback
