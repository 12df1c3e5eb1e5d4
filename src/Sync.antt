-- ===== src/Sync.antt =====
-- How a tool runs on IDA's main thread (sync.py).
pub mod Watchdog
pub mod Hook
pub mod Wrapper
