-- ===== src/Interceptor.antt =====
-- The calls of the AI interceptor by services/command-worker/command_worker.py.
pub mod RetryAfter
pub mod Failure
pub mod Client
