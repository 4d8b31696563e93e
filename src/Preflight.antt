-- ===== src/Preflight.antt =====
-- `InterceptorPreflight`, `PreflightStatus` and `run_preflight_until_ready` of
-- services/command-worker/command_worker.py. The messages of the failures and `checked_at`, which
-- nothing reads back, are left out. `to_str` is `str(...)` on a JSON value that is no text.
pub mod Local
pub mod Compare
pub mod Loop
pub mod Agreement
pub mod Settled
pub mod Strict
