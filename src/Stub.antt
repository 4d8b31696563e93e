-- ===== src/Stub.antt =====
-- `StubInterceptor` of services/command-worker/command_worker.py. Its simulated latency is left to
-- the clock: `elapsed` is what it measures, and `fresh_id` the hex of the plan's UUID. `format_g` is
-- the format `:g` on a float, kept as its JSON number.
pub mod Actions
pub mod Planner
pub mod Steps
pub mod Force
pub mod Translated
