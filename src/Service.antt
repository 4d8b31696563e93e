-- ===== src/Service.antt =====
-- The paid endpoint of services/graphrag-interceptor/graphrag_interceptor.py: the gate of
-- `verify_enterprise_subscription`, the idempotency cache, and `intercept`.
pub mod Gate
pub mod Commands
pub mod Intercept
pub mod Admission
pub mod Replay
pub mod Soundness
