-- ===== src/License.antt =====
-- The commercial gatekeeper of services/command-worker/command_worker.py.
pub mod Plans
pub mod Subscriptions
pub mod Cache
pub mod Gatekeeper
