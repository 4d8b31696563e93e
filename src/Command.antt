-- ===== src/Command.antt =====
-- The command contract of services/command-worker/command_worker.py and `translate_plan`.
pub mod Vocabulary
pub mod Plan
pub mod Payload
pub mod Identity
pub mod Translate
