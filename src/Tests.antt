-- ===== src/Tests.antt =====
-- Concrete runs of services/command-worker/command_worker.py: the theorems at values where their
-- hypotheses hold, and a few outcomes computed.
mod Data
mod Worker
mod Licences
mod Commands
mod Interception
mod Services
mod Topology
mod Graph
mod Engine
mod Endpoint
mod Licensing
mod Planning
