-- ===== src/Graph.antt =====
-- The inbound contract of services/graphrag-interceptor/graphrag_interceptor.py and the scores of
-- its telemetry channels.
pub mod Nodes
pub mod Telemetry
pub mod Payload
pub mod Channels
pub mod Contract
pub mod Sorted
pub mod Members
