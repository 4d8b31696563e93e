-- ===== src/Engine.antt =====
-- `MultiAgentGraphEngine` of services/graphrag-interceptor/graphrag_interceptor.py: two agents, each
-- asked until it gives a usable answer, and the corrections of the plan.
pub mod Agents
pub mod Invoke
pub mod Loop
pub mod Turns
pub mod Grounded
pub mod Reasoning
pub mod Deterministic
pub mod Planned
pub mod Cited
pub mod Overflow
