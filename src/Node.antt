-- ===== src/Node.antt =====
-- node: the work queue, the agent gates, and the broker that joins them.
pub mod Queue
pub mod Agents
pub mod Broker
