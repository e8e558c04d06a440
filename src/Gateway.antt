-- ===== src/Gateway.antt =====
-- zdx_agent_tool_gateway.py: the policy of an agent's tools, and the gateway that authorizes and calls them.
pub mod Policy
pub mod Arguments
pub mod Proposal
pub mod Same
pub mod Store
pub mod Execute
pub mod Managed
