-- ===== src/Memory.antt =====
-- The namespaced memory of a resident agent: zdx_agent_memory_manager.py.
pub mod Manager
pub mod Eviction
pub mod Quota
pub mod Rejecting
pub mod Append
