-- ===== src/Compute.antt =====
-- Distributed frame tasks: zdx_compute_core.py.
pub mod Task
pub mod Coordinator
pub mod Claim
pub mod Finish
pub mod Consistent
pub mod Requests
pub mod Admission
pub mod Leases
pub mod Oldest
