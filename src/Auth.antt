-- ===== src/Auth.antt =====
-- zdx_auth_pipeline.py: the authentication of messages and its replay guards.
pub mod Guard
pub mod Pipeline
pub mod Verified
pub mod Ascending
pub mod Latest
pub mod Refines
