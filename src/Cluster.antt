-- ===== src/Cluster.antt =====
-- The replicated cluster state: zdx_cluster.py.
pub mod Log
pub mod Queue
pub mod Master
