-- ===== src/Karma.antt =====
-- zdx_karma_system.py: the reputation of nodes and their clusters.
pub mod Score
pub mod System
pub mod Sound
