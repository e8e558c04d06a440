-- ===== src/Storage.antt =====
-- src/zdx_storage.py: the transactional persistence of JSON state.
pub mod Disk
pub mod Commit
pub mod Migrations
pub mod Envelope
pub mod Store
