-- ===== src/Mailbox.antt =====
-- src/zdx_spatial_mailbox.py: the mailbox in a region of a spatial frame.
pub mod Format
pub mod Ring
pub mod Queue
