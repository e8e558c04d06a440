-- ===== src/Spatial.antt =====
-- zdx_spatial_frame.py: the geometry of a spatial PNG.
pub mod Layout
pub mod Regions
pub mod Address
pub mod Dirty
pub mod Cells
pub mod Spans
pub mod Machine
