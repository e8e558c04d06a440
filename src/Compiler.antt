-- ===== src/Compiler.antt =====
-- zdx_parallel_vm.py, class SimpleCompiler and the program builders: from instruction texts to a
-- raster, and the proofs about it.
pub mod Text
pub mod TextOrder
pub mod Simple
pub mod Number
pub mod Decode
pub mod Listing
pub mod Programs
