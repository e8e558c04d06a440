-- ===== src/Vm.antt =====
-- zdx_parallel_vm.py, class ParallelPyxelVM: opcodes, machine state, the frame interpreter, the
-- chain of frames, and the proofs about them.
pub mod Isa
pub mod Machine
pub mod Exec
pub mod Frame
pub mod Bytes
pub mod Threads
pub mod Steps
pub mod JumpLoop
pub mod OneRow
pub mod Checkpoint
pub mod Init
pub mod Chain
