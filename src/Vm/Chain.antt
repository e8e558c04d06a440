-- ===== src/Vm/Chain.antt =====
-- `execute_texture`: frames chained by SAVE_STATE, up to `max_chain` of them.
pub mod Follows
pub mod Generation
use zdx_paralell_pyxel_vm.Base.{
  ℕ, zero, suc, String, Bool, true, false, Option, none, some, if◌then◌else◌,
}
use zdx_paralell_pyxel_vm.Vm.Machine.{
  Vm, Raster, VmError, max_chain_reached, missing_frame, unreadable,
}
use zdx_paralell_pyxel_vm.Vm.Checkpoint.{CheckpointState, record_execution_generation}
use zdx_paralell_pyxel_vm.Vm.Frame.{execute_array, FrameResult, done, failed}

-- The file system and Pillow: `open_image` decodes a file as RGB, or raises, and `exists` is
-- `os.path.exists`.
pub record Files : Type 0 where
  pub open_image : String → Option Raster
  pub exists : String → Bool

-- A completed call returns the VM, with the shared memory that `_save_shared` is given, if it is
-- called.
pub data ChainResult : Type 0 where
  completed : Vm → Option (ℕ → ℕ) → ChainResult
  aborted : VmError → Vm → ChainResult

abbrev pub final : ChainResult → Vm
final (completed vm saved) = vm
final (aborted e vm) = vm

-- `_execute_single`
unfoldable pub execute_single : Files → String → Vm → FrameResult
execute_single files path vm = elim (files.open_image path) [
  | none ↦ failed (unreadable path) vm
  | some img ↦ execute_array vm img
]

-- What follows the loop when it is left by `break`.
unfoldable pub finish : (CheckpointState → String) → Vm → ChainResult
finish digest vm =
    completed (record_execution_generation digest vm)
      (if vm.persist_shared then some vm.shared else none)

module _ (files : Files) (digest : CheckpointState → String) where
  -- A frame's end: an exception, the `break`, a missing file, or the next round. The frame that ran
  -- has set `next_frame`.
  abbrev pub after_frame : (String → Vm → ChainResult) → FrameResult → ChainResult
  after_frame rest (failed e vm) = aborted e vm
  after_frame rest (done vm) = elim vm.next_frame [
    | none ↦ finish digest vm
    | some path ↦ if files.exists path then rest path vm else aborted (missing_frame path) vm
  ]

  -- The `for` loop with `rounds` rounds left, and its `else`.
  unfoldable pub chain : ℕ → Bool → String → Vm → ChainResult
  unfolding finish execute_single
  chain zero chained current vm =
      if chained then aborted (max_chain_reached current) vm else finish digest vm
  chain (suc rounds) chained current vm =
      after_frame (chain rounds true) (execute_single files current vm)

  unfoldable pub execute_texture : String → Vm → ChainResult
  unfolding chain
  execute_texture image_path vm = chain vm.max_chain false image_path vm
