-- ===== src/Vm/Frame.antt =====
-- `_execute_array`: the loops over threads and columns.
pub mod Invariant
use zdx_paralell_pyxel_vm.Base.{ℕ, zero, suc, ◌+◌, false, Option, none, some, ltb, if◌then◌else◌}
use zdx_paralell_pyxel_vm.Vm.Machine.{
  Vm, Raster, Cpu, VmError, max_col_steps_reached, Outcome, next, raise,
}
use zdx_paralell_pyxel_vm.Vm.Exec.{step_thread}

infixl 5 ◌>>=◌
abbrev pub ◌>>=◌ : Outcome → (Cpu → Outcome) → Outcome
next c >>= f = f c
raise e vm >>= f = raise e vm

-- `for y in range(self.threads)`, over the first `n` threads.
unfoldable pub run_threads : Raster → ℕ → ℕ → Cpu → Outcome
run_threads img x zero c = next c
run_threads img x (suc n) c = run_threads img x n c >>= step_thread img x n

-- `jump_to` if it is set, else the next column.
abbrev pub next_column : ℕ → Option ℕ → ℕ
next_column x none = x + 1
next_column x (some target) = target

-- One round of the `while` loop, at column `x`: the clock, no jump yet, and all threads.
unfoldable pub run_column : Raster → ℕ → Cpu → Outcome
run_column img x c =
    run_threads img x c.threads (record c { vm = record c.vm { clock = x }; jump_to = none })

-- The result of a frame: the VM, or the exception and the VM that it leaves.
pub data FrameResult : Type 0 where
  done : Vm → FrameResult
  failed : VmError → Vm → FrameResult

abbrev pub vm_of : FrameResult → Vm
vm_of (done vm) = vm
vm_of (failed e vm) = vm

-- After a column: the exception, or the rest of the loop at the next column.
abbrev pub resume : (ℕ → Cpu → FrameResult) → ℕ → Outcome → FrameResult
resume rest x (next c) = rest (next_column x c.jump_to) c
resume rest x (raise e vm) = failed e vm

-- The `while` loop with `steps` rounds left of `max_col_steps`, and the test behind it: the loop has
-- ended with no step left and columns to go.
unfoldable pub run_columns : Raster → ℕ → ℕ → Cpu → FrameResult
run_columns img zero x c =
    if ltb x img.width then failed (max_col_steps_reached x) c.vm else done c.vm
run_columns img (suc steps) x c =
    if ltb x img.width then resume (run_columns img steps) x (run_column img x c) else done c.vm

-- The locals at the start of a frame.
abbrev pub fresh : Vm → Cpu
fresh vm = record {
  vm = record vm { next_frame = none };
  halted = λ y. false;
  skip_next = λ y. false;
  jump_to = none;
}

unfoldable pub execute_array : Vm → Raster → FrameResult
unfolding run_columns run_column run_threads step_thread
execute_array vm img = run_columns img vm.max_col_steps 0 (fresh vm)
