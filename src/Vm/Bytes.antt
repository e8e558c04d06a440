-- ===== src/Vm/Bytes.antt =====
-- Registers and shared slots as bytes.
use zdx_paralell_pyxel_vm.Base.{
  ℕ, ◌<◌, ◌≤◌, ◌/◌, inl, inr, Option, none, some, arith, ltb, Bool-cases,
}
use zdx_paralell_pyxel_vm.Vm.Isa.{
  Pixel, Opcode, set_reg, set_b, not_a, add_thread, sub, mul, div, copy_out, if_a_eq, cmp, load_mem,
  store_mem, verify_freq, save_state, jmp, halt, other, rev_opmap,
}
use zdx_paralell_pyxel_vm.Vm.Machine.{
  Regs, Vm, Raster, IsUint8, Cpu, Outcome, slots, regs, set_regs, set_slot,
}
use zdx_paralell_pyxel_vm.Vm.Exec.{exec_unknown, exec, dispatch, tick, step_thread}
use zdx_paralell_pyxel_vm.Vm.Frame.{execute_array, vm_of, fresh}
use zdx_paralell_pyxel_vm.Vm.Frame.Invariant.{Leaves, run_columns-Leaves}

-- A, B and OUT of every thread, and every shared slot, are bytes. T is a column, not a byte.
pub record HoldsBytes (vm : Vm) : Type 0 where
  pub reg_bytes :
      (y : ℕ)
      → ((vm.registers y).a < 256) × ((vm.registers y).b < 256) × ((vm.registers y).out < 256)
  pub slot_bytes : (m : ℕ) → vm.shared m < 256

abbrev CpuBytes : Cpu → Type 0
CpuBytes c = HoldsBytes c.vm

abbrev LeavesBytes : Outcome → Type 0
LeavesBytes = Leaves CpuBytes HoldsBytes

set_regs-HoldsBytes :
    (y : ℕ) (r : Regs) (c : Cpu)
    → HoldsBytes c.vm
    → (r.a < 256) × (r.b < 256) × (r.out < 256)
    → HoldsBytes (set_regs y r c).vm
set_regs-HoldsBytes y r c h k = record {
  reg_bytes = λ z. ground (arith, h.reg_bytes z);
  slot_bytes = h.slot_bytes;
}

set_slot-HoldsBytes :
    (m v : ℕ) (c : Cpu) → HoldsBytes c.vm → v < 256 → HoldsBytes (set_slot m v c).vm
set_slot-HoldsBytes m v c h k = record {
  reg_bytes = h.reg_bytes;
  slot_bytes = λ z. ground (arith, h.slot_bytes z);
}

div-le : (a b : ℕ) → a / b ≤ a
div-le a b = omega arith

exec_unknown-LeavesBytes : (p : Pixel) (c : Cpu) → HoldsBytes c.vm → LeavesBytes (exec_unknown p c)
unfolding exec_unknown
exec_unknown-LeavesBytes p c h = ground arith

module _ (img : Raster) (p : Pixel) (x y : ℕ) (c : Cpu) (h : HoldsBytes c.vm)
    (small : p.b < 256) where
  exec-LeavesBytes : (op : Opcode) → LeavesBytes (exec img p x y c op)
  unfolding exec
  exec-LeavesBytes set_reg = set_regs-HoldsBytes y _ c h (ground (arith, h.reg_bytes y))
  exec-LeavesBytes set_b = set_regs-HoldsBytes y _ c h (ground (arith, h.reg_bytes y))
  exec-LeavesBytes not_a = set_regs-HoldsBytes y _ c h (ground (arith, h.reg_bytes y))
  exec-LeavesBytes add_thread = set_regs-HoldsBytes y _ c h (ground (arith, h.reg_bytes y))
  exec-LeavesBytes sub = set_regs-HoldsBytes y _ c h (ground (arith, h.reg_bytes y))
  exec-LeavesBytes mul = set_regs-HoldsBytes y _ c h (ground (arith, h.reg_bytes y))
  exec-LeavesBytes div =
      set_regs-HoldsBytes y _ c h (ground (arith, h.reg_bytes y, div-le (regs c y).a (regs c y).b))
  exec-LeavesBytes copy_out = set_regs-HoldsBytes y _ c h (ground (arith, h.reg_bytes y))
  exec-LeavesBytes cmp = set_regs-HoldsBytes y _ c h (ground (arith, h.reg_bytes y))
  exec-LeavesBytes verify_freq = set_regs-HoldsBytes y _ c h (ground (arith, h.reg_bytes y))
  exec-LeavesBytes if_a_eq = ground arith
  exec-LeavesBytes load_mem = elim (Bool-cases (ltb p.g slots)) [
    | inl at ↦ rw at (set_regs-HoldsBytes y _ c h (ground (arith, h.reg_bytes y, h.slot_bytes p.g)))
    | inr out ↦ rw out (ground arith)
  ]
  exec-LeavesBytes store_mem = elim (Bool-cases (ltb p.g slots)) [
    | inl at ↦ rw at (set_slot-HoldsBytes p.g _ c h (h.reg_bytes y).0)
    | inr out ↦ rw out (ground arith)
  ]
  exec-LeavesBytes save_state = ground arith
  exec-LeavesBytes jmp = ground arith
  exec-LeavesBytes halt = h
  exec-LeavesBytes (other name) = exec_unknown-LeavesBytes p c h

  dispatch-LeavesBytes : (op : Option Opcode) → LeavesBytes (dispatch img p x y c op)
  unfolding dispatch
  dispatch-LeavesBytes none = exec_unknown-LeavesBytes p c h
  dispatch-LeavesBytes (some op) = exec-LeavesBytes op

step_thread-LeavesBytes :
    (img : Raster)
    → IsUint8 img
    → (x y : ℕ) (c : Cpu) → HoldsBytes c.vm
    → LeavesBytes (step_thread img x y c)
unfolding step_thread
step_thread-LeavesBytes img u x y c h = ground (
  arith,
  dispatch-LeavesBytes img (img.pixel y x) x y (tick x y c)
      (set_regs-HoldsBytes y _ c h (h.reg_bytes y)) (u.bytes y x).2
      (rev_opmap c.opmap (img.pixel y x).r),
)

-- Where the registers A, B and OUT of all threads and the slots are bytes, a frame of bytes leaves
-- them bytes, whatever the program does: also where it raises. T, which is a column, is not meant.
pub execute_array-HoldsBytes :
    (vm : Vm) (img : Raster)
    → IsUint8 img
    → HoldsBytes vm
    → HoldsBytes (vm_of (execute_array vm img))
unfolding execute_array
execute_array-HoldsBytes vm img u h =
    run_columns-Leaves img CpuBytes HoldsBytes (λ c p. p)
      (λ x c p. record { reg_bytes = p.reg_bytes; slot_bytes = p.slot_bytes })
      (λ x y c lt p. step_thread-LeavesBytes img u x y c p) vm.max_col_steps 0 (fresh vm)
      (record { reg_bytes = h.reg_bytes; slot_bytes = h.slot_bytes })
