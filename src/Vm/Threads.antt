-- ===== src/Vm/Threads.antt =====
-- What one thread's instructions can change of another thread.
use zdx_paralell_pyxel_vm.Base.{
  ℕ, ◌≤◌, ◌≡◌, refl, ◌≢◌, ◌∙◌, ◌⊎◌, inl, inr, subst, true, Option, none, some, arith, ◌==◌,
  Bool-cases, ==_iff,
}
use zdx_paralell_pyxel_vm.Vm.Isa.{Pixel, Opcode, halt, rev_opmap}
use zdx_paralell_pyxel_vm.Vm.Machine.{Regs, Raster, Cpu, Outcome, next, raise}
use zdx_paralell_pyxel_vm.Vm.Exec.{exec, dispatch, tick, step_thread}
use zdx_paralell_pyxel_vm.Vm.Frame.{run_columns, vm_of}
use zdx_paralell_pyxel_vm.Vm.Frame.Invariant.{Leaves, run_columns-Leaves}

-- The outcome leaves thread `y` as it is in `c`: its registers, and whether it is halted or skips.
abbrev pub Spares : ℕ → Cpu → Outcome → Type 0
Spares y c =
    Leaves
      (λ d.
        (d.registers y ≡ c.registers y)
        × (d.halted y ≡ c.halted y)
        × (d.skip_next y ≡ c.skip_next y))
      (λ vm. vm.registers y ≡ c.registers y)

module _ (img : Raster) (p : Pixel) (x y z : ℕ) (c : Cpu) (apart : y ≢ z) where
  exec-Spares : (op : Opcode) → Spares y c (exec img p x z c op)
  unfolding exec
  exec-Spares halt = ground arith
  exec-Spares _ = ground arith

  dispatch-Spares : (op : Option Opcode) → Spares y c (dispatch img p x z c op)
  unfolding dispatch
  dispatch-Spares none = ground arith
  dispatch-Spares (some op) = exec-Spares op

-- A turn of another thread leaves a thread alone.
pub step_thread-Spares :
    (img : Raster) (x y z : ℕ) (c : Cpu) → y ≢ z → Spares y c (step_thread img x z c)
unfolding step_thread
step_thread-Spares img x y z c apart = ground (
  arith,
  dispatch-Spares img (img.pixel z x) x y z (tick x z c) apart
      (rev_opmap c.opmap (img.pixel z x).r),
)

-- A halted thread, and one without a row in the raster, has no turn.
pub step_thread_idle :
    (img : Raster) (x z : ℕ) (c : Cpu)
    → (c.halted z ≡ true) ⊎ (img.height ≤ z)
    → step_thread img x z c ≡ next c
unfolding step_thread
step_thread_idle img x z c h = ground arith

-- Thread `y` is idle for the rest of the frame, with the registers `r`.
abbrev IsFrozen : Raster → ℕ → Regs → Cpu → Type 0
IsFrozen img y r c = ((c.halted y ≡ true) ⊎ (img.height ≤ y)) × (c.registers y ≡ r)

step_thread-IsFrozen :
    (img : Raster) (y : ℕ) (r : Regs) (x z : ℕ) (c : Cpu)
    → IsFrozen img y r c
    → Leaves (IsFrozen img y r) (λ vm. vm.registers y ≡ r) (step_thread img x z c)
step_thread-IsFrozen img y r x z c f = elim (Bool-cases (y == z)) [
  | inl same ↦
      rw
        (step_thread_idle img x z c
          (subst (λ w. (c.halted w ≡ true) ⊎ (img.height ≤ w)) ((==_iff y z).0 same) f.0))
        f
  | inr other ↦ spared (step_thread img x z c) (step_thread-Spares img x y z c (ground arith))
]
  where
    spared : (o : Outcome) → Spares y c o → Leaves (IsFrozen img y r) (λ vm. vm.registers y ≡ r) o
    spared (next d) s = ground arith
    spared (raise e vm) s = s ∙ f.1

-- Once a thread has halted, no instruction of any thread changes its registers for the rest of the
-- frame, whether the frame ends or raises; the same holds of a thread that has no row in the raster.
pub run_columns_idle :
    (img : Raster) (steps x y : ℕ) (c : Cpu)
    → (c.halted y ≡ true) ⊎ (img.height ≤ y)
    → (vm_of (run_columns img steps x c)).registers y ≡ c.registers y
run_columns_idle img steps x y c h =
    run_columns-Leaves img (IsFrozen img y (c.registers y)) (λ vm. vm.registers y ≡ c.registers y)
      (λ d f. f.1) (λ col d f. f)
      (λ col z d lt f. step_thread-IsFrozen img y (c.registers y) col z d f) steps x c (h, refl)
