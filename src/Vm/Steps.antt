-- ===== src/Vm/Steps.antt =====
-- How a frame ends: the step budget, jumps and strict mode.
use zdx_paralell_pyxel_vm.Base.{
  ℕ, zero, suc, ◌+◌, ◌≤◌, ◌<◌, ◌≡◌, refl, ◌≢◌, inl, inr, true, false, Option, none, some, arith,
  ltb, ltb→lt, Bool-cases,
}
use zdx_paralell_pyxel_vm.Vm.Isa.{Pixel, Opcode, jmp, rev_opmap}
use zdx_paralell_pyxel_vm.Vm.Machine.{Config, Vm, Raster, Cpu, Outcome, next, raise}
use zdx_paralell_pyxel_vm.Vm.Exec.{exec, dispatch, tick, step_thread}
use zdx_paralell_pyxel_vm.Vm.Frame.{run_column, run_columns, execute_array, done, fresh}
use zdx_paralell_pyxel_vm.Vm.Frame.Invariant.{Leaves, run_column-Leaves}

-- An outcome that keeps the configuration and a jump that is already chosen, and raises in strict
-- mode only.
abbrev pub IsOrderly : Cpu → Outcome → Type 0
IsOrderly c =
    Leaves (λ d. (d.config ≡ c.config) × ((t : ℕ) → c.jump_to ≡ some t → d.jump_to ≡ some t))
      (λ vm. c.strict_mode ≡ true)

module _ (img : Raster) (p : Pixel) (x z : ℕ) (c : Cpu) where
  exec-IsOrderly : (op : Opcode) → IsOrderly c (exec img p x z c op)
  unfolding exec
  exec-IsOrderly jmp = ground arith
  exec-IsOrderly _ = ground arith

  dispatch-IsOrderly : (op : Option Opcode) → IsOrderly c (dispatch img p x z c op)
  unfolding dispatch
  dispatch-IsOrderly none = ground arith
  dispatch-IsOrderly (some op) = exec-IsOrderly op

  dispatch_no_jump :
      (op : Option Opcode)
      → op ≢ some jmp
      → Leaves (λ d. d.jump_to ≡ c.jump_to) (λ vm. Unit) (dispatch img p x z c op)
  unfolding dispatch
  dispatch_no_jump none h = ground arith
  dispatch_no_jump (some jmp) h = absurd (h refl)
  dispatch_no_jump (some _) h = ground arith

-- Within a column the first jump that is in range wins: no later thread changes it.
pub step_thread-IsOrderly : (img : Raster) (x z : ℕ) (c : Cpu) → IsOrderly c (step_thread img x z c)
unfolding step_thread
step_thread-IsOrderly img x z c = ground (
  arith,
  dispatch-IsOrderly img (img.pixel z x) x z (tick x z c) (rev_opmap c.opmap (img.pixel z x).r),
)

step_thread_no_jump :
    (img : Raster) (x z : ℕ) (c : Cpu)
    → rev_opmap c.opmap (img.pixel z x).r ≢ some jmp
    → Leaves (λ d. d.jump_to ≡ c.jump_to) (λ vm. Unit) (step_thread img x z c)
unfolding step_thread
step_thread_no_jump img x z c h = ground (
  arith,
  dispatch_no_jump img (img.pixel z x) x z (tick x z c) (rev_opmap c.opmap (img.pixel z x).r) h,
)

-- No pixel of the raster decodes to a jump.
abbrev pub IsStraight : Config → Raster → Type 0
IsStraight k img = (y x : ℕ) → rev_opmap k.opmap (img.pixel y x).r ≢ some jmp

module _ (k : Config) (img : Raster) (lenient : k.strict_mode ≡ false) where
  -- Under configuration `k`, with `j` for the jump that is chosen so far.
  abbrev Runs : Option ℕ → Cpu → Type 0
  Runs j c = (c.config ≡ k) × (c.jump_to ≡ j)

  straight_turn :
      IsStraight k img
      → (x z : ℕ) (c : Cpu) → x < img.width
      → Runs none c
      → Leaves (Runs none) (λ vm. ⊥) (step_thread img x z c)
  straight_turn straight x z c lt r =
      turn (step_thread img x z c) (step_thread-IsOrderly img x z c)
        (step_thread_no_jump img x z c (rw r.0 (straight z x)))
    where
      turn :
          (o : Outcome)
          → IsOrderly c o
          → Leaves (λ d. d.jump_to ≡ c.jump_to) (λ vm. Unit) o
          → Leaves (Runs none) (λ vm. ⊥) o
      turn (next d) s j = ground arith
      turn (raise e vm) s j = ground arith

  straight_column :
      IsStraight k img
      → (x : ℕ) (c : Cpu) → x < img.width
      → c.config ≡ k
      → (d : Cpu) × (run_column img x c ≡ next d) × Runs none d
  unfolding run_column
  straight_column straight x c lt e = split (run_column img x c) (
      run_column-Leaves img (Runs none) (λ vm. ⊥) (λ _ _ r. (r.0, refl)) (straight_turn straight) x
        (record c { jump_to = none }) lt (e, refl))
    where
      split :
          (o : Outcome) → Leaves (Runs none) (λ vm. ⊥) o → (d : Cpu) × (o ≡ next d) × Runs none d
      split (next d) r = (d, refl, r)
      split (raise e vm) r = absurd r

  straight_columns :
      IsStraight k img
      → (steps x : ℕ) (c : Cpu) → img.width ≤ x + steps
      → c.config ≡ k
      → (vm : Vm) × (run_columns img steps x c ≡ done vm)
  unfolding run_columns
  straight_columns straight zero x c fits e = (c.vm, ground arith)
  straight_columns straight (suc steps) x c fits e = elim (Bool-cases (ltb x img.width)) [
    | inr over ↦ (c.vm, rw over)
    | inl more ↦
        let (d, went, r) = straight_column straight x c (ltb→lt x img.width more) e in
        let (vm, ended) = straight_columns straight steps (x + 1) d (omega arith) r.0 in
        (vm, rw (more, went, r.1) ended)
  ]

-- Outside strict mode a frame without jumps, no wider than the step budget, always ends normally.
pub straight_frame_done :
    (vm : Vm) (img : Raster)
    → vm.strict_mode ≡ false
    → IsStraight vm.config img
    → img.width ≤ vm.max_col_steps
    → (vm' : Vm) × (execute_array vm img ≡ done vm')
unfolding execute_array
straight_frame_done vm img lenient straight fits =
    straight_columns vm.config img lenient straight vm.max_col_steps 0 (fresh vm) (omega arith) refl
