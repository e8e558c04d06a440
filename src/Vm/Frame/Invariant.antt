-- ===== src/Vm/Frame/Invariant.antt =====
-- The rule for a property that every thread's turn keeps: it holds after the frame, whether the frame
-- ends or raises.
use zdx_paralell_pyxel_vm.Base.{
  ℕ, zero, suc, ◌<◌, ◌≡◌, refl, ◌⊎◌, inl, inr, none, ltb, ltb→lt, Bool-cases,
}
use zdx_paralell_pyxel_vm.Vm.Machine.{Vm, Raster, Cpu, VmError, Outcome, next, raise}
use zdx_paralell_pyxel_vm.Vm.Exec.{step_thread}
use zdx_paralell_pyxel_vm.Vm.Frame.{
  ◌>>=◌, run_threads, run_column, run_columns, next_column, resume, FrameResult, vm_of,
}

-- `P` of the state that goes on, `Q` of the VM that an exception leaves.
abbrev pub Leaves : (Cpu → Type 0) → (Vm → Type 0) → Outcome → Type 0
Leaves P Q (next c) = P c
Leaves P Q (raise e vm) = Q vm

abbrev pub at_column : ℕ → Cpu → Cpu
at_column x c = record c { vm = record c.vm { clock = x }; jump_to = none }

pub Outcome-cases :
    (o : Outcome) → ((c : Cpu) × (o ≡ next c)) ⊎ ((e : VmError) × (vm : Vm) × (o ≡ raise e vm))
Outcome-cases (next c) = inl (c, refl)
Outcome-cases (raise e vm) = inr (e, vm, refl)

pub Leaves-bind :
    (P : Cpu → Type 0) (Q : Vm → Type 0) (o : Outcome) (f : Cpu → Outcome)
    → Leaves P Q o
    → ((c : Cpu) → P c → Leaves P Q (f c))
    → Leaves P Q (o >>= f)
Leaves-bind P Q (next c) f p k = k c p
Leaves-bind P Q (raise e vm) f p k = p

module _ (img : Raster) (P : Cpu → Type 0) (Q : Vm → Type 0)
    (start : (x : ℕ) (c : Cpu) → P c → P (at_column x c))
    (step : (x y : ℕ) (c : Cpu) → x < img.width → P c → Leaves P Q (step_thread img x y c)) where
  pub run_threads-Leaves :
      (x n : ℕ) (c : Cpu) → x < img.width → P c → Leaves P Q (run_threads img x n c)
  unfolding run_threads
  run_threads-Leaves x zero c h p = p
  run_threads-Leaves x (suc n) c h p =
      Leaves-bind P Q (run_threads img x n c) (step_thread img x n) (run_threads-Leaves x n c h p)
        (λ d q. step x n d h q)

  pub run_column-Leaves : (x : ℕ) (c : Cpu) → x < img.width → P c → Leaves P Q (run_column img x c)
  unfolding run_column
  run_column-Leaves x c h p = run_threads-Leaves x c.threads (at_column x c) h (start x c p)

module _ (img : Raster) (P : Cpu → Type 0) (Q : Vm → Type 0) (forget : (c : Cpu) → P c → Q c.vm)
    (start : (x : ℕ) (c : Cpu) → P c → P (at_column x c))
    (step : (x y : ℕ) (c : Cpu) → x < img.width → P c → Leaves P Q (step_thread img x y c)) where
  resume-Leaves :
      (rest : ℕ → Cpu → FrameResult)
      → ((x : ℕ) (c : Cpu) → P c → Q (vm_of (rest x c)))
      → (x : ℕ) (o : Outcome) → Leaves P Q o
      → Q (vm_of (resume rest x o))
  resume-Leaves rest keep x (next c) p = keep (next_column x c.jump_to) c p
  resume-Leaves rest keep x (raise e vm) q = q

  pub run_columns-Leaves : (steps x : ℕ) (c : Cpu) → P c → Q (vm_of (run_columns img steps x c))
  unfolding run_columns
  run_columns-Leaves zero x c p = elim (Bool-cases (ltb x img.width)) [
    | inl more ↦ rw more (forget c p)
    | inr over ↦ rw over (forget c p)
  ]
  run_columns-Leaves (suc steps) x c p = elim (Bool-cases (ltb x img.width)) [
    | inr over ↦ rw over (forget c p)
    | inl more ↦ rw more (
        resume-Leaves (run_columns img steps) (run_columns-Leaves steps) x (run_column img x c)
          (run_column-Leaves img P Q start step x c (ltb→lt x img.width more) p))
  ]
