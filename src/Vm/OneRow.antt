-- ===== src/Vm/OneRow.antt =====
-- A raster of one row runs thread 0 alone: a column is its one instruction.
use zdx_paralell_pyxel_vm.Base.{
  ℕ, zero, suc, ◌+◌, ◌<◌, ◌≡◌, refl, ◌∙◌, ap, inr, false, none, some, arith, ltb, lt→ltb,
}
use zdx_paralell_pyxel_vm.Vm.Isa.{Pixel, Opcode, rev_opmap}
use zdx_paralell_pyxel_vm.Vm.Machine.{Raster, Cpu, Outcome, next, raise}
use zdx_paralell_pyxel_vm.Vm.Exec.{exec, tick, step_thread}
use zdx_paralell_pyxel_vm.Vm.Threads.{step_thread_idle}
use zdx_paralell_pyxel_vm.Vm.Frame.{◌>>=◌, run_threads, run_column, run_columns, done}
use zdx_paralell_pyxel_vm.Vm.Frame.Invariant.{at_column}

module _ (img : Raster) (one : img.height ≡ 1) where
  idle_after : (x z : ℕ) (o : Outcome) → (o >>= step_thread img x (suc z)) ≡ o
  idle_after x z (next c) = step_thread_idle img x (suc z) c (inr (omega (arith, one)))
  idle_after x z (raise e vm) = refl

  only_thread : (x n : ℕ) (c : Cpu) → 0 < n → run_threads img x n c ≡ step_thread img x 0 c
  unfolding run_threads
  only_thread x zero c h = absurd (omega arith)
  only_thread x (suc zero) c h = refl
  only_thread x (suc (suc n)) c h =
      ap (λ o. o >>= step_thread img x (suc n)) (only_thread x (suc n) c (omega arith))
      ∙ idle_after x n (step_thread img x 0 c)

  -- The column of a live thread 0 is the branch of its opcode.
  pub column_is_exec :
      (x : ℕ) (c : Cpu) (op : Opcode)
      → 0 < c.threads
      → c.halted 0 ≡ false
      → c.skip_next 0 ≡ false
      → rev_opmap c.opmap (img.pixel 0 x).r ≡ some op
      → run_column img x c ≡ exec img (img.pixel 0 x) x 0 (tick x 0 (at_column x c)) op
  unfolding run_column
  column_is_exec x c op h live awake decoded =
      only_thread x c.threads (at_column x c) h
      ∙ unfold step_thread in ground (arith, one, live, awake, decoded)

-- One more column, whose instruction sets no jump.
pub columns_step :
    (img : Raster) (steps x : ℕ) (c d : Cpu)
    → x < img.width
    → run_column img x c ≡ next d
    → d.jump_to ≡ none
    → run_columns img (suc steps) x c ≡ run_columns img steps (x + 1) d
unfolding run_columns
columns_step img steps x c d h went calm = rw (lt→ltb x img.width h, went, calm)

-- The same, for an instruction that goes on to `d`.
pub instruction_step :
    (img : Raster) (steps x : ℕ) (c d : Cpu) (p : Pixel) (op : Opcode)
    → img.height ≡ 1
    → img.pixel 0 x ≡ p
    → x < img.width
    → 0 < c.threads
    → c.halted 0 ≡ false
    → c.skip_next 0 ≡ false
    → rev_opmap c.opmap p.r ≡ some op
    → exec img p x 0 (tick x 0 (at_column x c)) op ≡ next d
    → d.jump_to ≡ none
    → run_columns img (suc steps) x c ≡ run_columns img steps (x + 1) d
instruction_step img steps x c d p op one here h some_thread live awake decoded went calm =
    columns_step img steps x c d h
      (column_is_exec img one x c op some_thread live awake (rw here decoded) ∙ rw here went) calm

-- Past the last column the frame is done, whatever is left of the budget.
pub columns_end :
    (img : Raster) (steps x : ℕ) (c : Cpu)
    → ltb x img.width ≡ false
    → run_columns img steps x c ≡ done c.vm
unfolding run_columns
columns_end img zero x c h = rw h
columns_end img (suc steps) x c h = rw h
