-- ===== src/Vm/JumpLoop.antt =====
-- A jump back to its own column, under the step budget.
use zdx_paralell_pyxel_vm.Base.{
  ℕ, zero, suc, ◌<◌, ◌≡◌, refl, sym, subst, false, none, some, arith, lt→ltb,
}
use zdx_paralell_pyxel_vm.Vm.Isa.{jmp, rev_opmap}
use zdx_paralell_pyxel_vm.Vm.Machine.{
  Config, Vm, Raster, Cpu, Outcome, next, raise, max_col_steps_reached,
}
use zdx_paralell_pyxel_vm.Vm.Exec.{step_thread, exec, tick}
use zdx_paralell_pyxel_vm.Vm.Threads.{Spares, step_thread-Spares}
use zdx_paralell_pyxel_vm.Vm.Steps.{IsOrderly, step_thread-IsOrderly}
use zdx_paralell_pyxel_vm.Vm.Frame.{
  run_threads, run_column, run_columns, execute_array, failed, fresh,
}
use zdx_paralell_pyxel_vm.Vm.Frame.Invariant.{at_column}

-- Thread 0 stands at a jump from column 0 to column 0.
pub record JumpsToItself (k : Config) (img : Raster) : Type 0 where
  pub lenient : k.strict_mode ≡ false
  pub a_thread : 0 < k.threads
  pub a_row : 0 < img.height
  pub a_column : 0 < img.width
  pub jumps : rev_opmap k.opmap (img.pixel 0 0).r ≡ some jmp
  pub target : (img.pixel 0 0).g ≡ 0

module _ (k : Config) (img : Raster) (j : JumpsToItself k img) where
  -- Thread 0 is live.
  abbrev IsLive : Cpu → Type 0
  IsLive c = (c.config ≡ k) × (c.halted 0 ≡ false) × (c.skip_next 0 ≡ false)

  abbrev HasJumped : Cpu → Type 0
  HasJumped c = IsLive c × (c.jump_to ≡ some 0)

  abbrev Jumps : Outcome → Type 0
  Jumps o = (d : Cpu) × (o ≡ next d) × HasJumped d

  first_turn : (c : Cpu) → IsLive c → c.jump_to ≡ none → Jumps (step_thread img 0 0 c)
  unfolding step_thread exec
  first_turn c l e = (
    record (tick 0 0 c) { jump_to = some 0 },
    ground (arith, j.a_row, j.a_column, j.jumps, j.target),
    (l, refl),
  )

  later_turn : (z : ℕ) (c : Cpu) → HasJumped c → Jumps (step_thread img 0 (suc z) c)
  later_turn z c h =
      turn (step_thread img 0 (suc z) c) (step_thread-Spares img 0 0 (suc z) c (omega arith))
        (step_thread-IsOrderly img 0 (suc z) c)
    where
      turn : (o : Outcome) → Spares 0 c o → IsOrderly c o → Jumps o
      turn (next d) s r = (d, refl, (ground arith, r.1 0 h.1))
      turn (raise e vm) s r = absurd (ground (arith, j.lenient))

  turns : (n : ℕ) (c : Cpu) → 0 < n → IsLive c → c.jump_to ≡ none → Jumps (run_threads img 0 n c)
  unfolding run_threads
  turns zero c h l e = absurd (omega arith)
  turns (suc zero) c h l e = first_turn c l e
  turns (suc (suc n)) c h l e =
      let (d, went, p) = turns (suc n) c (omega arith) l e in rw went (later_turn n d p)

  column : (c : Cpu) → IsLive c → Jumps (run_column img 0 c)
  unfolding run_column
  column c l =
      turns c.threads (at_column 0 c) (subst (λ i. 0 < i.threads) (sym l.0) j.a_thread) l refl

  columns :
      (steps : ℕ) (c : Cpu)
      → IsLive c
      → (vm : Vm) × (run_columns img steps 0 c ≡ failed (max_col_steps_reached 0) vm)
  unfolding run_columns
  columns zero c l = (c.vm, rw (lt→ltb 0 img.width j.a_column))
  columns (suc steps) c l =
      let (d, went, (live, jumped)) = column c l in
      let (vm, stopped) = columns steps d live in
      (vm, rw (lt→ltb 0 img.width j.a_column, went, jumped) stopped)

-- Outside strict mode a self-jump of thread 0 at column 0 makes the frame fail with the step-budget
-- error at column 0, whatever the other threads do and however large the budget.
pub self_jump_fails :
    (vm : Vm) (img : Raster)
    → JumpsToItself vm.config img
    → (vm' : Vm) × (execute_array vm img ≡ failed (max_col_steps_reached 0) vm')
unfolding execute_array
self_jump_fails vm img j = columns vm.config img j vm.max_col_steps (fresh vm) (refl, refl, refl)
