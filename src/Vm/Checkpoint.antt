-- ===== src/Vm/Checkpoint.antt =====
-- The checkpoint marker of ParallelPyxelVM: the state that is hashed, a recorded generation, and a
-- verified restore. `compute_vm_checkpoint_hash`
-- of zdx_checkpoint.py builds the same state; its text and its SHA-256 are the parameter `digest`.
pub mod Restore
use zdx_paralell_pyxel_vm.Base.{
  ℕ, zero, suc, ◌+◌, ◌<◌, String, ◌≡◌, refl, ◌≢◌, ap, inl, inr, Bool, true, false, Option, none,
  some, List, [], ◌∷◌, ◌++◌, arith, ltb, ◌==◌, ==_refl, str_eq, eq_iff, if◌then◌else◌, put, length,
  get_or, Bool-cases,
}
use zdx_paralell_pyxel_vm.Base.Results.{Result, ok, err}
use zdx_paralell_pyxel_vm.Vm.Machine.{
  Regs, Vm, VmError, hash_mismatch, wrong_registers, wrong_shared, slots,
}

abbrev pub zero_regs : Regs
zero_regs = record { a = 0; b = 0; out = 0; t = 0 }

-- The values of the registers T0, T1, … and of the slots M0, M1, …, in this order.
pub record CheckpointState : Type 0 where
  pub generation : ℕ
  pub clock : ℕ
  pub registers : List Regs
  pub shared : List ℕ

-- The first `n` entries of a table.
unfoldable pub tabulate {ℓ} : {A : Type ℓ} → ℕ → (ℕ → A) → List A
tabulate zero f = []
tabulate (suc n) f = tabulate n f ++ f n ∷ []

-- `_checkpoint_state`
unfoldable pub checkpoint_state : Vm → CheckpointState
checkpoint_state vm = record {
  generation = vm.execution_generation;
  clock = vm.clock;
  registers = tabulate vm.threads vm.registers;
  shared = tabulate slots vm.shared;
}

-- The writes of `restore_checkpoint`.
abbrev pub restored : CheckpointState → String → Vm → Vm
restored s expected vm = record vm {
  registers = λ y. get_or s.registers y zero_regs;
  shared = λ m. get_or s.shared m 0;
  execution_generation = s.generation;
  clock = s.clock;
  last_checkpoint_hash = expected;
}

module _ (digest : CheckpointState → String) where
  -- `_compute_checkpoint_hash`
  unfoldable pub checkpoint_hash : Vm → String
  unfolding checkpoint_state
  checkpoint_hash vm = digest (checkpoint_state vm)

  -- `_record_execution_generation`
  unfoldable pub record_execution_generation : Vm → Vm
  unfolding checkpoint_hash
  record_execution_generation vm =
      let counted = record vm { execution_generation = vm.execution_generation + 1 } in
      record counted { last_checkpoint_hash = checkpoint_hash counted }

  -- `restore_checkpoint`. The keys are T0, T1, … and M0, M1, … here, so that two key sets differ where
  -- their numbers differ.
  unfoldable pub restore_checkpoint : CheckpointState → String → Vm → Result VmError Vm
  restore_checkpoint s expected vm =
      if str_eq (digest s) expected
      then (if length s.registers == vm.threads
          then (if length s.shared == slots then ok (restored s expected vm) else err wrong_shared)
          else err wrong_registers)
      else err hash_mismatch

-- The VM's marker is the hash of its state.
abbrev pub IsMarked : (CheckpointState → String) → Vm → Type 0
IsMarked digest vm = vm.last_checkpoint_hash ≡ checkpoint_hash digest vm
