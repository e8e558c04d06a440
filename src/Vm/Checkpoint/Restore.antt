-- ===== src/Vm/Checkpoint/Restore.antt =====
-- `restore_checkpoint` on the state that was hashed, and on another.
use zdx_paralell_pyxel_vm.Base.{
  ℕ, zero, suc, String, ◌≡◌, refl, sym, ap, ◌∙◌, List, [], ◌∷◌, ◌++◌, arith, eq_iff, length,
  length-append, get_or,
}
use zdx_paralell_pyxel_vm.Base.Results.{ok}
use zdx_paralell_pyxel_vm.Vm.Machine.{Vm, slots}
use zdx_paralell_pyxel_vm.Vm.Checkpoint.{
  CheckpointState, tabulate, checkpoint_state, checkpoint_hash, restore_checkpoint, restored,
  IsMarked, zero_regs,
}

module _ {ℓ} {A : Type ℓ} where
  tabulate-suc : (n : ℕ) (f : ℕ → A) → tabulate (suc n) f ≡ f 0 ∷ tabulate n (λ i. f (suc i))
  unfolding tabulate
  tabulate-suc zero f = refl
  tabulate-suc (suc n) f = ap (λ l. l ++ f (suc n) ∷ []) (tabulate-suc n f)

  pub tabulate-get_or : (xs : List A) (d : A) → tabulate (length xs) (λ i. get_or xs i d) ≡ xs
  tabulate-get_or [] d = unfold tabulate in refl
  tabulate-get_or (x ∷ xs) d =
      tabulate-suc (length xs) (λ i. get_or (x ∷ xs) i d) ∙ ap (◌∷◌ x) (tabulate-get_or xs d)

  pub length-tabulate : (n : ℕ) (f : ℕ → A) → length (tabulate n f) ≡ n
  unfolding tabulate
  length-tabulate zero f = refl
  length-tabulate (suc n) f =
      omega (arith, length-append (tabulate n f) (f n ∷ []), length-tabulate n f)

tabulate-get_or_at :
    {A : Type 0} (n : ℕ) (xs : List A) (d : A)
    → length xs ≡ n
    → tabulate n (λ i. get_or xs i d) ≡ xs
tabulate-get_or_at n xs d e = rw (← e) (tabulate-get_or xs d)

restored-state :
    (s : CheckpointState) (h : String) (w : Vm)
    → length s.registers ≡ w.threads
    → length s.shared ≡ slots
    → checkpoint_state (restored s h w) ≡ s
unfolding checkpoint_state
restored-state s h w r m =
    rw (tabulate-get_or_at w.threads s.registers zero_regs r, tabulate-get_or_at slots s.shared 0 m)

module _ (digest : CheckpointState → String) where
  accepted :
      (s : CheckpointState) (h : String) (w v : Vm)
      → restore_checkpoint digest s h w ≡ ok v
      → (digest s ≡ h)
        × (length s.registers ≡ w.threads)
        × (length s.shared ≡ slots)
        × (v ≡ restored s h w)
  unfolding restore_checkpoint
  accepted s h w v e = ground (arith, eq_iff (digest s) h)

  accepts :
      (s : CheckpointState) (w : Vm)
      → length s.registers ≡ w.threads
      → length s.shared ≡ slots
      → restore_checkpoint digest s (digest s) w ≡ ok (restored s (digest s) w)
  unfolding restore_checkpoint
  accepts s w r m = ground (arith, eq_iff (digest s) (digest s))

  -- A restore that succeeds makes the VM's checkpoint state exactly the state that was given, and
  -- leaves the VM marked with the hash of its own state, under its old configuration.
  restore-state :
      (s : CheckpointState) (h : String) (w v : Vm)
      → restore_checkpoint digest s h w ≡ ok v
      → (checkpoint_state v ≡ s) × IsMarked digest v × (v.config ≡ w.config)
  unfolding checkpoint_hash
  restore-state s h w v e =
      let (hashed, regs, slots, same) = accepted s h w v e in
      let state : checkpoint_state (restored s h w) ≡ s = restored-state s h w regs slots in
      rw same (state, rw state (sym hashed), refl)

  -- A VM that is marked can be restored from its own checkpoint by any VM with as many threads, which
  -- then has the same checkpoint state.
  pub restore_own :
      (vm w : Vm)
      → IsMarked digest vm
      → w.threads ≡ vm.threads
      → (v : Vm) × (restore_checkpoint digest (checkpoint_state vm) vm.last_checkpoint_hash w
          ≡ ok v)
        × (checkpoint_state v ≡ checkpoint_state vm)
  unfolding checkpoint_hash
  restore_own vm w m e =
      let s = checkpoint_state vm in
      let regs : length s.registers ≡ w.threads =
        unfold checkpoint_state in length-tabulate vm.threads vm.registers ∙ sym e in
      let shared : length s.shared ≡ slots =
        unfold checkpoint_state in length-tabulate slots vm.shared in
      (
        restored s (digest s) w,
        rw m (accepts s w regs shared),
        restored-state s (digest s) w regs shared,
      )

  -- What a restore against the marker of a marked VM accepts, where the hash does not collide on the
  -- given state and the VM's, leaves exactly that VM's checkpoint state, number of threads included, and
  -- a VM that is marked and keeps its own configuration: no other state passes for it.
  pub restore_detects :
      (vm w v : Vm) (t : CheckpointState)
      → IsMarked digest vm
      → (digest t ≡ digest (checkpoint_state vm) → t ≡ checkpoint_state vm)
      → restore_checkpoint digest t vm.last_checkpoint_hash w ≡ ok v
      → (checkpoint_state v ≡ checkpoint_state vm)
        × (v.threads ≡ vm.threads)
        × IsMarked digest v
        × (v.config ≡ w.config)
  unfolding checkpoint_hash
  restore_detects vm w v t m no_collision e =
      let (hashed, regs, slots, same) = accepted t vm.last_checkpoint_hash w v e in
      let (state, marked, kept) = restore-state t vm.last_checkpoint_hash w v e in
      let is : t ≡ checkpoint_state vm = no_collision (hashed ∙ m) in
      let many : length (checkpoint_state vm).registers ≡ vm.threads =
        unfold checkpoint_state in length-tabulate vm.threads vm.registers in
      (
        state ∙ is,
        ap (λ k. k.threads) kept ∙ sym regs ∙ ap (λ s. length s.registers) is ∙ many,
        marked,
        kept,
      )
