-- ===== src/Vm/Init.antt =====
-- The constructor of ParallelPyxelVM and the loading of shared memory.
use zdx_paralell_pyxel_vm.Base.{
  ℕ, String, Option, none, some, List, [], ◌∷◌, ltb, str_eq, if◌then◌else◌, put,
}
use zdx_paralell_pyxel_vm.Base.Results.{Result, ok, err}
use zdx_paralell_pyxel_vm.Vm.Machine.{
  Config, Vm, VmError, invalid_threads, invalid_max_chain, invalid_max_col_steps, shared_not_object,
}
use zdx_paralell_pyxel_vm.Vm.Checkpoint.{CheckpointState, checkpoint_hash, zero_regs}

-- The name of slot m, "M{m}", as the key of a loaded document.
abbrev slot_of : String → Option ℕ
slot_of k =
    if str_eq k "M0"
    then some 0
    else if str_eq k "M1"
    then some 1
    else if str_eq k "M2"
    then some 2
    else if str_eq k "M3"
    then some 3
    else if str_eq k "M4"
    then some 4
    else if str_eq k "M5"
    then some 5
    else if str_eq k "M6"
    then some 6
    else if str_eq k "M7"
    then some 7
    else none

-- What the store gives: an exception, a value that is no object, or an object. In an object, `none` is
-- a value that `int` does not take.
pub data SharedDocument : Type 0 where
  unread no_object : SharedDocument
  object : List (String × Option ℕ) → SharedDocument

-- the loop of `_load_shared`
unfoldable pub load_entries : List (String × Option ℕ) → (ℕ → ℕ) → ℕ → ℕ
load_entries [] m = m
load_entries ((k, none) ∷ rest) m = load_entries rest m
load_entries ((k, some v) ∷ rest) m =
    load_entries rest (elim (slot_of k) [ none ↦ m | some i ↦ put m i v ])

-- `_load_shared`: a value without `items` raises.
unfoldable pub load_shared : SharedDocument → Vm → Result VmError Vm
unfolding load_entries
load_shared unread vm = ok vm
load_shared no_object vm = err shared_not_object
load_shared (object entries) vm = ok (record vm { shared = load_entries entries vm.shared })

module _ (digest : CheckpointState → String) where
  -- `__init__`, with what the shared-memory file holds.
  unfoldable pub new_vm : Config → SharedDocument → Result VmError Vm
  unfolding load_shared checkpoint_hash
  new_vm k stored =
      if ltb k.threads 1
      then err invalid_threads
      else if ltb k.max_chain 1
      then err invalid_max_chain
      else if ltb k.max_col_steps 1
      then err invalid_max_col_steps
      else let blank : Vm = record {
        config = k;
        clock = 0;
        registers = λ y. zero_regs;
        shared = λ m. 0;
        next_frame = none;
        frame_registry = (0, "whisperframe_B.png") ∷ [];
        execution_generation = 0;
        last_checkpoint_hash = "";
      } in
        let hashed = record blank { last_checkpoint_hash = checkpoint_hash digest blank } in
        if k.persist_shared then load_shared stored hashed else ok hashed
