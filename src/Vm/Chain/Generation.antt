-- ===== src/Vm/Chain/Generation.antt =====
-- The generation and the marker across a call of `execute_texture`.
use zdx_paralell_pyxel_vm.Base.{
  ℕ, zero, suc, ◌+◌, String, ◌≡◌, refl, ap, ◌∙◌, inl, inr, Bool, true, false, Option, none, some,
  arith, Bool-cases, Option-cases, if◌then◌else◌,
}
use zdx_paralell_pyxel_vm.Vm.Isa.{Pixel, Opcode, halt, rev_opmap}
use zdx_paralell_pyxel_vm.Vm.Machine.{Vm, Raster, Cpu, Outcome, missing_frame}
use zdx_paralell_pyxel_vm.Vm.Exec.{exec, dispatch, tick, step_thread}
use zdx_paralell_pyxel_vm.Vm.Checkpoint.{
  CheckpointState, checkpoint_hash, record_execution_generation, IsMarked,
}
use zdx_paralell_pyxel_vm.Vm.Frame.{execute_array, FrameResult, done, failed, vm_of, fresh}
use zdx_paralell_pyxel_vm.Vm.Frame.Invariant.{Leaves, run_columns-Leaves}
use zdx_paralell_pyxel_vm.Vm.Chain.{
  Files, ChainResult, completed, aborted, execute_single, finish, after_frame, chain,
  execute_texture,
}

-- `w` has the configuration, the generation, the marker and the frame registry of `v`.
pub record SameMark (v w : Vm) : Type 0 where
  pub same_config : w.config ≡ v.config
  pub same_generation : w.execution_generation ≡ v.execution_generation
  pub same_hash : w.last_checkpoint_hash ≡ v.last_checkpoint_hash
  pub same_registry : w.frame_registry ≡ v.frame_registry

abbrev pub Marks : Vm → Outcome → Type 0
Marks v = Leaves (λ d. SameMark v d.vm) (SameMark v)

module _ (v : Vm) (img : Raster) (p : Pixel) (x y : ℕ) (c : Cpu) (m : SameMark v c.vm) where
  exec-Marks : (op : Opcode) → Marks v (exec img p x y c op)
  unfolding exec
  exec-Marks halt = ground arith
  exec-Marks _ = ground arith

  dispatch-Marks : (op : Option Opcode) → Marks v (dispatch img p x y c op)
  unfolding dispatch
  dispatch-Marks none = ground arith
  dispatch-Marks (some op) = exec-Marks op

-- The turn of one thread leaves them alone, whatever it returns.
pub step_thread-Marks :
    (v : Vm) (img : Raster) (x y : ℕ) (c : Cpu) → SameMark v c.vm → Marks v (step_thread img x y c)
unfolding step_thread
step_thread-Marks v img x y c m = ground (
  arith,
  dispatch-Marks v img (img.pixel y x) x y (tick x y c)
      (record {
        same_config = m.same_config;
        same_generation = m.same_generation;
        same_hash = m.same_hash;
        same_registry = m.same_registry;
      })
      (rev_opmap c.opmap (img.pixel y x).r),
)

-- A frame leaves the marker and what belongs to it alone.
pub execute_array-SameMark : (vm : Vm) (img : Raster) → SameMark vm (vm_of (execute_array vm img))
unfolding execute_array
execute_array-SameMark vm img =
    run_columns-Leaves img (λ d. SameMark vm d.vm) (SameMark vm) (λ c m. m)
      (λ x c m. record {
        same_config = m.same_config;
        same_generation = m.same_generation;
        same_hash = m.same_hash;
        same_registry = m.same_registry;
      })
      (λ x y c lt m. step_thread-Marks vm img x y c m) vm.max_col_steps 0 (fresh vm)
      (record {
        same_config = refl;
        same_generation = refl;
        same_hash = refl;
        same_registry = refl;
      })

SameMark-trans : {u v w : Vm} → SameMark u v → SameMark v w → SameMark u w
SameMark-trans a b = record {
  same_config = b.same_config ∙ a.same_config;
  same_generation = b.same_generation ∙ a.same_generation;
  same_hash = b.same_hash ∙ a.same_hash;
  same_registry = b.same_registry ∙ a.same_registry;
}

-- What a call leaves: after an exception the mark of `vm`; otherwise one more generation, and a
-- marker that is the hash of the state.
abbrev pub Counts : (CheckpointState → String) → Vm → ChainResult → Type 0
Counts digest vm (aborted e w) = SameMark vm w
Counts digest vm (completed w saved) =
    (w.execution_generation ≡ vm.execution_generation + 1)
    × IsMarked digest w
    × (w.config ≡ vm.config)

module _ (files : Files) (digest : CheckpointState → String) where
  finish-Counts : (vm w : Vm) → SameMark vm w → Counts digest vm (finish digest w)
  unfolding finish record_execution_generation checkpoint_hash
  finish-Counts vm w m = (ap (λ n. n + 1) m.same_generation, refl, m.same_config)

  execute_single-SameMark :
      (path : String) (vm : Vm) → SameMark vm (vm_of (execute_single files path vm))
  unfolding execute_single
  execute_single-SameMark path vm = elim (Option-cases (files.open_image path)) [
    | inl e ↦
        rw (e, execute_single)
          (record {
            same_config = refl;
            same_generation = refl;
            same_hash = refl;
            same_registry = refl;
          })
    | inr (img, e) ↦ rw (e, execute_single) (execute_array-SameMark vm img)
  ]

  after_frame-Counts :
      (vm : Vm) (rest : String → Vm → ChainResult) (o : FrameResult)
      → SameMark vm (vm_of o)
      → ((path : String) (w : Vm) → SameMark vm w → Counts digest vm (rest path w))
      → Counts digest vm (after_frame files digest rest o)
  after_frame-Counts vm rest (failed e w) m ih = m
  after_frame-Counts vm rest (done w) m ih = successor w.next_frame
    where
      successor :
          (o : Option String)
          → Counts digest vm (elim o [
            | none ↦ finish digest w
            | some path ↦ if files.exists path then rest path w else aborted (missing_frame path) w
          ])
      successor none = finish-Counts vm w m
      successor (some path) = elim (Bool-cases (files.exists path)) [
        | inl there ↦ rw there (ih path w m)
        | inr gone ↦ rw gone m
      ]

  chain-Counts :
      (vm : Vm) (rounds : ℕ) (chained : Bool) (path : String) (w : Vm)
      → SameMark vm w
      → Counts digest vm (chain files digest rounds chained path w)
  unfolding chain
  chain-Counts vm zero true path w m = m
  chain-Counts vm zero false path w m = finish-Counts vm w m
  chain-Counts vm (suc k) chained path w m =
      after_frame-Counts vm (chain files digest k true) (execute_single files path w)
        (SameMark-trans m (execute_single-SameMark path w)) (chain-Counts vm k true)

  -- A call of `execute_texture` that completes counts exactly one generation and leaves the marker of
  -- the state it leaves; a call that raises leaves generation, marker and configuration as they were.
  pub execute_texture-Counts :
      (path : String) (vm : Vm) → Counts digest vm (execute_texture files digest path vm)
  unfolding execute_texture
  execute_texture-Counts path vm = chain-Counts vm vm.max_chain false path vm (record {
    same_config = refl;
    same_generation = refl;
    same_hash = refl;
    same_registry = refl;
  })
