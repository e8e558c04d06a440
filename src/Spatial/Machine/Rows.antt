-- ===== src/Spatial/Machine/Rows.antt =====
-- zdx_spatial_frame.py, SpatialPyxelVM: which rows of a frame a run depends on.
use zdx_paralell_pyxel_vm.Base.{
  ℕ, zero, suc, ◌-◌, ◌≤◌, ◌<◌, ◌≡◌, refl, sym, ◌∙◌, ap, fun_ext, subst, String, Option, none, some,
  ltb, ltb→lt, arith, inl, inr, Bool-cases,
}
use zdx_paralell_pyxel_vm.Vm.Isa.{Pixel, Opcode, verify_freq, rev_opmap}
use zdx_paralell_pyxel_vm.Vm.Machine.{Vm, Raster, Cpu, Outcome, next, raise}
use zdx_paralell_pyxel_vm.Vm.Exec.{exec, dispatch, tick, step_thread}
use zdx_paralell_pyxel_vm.Vm.Frame.{
  ◌>>=◌, run_threads, run_column, run_columns, execute_array, FrameResult, fresh, resume,
  next_column,
}
use zdx_paralell_pyxel_vm.Vm.Frame.Invariant.{at_column, run_column-Leaves}
use zdx_paralell_pyxel_vm.Vm.Checkpoint.{CheckpointState}
use zdx_paralell_pyxel_vm.Vm.Chain.Generation.{SameMark, Marks, step_thread-Marks}
use zdx_paralell_pyxel_vm.Vm.Chain.{Files}
use zdx_paralell_pyxel_vm.Spatial.Layout.{Layout}
use zdx_paralell_pyxel_vm.Spatial.Cells.{SpatialFrame}
use zdx_paralell_pyxel_vm.Spatial.Machine.{execute_spatial_frame}

module _ (h w rows : ℕ) (one other : ℕ → ℕ → Pixel)
    (agree : (y x : ℕ) → y < rows → one y x ≡ other y x) where
  abbrev first : Raster
  first = record { height = h; width = w; pixel = one }

  abbrev second : Raster
  second = record { height = h; width = w; pixel = other }

  exec-agrees :
      (p : Pixel) (x y : ℕ) (c : Cpu) (op : Opcode)
      → y < rows
      → exec first p x y c op ≡ exec second p x y c op
  unfolding exec
  exec-agrees p x y c verify_freq low = rw (agree y (w - 1 - x) low) refl
  exec-agrees p x y c _ low = refl

  dispatch-agrees :
      (p : Pixel) (x y : ℕ) (c : Cpu) (op : Option Opcode)
      → y < rows
      → dispatch first p x y c op ≡ dispatch second p x y c op
  unfolding dispatch
  dispatch-agrees p x y c none low = refl
  dispatch-agrees p x y c (some op) low = exec-agrees p x y c op low

  step_thread-agrees :
      (x y : ℕ) (c : Cpu) → y < rows → step_thread first x y c ≡ step_thread second x y c
  unfolding step_thread
  step_thread-agrees x y c low = rw (agree y x low) (
      ground
        (arith, dispatch-agrees (other y x) x y (tick x y c) (rev_opmap c.opmap (other y x).r) low))

  run_threads-agrees :
      (x n : ℕ) (c : Cpu) → n ≤ rows → run_threads first x n c ≡ run_threads second x n c
  unfolding run_threads
  run_threads-agrees x zero c low = refl
  run_threads-agrees x (suc n) c low =
      ap (λ o. o >>= step_thread first x n) (run_threads-agrees x n c (omega arith))
      ∙ ap (λ f. run_threads second x n c >>= f)
          (fun_ext (λ d. step_thread-agrees x n d (omega arith)))

  module _ (v : Vm) (few : v.threads ≤ rows) where
    run_column-agrees :
        (x : ℕ) (c : Cpu) → SameMark v c.vm → run_column first x c ≡ run_column second x c
    unfolding run_column
    run_column-agrees x c m =
        run_threads-agrees x c.threads (at_column x c)
          (subst (λ k. k.threads ≤ rows) (sym m.same_config) few)

    resume-agrees :
        (f g : ℕ → Cpu → FrameResult)
        → ((x : ℕ) (c : Cpu) → SameMark v c.vm → f x c ≡ g x c)
        → (x : ℕ) (o : Outcome) → Marks v o
        → resume f x o ≡ resume g x o
    resume-agrees f g same x (next c) m = same (next_column x c.jump_to) c m
    resume-agrees f g same x (raise e vm) m = refl

    column-Marks : (x : ℕ) (c : Cpu) → x < w → SameMark v c.vm → Marks v (run_column second x c)
    column-Marks x c lt m =
        run_column-Leaves second (λ d. SameMark v d.vm) (SameMark v)
          (λ i d n. record {
            same_config = n.same_config;
            same_generation = n.same_generation;
            same_hash = n.same_hash;
            same_registry = n.same_registry;
          })
          (λ i y d h n. step_thread-Marks v second i y d n) x c lt m

    run_columns-agrees :
        (steps x : ℕ) (c : Cpu)
        → SameMark v c.vm
        → run_columns first steps x c ≡ run_columns second steps x c
    unfolding run_columns
    run_columns-agrees zero x c m = refl
    run_columns-agrees (suc steps) x c m = elim (Bool-cases (ltb x w)) [
      | inr over ↦ rw over refl
      | inl more ↦
          rw (more, run_column-agrees x c m)
            (resume-agrees (run_columns first steps) (run_columns second steps)
              (run_columns-agrees steps) x (run_column second x c)
              (column-Marks x c (ltb→lt x w more) m))
    ]

    execute_array-agrees : execute_array v first ≡ execute_array v second
    unfolding execute_array
    execute_array-agrees = run_columns-agrees v.max_col_steps 0 (fresh v) (record {
      same_config = refl;
      same_generation = refl;
      same_hash = refl;
      same_registry = refl;
    })

module _ (files : Files) (digest : CheckpointState → String) where
  -- A SpatialPyxelVM, whose threads are the layout's executable rows, does the same with two frames
  -- of one layout whose executable rows agree: what the storage rows hold changes neither the
  -- registers, the memory, the marker, the chained frame nor the error.
  pub execute_spatial_frame-rows :
      (l : Layout) (f g : SpatialFrame) (vm : Vm)
      → vm.threads ≡ l.execution_rows
      → f.layout ≡ g.layout
      → ((y x : ℕ) → y < l.execution_rows → f.pixel x y ≡ g.pixel x y)
      → execute_spatial_frame files digest l f vm ≡ execute_spatial_frame files digest l g vm
  unfolding execute_spatial_frame
  execute_spatial_frame-rows l f g vm threads same agree =
      rw
        (
          same,
          execute_array-agrees g.layout.height g.layout.width l.execution_rows (λ y x. f.pixel x y)
              (λ y x. g.pixel x y) agree vm (omega arith),
        )
        refl
