-- ===== src/Compiler/Programs.antt =====
-- A program of the builders, from its text to the state that the VM ends in.
use zdx_paralell_pyxel_vm.Base.{
  ℕ, suc, ◌+◌, ◌-◌, ◌%◌, ◌≤◌, ◌<◌, ◌≡◌, refl, ◌∙◌, ap, ◌==◌, if◌then◌else◌, false, some, List, [],
  ◌∷◌, ◌++◌, arith, lt→ltb, min, map, get_or,
}
use zdx_paralell_pyxel_vm.Vm.Isa.{
  Pixel, nop, set_reg, set_b, add_thread, store_mem, default_map, rev_opmap, Opmap,
}
use zdx_paralell_pyxel_vm.Vm.Machine.{Vm, Raster, Cpu, regs, set_regs, set_slot}
use zdx_paralell_pyxel_vm.Vm.Exec.{exec, byte, tick}
use zdx_paralell_pyxel_vm.Vm.OneRow.{instruction_step, columns_end}
use zdx_paralell_pyxel_vm.Vm.Frame.{run_columns, execute_array, done, fresh}
use zdx_paralell_pyxel_vm.Vm.Frame.Invariant.{at_column}
use zdx_paralell_pyxel_vm.Compiler.Text.{Text, codes, split, upper, same_text, decimal}
use zdx_paralell_pyxel_vm.Compiler.Number.{int-decimal, split-decimal}
use zdx_paralell_pyxel_vm.Compiler.Simple.{
  instr_specs, find_spec, code_of, same_opcode, parse_one, compile, build_compute_and_store,
}

abbrev pixel_of : ℕ → ℕ → ℕ → Pixel
pixel_of r g b = record { r = r; g = g; b = b }

module _ (n : ℕ) where
  set_a_pixel : parse_one default_map (codes "SET_A " ++ decimal n) ≡ pixel_of 10 0 (min 255 n)
  unfolding parse_one upper same_text instr_specs find_spec code_of same_opcode default_map split
  set_a_pixel = rw (split-decimal n, int-decimal n)

  set_b_pixel : parse_one default_map (codes "SET_B " ++ decimal n) ≡ pixel_of 11 0 (min 255 n)
  unfolding parse_one upper same_text instr_specs find_spec code_of same_opcode default_map split
  set_b_pixel = rw (split-decimal n, int-decimal n)

  store_mem_pixel :
      parse_one default_map (codes "STORE_MEM " ++ decimal n) ≡ pixel_of 41 (min 255 n) 0
  unfolding parse_one upper same_text instr_specs find_spec code_of same_opcode default_map split
  store_mem_pixel = rw (split-decimal n, int-decimal n)

module _ (a b m : ℕ) where
  abbrev pub row : List Text
  row =
      (codes "SET_A " ++ decimal a)
      ∷ (codes "SET_B " ++ decimal b)
      ∷ codes "ADD"
      ∷ (codes "STORE_MEM " ++ decimal m)
      ∷ []

  abbrev pub image : Raster
  image = record {
    height = 1;
    width = 4;
    pixel = λ y x. get_or (map (parse_one default_map) (get_or (row ∷ []) y [])) x nop;
  }

  pub compiles : compile default_map (build_compute_and_store a b m) ≡ some image
  unfolding compile build_compute_and_store upper same_text split
  compiles = refl

-- The VM runs the default map, has a thread, and a budget of four columns.
pub record CanRun (vm : Vm) : Type 0 where
  pub default : vm.opmap ≡ default_map
  pub a_thread : 0 < vm.threads
  pub budget : 4 ≤ vm.max_col_steps

-- Thread 0 at column x after its clock has been set.
abbrev ticked : ℕ → Cpu → Cpu
ticked x c = tick x 0 (at_column x c)

module _ (a b m : ℕ) (small_a : a < 256) (small_b : b < 256) (a_slot : m < 8) where
  abbrev img : Raster
  img = image a b m

  codes_decode :
      (k : Opmap)
      → k ≡ default_map
      → (rev_opmap k 10 ≡ some set_reg)
        × (rev_opmap k 11 ≡ some set_b)
        × (rev_opmap k 20 ≡ some add_thread)
        × (rev_opmap k 41 ≡ some store_mem)
  unfolding rev_opmap default_map
  codes_decode k e = rw e (refl, refl, refl, refl)

  add_pixel : parse_one default_map (codes "ADD") ≡ pixel_of 20 0 0
  unfolding parse_one upper same_text instr_specs find_spec code_of same_opcode default_map split
  add_pixel = refl

  runs :
      (steps : ℕ) (c : Cpu)
      → c.opmap ≡ default_map
      → 0 < c.threads
      → c.halted 0 ≡ false
      → c.skip_next 0 ≡ false
      → (d : Cpu) × (run_columns img (suc (suc (suc (suc steps)))) 0 c ≡ run_columns img steps 4 d)
        × ((d.registers 0).a ≡ a)
        × ((d.registers 0).out ≡ (a + b) % 256)
        × ((k : ℕ) → d.shared k ≡ (if k == m then a else c.shared k))
  unfolding exec
  runs steps c decoded threads live awake =
      let c1 : Cpu = set_regs 0 (record (regs (ticked 0 c) 0) { a = a }) (ticked 0 c) in
      let c2 : Cpu = set_regs 0 (record (regs (ticked 1 c1) 0) { b = b }) (ticked 1 c1) in
      let c3 : Cpu =
        set_regs 0 (record (regs (ticked 2 c2) 0) { out = byte (a + b) }) (ticked 2 c2) in
      let c4 : Cpu = set_slot m a (ticked 3 c3) in
      let (as_set_a, as_set_b, as_add, as_store) = codes_decode c.opmap decoded in
      (
        c4,
        instruction_step img (suc (suc (suc steps))) 0 c c1 (pixel_of 10 0 a) set_reg refl
              (set_a_pixel a ∙ ap (pixel_of 10 0) (omega arith)) (omega arith) threads live awake
              as_set_a refl refl
            ∙ instruction_step img (suc (suc steps)) 1 c1 c2 (pixel_of 11 0 b) set_b refl
                (set_b_pixel b ∙ ap (pixel_of 11 0) (omega arith)) (omega arith) threads live awake
                as_set_b refl refl
            ∙ instruction_step img (suc steps) 2 c2 c3 (pixel_of 20 0 0) add_thread refl add_pixel
                (omega arith) threads live awake as_add refl refl
            ∙ instruction_step img steps 3 c3 c4 (pixel_of 41 m 0) store_mem refl
                (store_mem_pixel m ∙ ap (λ g. pixel_of 41 g 0) (omega arith)) (omega arith) threads
                live awake as_store (rw (lt→ltb m 8 a_slot)) refl,
        refl,
        refl,
        λ k. refl,
      )

  -- For bytes a and b and a slot m below 8: compiled under the default map and run by a VM that has
  -- the default map, a thread and a budget of at least four columns, `build_compute_and_store a b m`
  -- ends normally; slot m holds a, the value that A had before the addition, every other slot is as it
  -- was, and OUT of thread 0 holds the sum as a byte.
  pub compute_and_store :
      (vm : Vm)
      → CanRun vm
      → (raster : Raster) × (vm' : Vm) × (compile default_map (build_compute_and_store a b m)
          ≡ some raster)
        × (execute_array vm raster ≡ done vm')
        × ((k : ℕ) → vm'.shared k ≡ (if k == m then a else vm.shared k))
        × ((vm'.registers 0).out ≡ (a + b) % 256)
  unfolding execute_array
  compute_and_store vm r =
      let left = vm.max_col_steps - 4 in
      let (d, ran, value, sum, slots) = runs left (fresh vm) r.default r.a_thread refl refl in
      let enough : vm.max_col_steps ≡ suc (suc (suc (suc left))) = omega arith in
      (
        img,
        d.vm,
        compiles a b m,
        ap (λ steps. run_columns img steps 0 (fresh vm)) enough
            ∙ ran
            ∙ columns_end img left 4 d refl,
        slots,
        sum,
      )
