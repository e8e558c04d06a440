-- ===== src/Examples/Programs.antt =====
-- Compiled programs.
use zdx_paralell_pyxel_vm.Base.{ℕ, ◌≡◌, refl, some, List, [], ◌<◌, ◌∷◌, ◌==◌, if◌then◌else◌, arith}
use zdx_paralell_pyxel_vm.Vm.Isa.{set_reg, sub, halt, store_mem, default_map}
use zdx_paralell_pyxel_vm.Vm.Machine.{Vm, Raster, IsUint8}
use zdx_paralell_pyxel_vm.Vm.Frame.{execute_array, done}
use zdx_paralell_pyxel_vm.Compiler.Text.{codes, split, upper, same_text, int}
use zdx_paralell_pyxel_vm.Compiler.Simple.{
  instr_specs, find_spec, code_of, same_opcode, build, parse_one, compile, build_compute_and_store,
}
use zdx_paralell_pyxel_vm.Compiler.Decode.{compile-IsUint8}
use zdx_paralell_pyxel_vm.Compiler.Listing.{Instruction, Reads, listing, compile-Reads}
use zdx_paralell_pyxel_vm.Compiler.Programs.{CanRun, image, compiles, compute_and_store}
use zdx_paralell_pyxel_vm.Examples.Machines.{idle_vm, pixel}

-- Lower case, spaces around, an operand above 255.
set_a_clamped : parse_one default_map (codes "  set_a  300 ") ≡ pixel 10 0 255
unfolding parse_one upper same_text instr_specs find_spec split code_of same_opcode default_map
    build int
set_a_clamped = refl

-- SET_A 7, SUB and HALT, and STORE_MEM 300 in the row below.
abbrev two_rows : List (List Instruction)
two_rows = ((set_reg, 7) ∷ (sub, 0) ∷ (halt, 0) ∷ []) ∷ ((store_mem, 300) ∷ []) ∷ []

compile-Reads_example :
    (img : Raster) × (compile default_map (listing two_rows) ≡ some img)
    × (1 < img.height)
    × (0 < img.width)
    × Reads (store_mem, 300) (img.pixel 1 0)
compile-Reads_example = compile-Reads two_rows 1 0 store_mem 300 refl refl

compile-IsUint8_example : IsUint8 (image 3 4 5)
compile-IsUint8_example =
    compile-IsUint8 (build_compute_and_store 3 4 5) (image 3 4 5) (compiles 3 4 5)

idle_vm-CanRun : CanRun idle_vm
idle_vm-CanRun = record { default = refl; a_thread = omega arith; budget = omega arith }

compute_and_store_example :
    (raster : Raster) × (vm' : Vm) × (compile default_map (build_compute_and_store 200 100 3)
      ≡ some raster)
    × (execute_array idle_vm raster ≡ done vm')
    × ((k : ℕ) → vm'.shared k ≡ (if k == 3 then 200 else 0))
    × ((vm'.registers 0).out ≡ 44)
compute_and_store_example =
    compute_and_store 200 100 3 (omega arith) (omega arith) (omega arith) idle_vm idle_vm-CanRun
