-- ===== src/Examples/Machines.antt =====
-- A VM with two threads and the default map, and small rasters.
use zdx_paralell_pyxel_vm.Base.{ℕ, zero, suc, String, false, none, List, [], ◌∷◌, get_or}
use zdx_paralell_pyxel_vm.Vm.Isa.{Pixel, nop, default_map}
use zdx_paralell_pyxel_vm.Vm.Machine.{Config, Vm, Raster}
use zdx_paralell_pyxel_vm.Vm.Checkpoint.{CheckpointState, zero_regs}

abbrev pub settings : Config
settings = record {
  threads = 2;
  persist_shared = false;
  strict_mode = false;
  max_chain = 2;
  max_col_steps = 10;
  opmap = default_map;
}

abbrev pub idle_vm : Vm
idle_vm = record {
  config = settings;
  clock = 0;
  registers = λ y. zero_regs;
  shared = λ m. 0;
  next_frame = none;
  frame_registry = (0, "whisperframe_B.png") ∷ [];
  execution_generation = 0;
  last_checkpoint_hash = "empty";
}

abbrev pub pixel : ℕ → ℕ → ℕ → Pixel
pixel r g b = record { r = r; g = g; b = b }

abbrev pub one_row : List Pixel → ℕ → Raster
one_row row width = record { height = 1; width = width; pixel = λ y x. get_or row x nop }

-- SET_A 200, SET_B 100, ADD
abbrev pub add_frame : Raster
add_frame = one_row (pixel 10 0 200 ∷ pixel 11 0 100 ∷ pixel 20 0 0 ∷ []) 3

-- JMP 0
abbrev pub loop_frame : Raster
loop_frame = record { height = 1; width = 1; pixel = λ y x. pixel 70 0 0 }

-- SAVE_STATE 0
abbrev pub link_frame : Raster
link_frame = record { height = 1; width = 1; pixel = λ y x. pixel 60 0 0 }

abbrev pub black_frame : Raster
black_frame = record { height = 1; width = 1; pixel = λ y x. nop }

-- A digest that tells the first generation from the later ones.
abbrev pub toy_digest : CheckpointState → String
toy_digest s = elim s.generation [ zero ↦ "empty" | suc n ↦ "run" ]
