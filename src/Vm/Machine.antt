-- ===== src/Vm/Machine.antt =====
-- The state of ParallelPyxelVM and of one call of `_execute_array`.
use zdx_paralell_pyxel_vm.Base.{
  ℕ, ◌<◌, String, Bool, Option, none, some, List, [], ◌∷◌, ◌==◌, if◌then◌else◌, put,
}
use zdx_paralell_pyxel_vm.Vm.Isa.{Pixel, Opmap}

-- The registers of a thread, `{"A": …, "B": …, "OUT": …, "T": …}`.
pub record Regs : Type 0 where
  pub a : ℕ
  pub b : ℕ
  pub out : ℕ
  pub t : ℕ

-- The constructor's arguments.
pub record Config : Type 0 where
  pub threads : ℕ
  pub persist_shared : Bool
  pub strict_mode : Bool
  pub max_chain : ℕ
  pub max_col_steps : ℕ
  pub opmap : Opmap

-- `registers y` stands for `self.registers["T{y}"]`, with y below `threads`, and `shared m` for
-- `self.shared["M{m}"]`, with m below 8.
pub record Vm : Type 0 where
  pub config : Config
  pub open config use *
  pub clock : ℕ
  pub registers : ℕ → Regs
  pub shared : ℕ → ℕ
  pub next_frame : Option String
  pub frame_registry : List (ℕ × String)
  pub execution_generation : ℕ
  pub last_checkpoint_hash : String

-- `arr`: `pixel y x` is `arr[y, x]`, for y below the height and x below the width.
pub record Raster : Type 0 where
  pub height : ℕ
  pub width : ℕ
  pub pixel : ℕ → ℕ → Pixel

-- The VM with the locals `halted`, `skip_next` and `jump_to`. The local `next_frame` always agrees
-- with the field of that name.
pub record Cpu : Type 0 where
  pub vm : Vm
  pub open vm use *
  pub halted : ℕ → Bool
  pub skip_next : ℕ → Bool
  pub jump_to : Option ℕ

pub data VmError : Type 0 where
  invalid_threads invalid_max_chain invalid_max_col_steps : VmError
  invalid_load invalid_store : ℕ → VmError
  unknown_opcode : Pixel → VmError
  max_col_steps_reached : ℕ → VmError
  max_chain_reached missing_frame unreadable : String → VmError
  hash_mismatch wrong_registers wrong_shared shared_not_object : VmError

-- What a statement leaves: `raise` keeps what was written to the VM before the exception.
pub data Outcome : Type 0 where
  next : Cpu → Outcome
  raise : VmError → Vm → Outcome

abbrev pub slots : ℕ
slots = 8

-- `self.frame_registry[index]`, if it is there.
unfoldable pub frame_at : List (ℕ × String) → ℕ → Option String
frame_at [] index = none
frame_at ((i, path) ∷ rest) index = if i == index then some path else frame_at rest index

-- `register_frame`: an index that is there keeps its place.
unfoldable pub insert_frame : ℕ → String → List (ℕ × String) → List (ℕ × String)
insert_frame index path [] = (index, path) ∷ []
insert_frame index path ((i, old) ∷ rest) =
    if i == index then (i, path) ∷ rest else (i, old) ∷ insert_frame index path rest

pub register_frame : ℕ → String → Vm → Vm
register_frame index path vm = record vm {
  frame_registry = insert_frame index path vm.frame_registry;
}

abbrev pub regs : Cpu → ℕ → Regs
regs c y = c.registers y

-- `thread` is the dictionary of the thread itself, so a write to it is a write to the VM.
abbrev pub set_regs : ℕ → Regs → Cpu → Cpu
set_regs y r c = record c { vm = record c.vm { registers = put c.registers y r } }

abbrev pub set_slot : ℕ → ℕ → Cpu → Cpu
set_slot m v c = record c { vm = record c.vm { shared = put c.shared m v } }

-- A `uint8` array holds bytes.
pub record IsUint8 (img : Raster) : Type 0 where
  pub bytes :
      (y x : ℕ) → ((img.pixel y x).r < 256) × ((img.pixel y x).g < 256) × ((img.pixel y x).b < 256)
