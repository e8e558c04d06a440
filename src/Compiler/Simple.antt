-- ===== src/Compiler/Simple.antt =====
-- `_INSTR_SPECS`, `_SYNTHETIC`, `_expand`, `_parse_one` and `compile` of SimpleCompiler, and the
-- program builders.
use zdx_paralell_pyxel_vm.Base.{
  ℕ, Bool, true, false, ◌||◌, Option, none, some, List, [], ◌∷◌, ◌++◌, map, min, max, ◌==◌,
  if◌then◌else◌, length, get_or,
}
use zdx_paralell_pyxel_vm.Vm.Isa.{
  Pixel, nop, Opcode, set_reg, set_b, not_a, add_thread, sub, mul, div, copy_out, if_a_eq, cmp,
  load_mem, store_mem, verify_freq, save_state, jmp, halt, Opmap,
}
use zdx_paralell_pyxel_vm.Vm.Machine.{Raster}
use zdx_paralell_pyxel_vm.Compiler.Text.{
  Text, codes, same_text, split, upper, ℤ, pos, negsuc, int, decimal,
}

-- `lambda a: 0`, `lambda a: int(a[0])` and `lambda a: int(a[0]) if a else 0`.
pub data Builder : Type 0 where
  nothing first first_if_any : Builder

abbrev pub Spec : Type 0
Spec = Opcode × Builder × Builder

unfoldable pub instr_specs : List (Text × Spec)
instr_specs =
    (codes "SET_A", (set_reg, nothing, first))
    ∷ (codes "SET_B", (set_b, nothing, first))
    ∷ (codes "ADD", (add_thread, nothing, nothing))
    ∷ (codes "IF_A_EQ", (if_a_eq, nothing, first))
    ∷ (codes "LOAD_MEM", (load_mem, first, nothing))
    ∷ (codes "STORE_MEM", (store_mem, first, nothing))
    ∷ (codes "VERIFY_FREQ", (verify_freq, nothing, nothing))
    ∷ (codes "SAVE_STATE", (save_state, first_if_any, nothing))
    ∷ (codes "HALT", (halt, nothing, nothing))
    ∷ (codes "NOT", (not_a, nothing, nothing))
    ∷ (codes "SUB", (sub, nothing, nothing))
    ∷ (codes "MUL", (mul, nothing, nothing))
    ∷ (codes "DIV", (div, nothing, nothing))
    ∷ (codes "CMP", (cmp, nothing, nothing))
    ∷ (codes "JMP", (jmp, first, nothing))
    ∷ (codes "COPY_OUT", (copy_out, nothing, nothing))
    ∷ []

unfoldable pub find_spec : Text → List (Text × Spec) → Option Spec
find_spec op [] = none
find_spec op ((name, spec) ∷ rest) = if same_text name op then some spec else find_spec op rest

unfoldable pub same_opcode : Opcode → Opcode → Bool
same_opcode set_reg set_reg = true
same_opcode set_b set_b = true
same_opcode not_a not_a = true
same_opcode add_thread add_thread = true
same_opcode sub sub = true
same_opcode mul mul = true
same_opcode div div = true
same_opcode copy_out copy_out = true
same_opcode if_a_eq if_a_eq = true
same_opcode cmp cmp = true
same_opcode load_mem load_mem = true
same_opcode store_mem store_mem = true
same_opcode verify_freq verify_freq = true
same_opcode save_state save_state = true
same_opcode jmp jmp = true
same_opcode halt halt = true
same_opcode _ _ = false

-- `self._map[key][0]`, if the key is there. No specification asks for an `other` opcode.
unfoldable pub code_of : Opmap → Opcode → Option ℕ
code_of [] op = none
code_of ((name, p) ∷ m) op = if same_opcode name op then some p.r else code_of m op

-- `max(0, min(255, v))`
abbrev pub clamp : ℤ → ℕ
clamp (pos n) = min 255 n
clamp (negsuc n) = 0

abbrev pub clamped : Option ℤ → Option ℕ
clamped none = none
clamped (some v) = some (clamp v)

-- A builder's value in the channel, or `none` for an IndexError or a ValueError.
unfoldable pub build : Builder → List Text → Option ℕ
build nothing args = some 0
build first [] = none
build first (a ∷ args) = clamped (int a)
build first_if_any [] = some 0
build first_if_any (a ∷ args) = clamped (int a)

abbrev pub channels : ℕ → Option ℕ → Option ℕ → Pixel
channels r (some g) (some b) = record { r = r; g = g; b = b }
channels r _ _ = nop

unfoldable pub emit : Opmap → Spec → List Text → Pixel
unfolding build
emit m (op, gb, bb) args = elim (code_of m op) [
  | none ↦ nop
  | some r ↦ channels r (build gb args) (build bb args)
]

-- `_parse_one`
unfoldable pub parse_words : Opmap → List Text → Pixel
unfolding emit
parse_words m [] = nop
parse_words m (op ∷ args) = elim (find_spec (upper op) instr_specs) [
  | none ↦ nop
  | some spec ↦ emit m spec args
]

unfoldable pub parse_one : Opmap → Text → Pixel
unfolding parse_words
parse_one m instr = parse_words m (split instr)

-- `_expand` of one instruction: OUT_TO_A becomes COPY_OUT.
abbrev pub expand_words : Text → List Text → Text
expand_words instr [] = instr
expand_words instr (op ∷ args) =
    if same_text (upper op) (codes "OUT_TO_A") then codes "COPY_OUT" else instr

unfoldable pub expand_instr : Text → Text
expand_instr instr = expand_words instr (split instr)

unfoldable pub expand : List (List Text) → List (List Text)
unfolding expand_instr
expand = map (map expand_instr)

-- `max((len(row) for row in program), default=0)`
unfoldable pub num_cols : List (List Text) → ℕ
num_cols [] = 0
num_cols (row ∷ rows) = max (length row) (num_cols rows)

-- The image of the expanded rows, black where no instruction stands; `none` for an empty program, of
-- which nothing is saved.
unfoldable pub image_of : Opmap → List (List Text) → Option Raster
unfolding parse_one num_cols
image_of m rows =
    if length rows == 0 || num_cols rows == 0
    then none
    else some (record {
      height = length rows;
      width = num_cols rows;
      pixel = λ y x. get_or (map (parse_one m) (get_or rows y [])) x nop;
    })

-- `compile`
unfoldable pub compile : Opmap → List (List Text) → Option Raster
unfolding expand image_of
compile m program = image_of m (expand program)

-- `build_compute_and_store`
unfoldable pub build_compute_and_store : ℕ → ℕ → ℕ → List (List Text)
build_compute_and_store a b mem_idx =
    ((codes "SET_A " ++ decimal a)
      ∷ (codes "SET_B " ++ decimal b)
      ∷ codes "ADD"
      ∷ (codes "STORE_MEM " ++ decimal mem_idx)
      ∷ [])
    ∷ []

-- `build_conditional_write`
unfoldable pub build_conditional_write : ℕ → ℕ → List (List Text)
build_conditional_write mem_idx compare_val =
    ((codes "LOAD_MEM " ++ decimal mem_idx)
      ∷ (codes "IF_A_EQ " ++ decimal compare_val)
      ∷ codes "SET_A 1"
      ∷ codes "HALT"
      ∷ [])
    ∷ []

-- `build_validation_pattern`
unfoldable pub build_validation_pattern : List (List Text)
build_validation_pattern = (codes "VERIFY_FREQ" ∷ codes "IF_A_EQ 1" ∷ codes "HALT" ∷ []) ∷ []
