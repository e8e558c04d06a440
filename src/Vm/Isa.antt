-- ===== src/Vm/Isa.antt =====
-- The opcode map of zdx_parallel_vm.py: `MAP`, and the lookup by the R channel that the VM builds.
use zdx_paralell_pyxel_vm.Base.{
  ℕ, String, ◌≡◌, refl, Option, none, some, List, [], ◌∷◌, ◌==◌, if◌then◌else◌,
}

-- An RGB pixel of the raster. Its channels are below 256 in a `uint8` array.
pub record Pixel : Type 0 where
  pub r : ℕ
  pub g : ℕ
  pub b : ℕ

abbrev pub nop : Pixel
nop = record { r = 0; g = 0; b = 0 }

-- The names that the dispatch of `_execute_array` tests for; `other` is any name of a custom map
-- that it does not know.
pub data Opcode : Type 0 where
  set_reg set_b not_a add_thread sub mul div copy_out : Opcode
  if_a_eq cmp load_mem store_mem verify_freq save_state jmp halt : Opcode
  other : String → Opcode

abbrev pub Opmap : Type 0
Opmap = List (Opcode × Pixel)

abbrev pub code_only : ℕ → Pixel
code_only r = record { r = r; g = 0; b = 0 }

-- `MAP`, in its order.
unfoldable pub default_map : Opmap
default_map =
    (set_reg, code_only 10)
    ∷ (set_b, code_only 11)
    ∷ (not_a, code_only 12)
    ∷ (add_thread, code_only 20)
    ∷ (sub, code_only 21)
    ∷ (mul, code_only 22)
    ∷ (div, code_only 23)
    ∷ (if_a_eq, code_only 30)
    ∷ (cmp, code_only 31)
    ∷ (load_mem, code_only 40)
    ∷ (store_mem, code_only 41)
    ∷ (verify_freq, code_only 50)
    ∷ (save_state, code_only 60)
    ∷ (jmp, code_only 70)
    ∷ (copy_out, code_only 24)
    ∷ (halt, code_only 255)
    ∷ []

-- `{v[0]: k for k, v in map.items()}.get(r)`: of two names with one R channel the later one stays.
unfoldable pub rev_opmap : Opmap → ℕ → Option Opcode
rev_opmap [] r = none
rev_opmap ((name, p) ∷ m) r = elim (rev_opmap m r) [
  | some later ↦ some later
  | none ↦ if p.r == r then some name else none
]

rev_opmap_jmp : rev_opmap default_map 70 ≡ some jmp
unfolding rev_opmap default_map
rev_opmap_jmp = refl
