-- ===== src/Compiler/Listing.antt =====
-- The assembly text of an instruction, and what the VM decodes from the image that is compiled of it.
use zdx_paralell_pyxel_vm.Base.{
  ℕ, zero, suc, ◌<◌, ◌≡◌, refl, Bool, true, false, ◌||◌, Option, some, List, [], ◌∷◌, ◌++◌, map,
  min, length, get_or, get_elem?, ◌==◌, arith,
}
use zdx_paralell_pyxel_vm.Vm.Isa.{
  Pixel, nop, Opcode, set_reg, set_b, not_a, add_thread, sub, mul, div, copy_out, if_a_eq, cmp,
  load_mem, store_mem, verify_freq, save_state, jmp, halt, other, default_map, rev_opmap,
}
use zdx_paralell_pyxel_vm.Vm.Machine.{Raster}
use zdx_paralell_pyxel_vm.Compiler.Text.{Text, codes, split, upper, same_text, decimal}
use zdx_paralell_pyxel_vm.Compiler.Number.{int-decimal, split-decimal}
use zdx_paralell_pyxel_vm.Compiler.Simple.{
  instr_specs, find_spec, code_of, same_opcode, build, parse_one, expand_instr, expand, compile,
  num_cols,
}

-- An instruction and its operand, which only some of them have.
abbrev pub Instruction : Type 0
Instruction = Opcode × ℕ

abbrev pub has_name : Opcode → Bool
has_name (other name) = false
has_name _ = true

-- The text of an instruction, as the documentation of the instruction set spells it.
abbrev pub line : Instruction → Text
line (set_reg, n) = codes "SET_A " ++ decimal n
line (set_b, n) = codes "SET_B " ++ decimal n
line (not_a, n) = codes "NOT"
line (add_thread, n) = codes "ADD"
line (sub, n) = codes "SUB"
line (mul, n) = codes "MUL"
line (div, n) = codes "DIV"
line (copy_out, n) = codes "COPY_OUT"
line (if_a_eq, n) = codes "IF_A_EQ " ++ decimal n
line (cmp, n) = codes "CMP"
line (load_mem, n) = codes "LOAD_MEM " ++ decimal n
line (store_mem, n) = codes "STORE_MEM " ++ decimal n
line (verify_freq, n) = codes "VERIFY_FREQ"
line (save_state, n) = codes "SAVE_STATE " ++ decimal n
line (jmp, n) = codes "JMP " ++ decimal n
line (halt, n) = codes "HALT"
line (other name, n) = []

-- The G channel holds a slot, a frame or a column, and the B channel a value; either is at most 255.
abbrev pub g_operand : Instruction → ℕ
g_operand (load_mem, n) = min 255 n
g_operand (store_mem, n) = min 255 n
g_operand (save_state, n) = min 255 n
g_operand (jmp, n) = min 255 n
g_operand _ = 0

abbrev pub b_operand : Instruction → ℕ
b_operand (set_reg, n) = min 255 n
b_operand (set_b, n) = min 255 n
b_operand (if_a_eq, n) = min 255 n
b_operand _ = 0

-- The VM reads the pixel as the instruction.
abbrev pub Reads : Instruction → Pixel → Type 0
Reads i p = (rev_opmap default_map p.r ≡ some i.0) × (p.g ≡ g_operand i) × (p.b ≡ b_operand i)

line-Reads :
    (op : Opcode) (n : ℕ)
    → has_name op ≡ true
    → Reads (op, n) (parse_one default_map (expand_instr (line (op, n))))
unfolding parse_one expand_instr upper same_text instr_specs find_spec code_of same_opcode
    default_map rev_opmap split build
line-Reads set_reg n h = rw (split-decimal n, int-decimal n) (refl, refl, refl)
line-Reads set_b n h = rw (split-decimal n, int-decimal n) (refl, refl, refl)
line-Reads if_a_eq n h = rw (split-decimal n, int-decimal n) (refl, refl, refl)
line-Reads load_mem n h = rw (split-decimal n, int-decimal n) (refl, refl, refl)
line-Reads store_mem n h = rw (split-decimal n, int-decimal n) (refl, refl, refl)
line-Reads save_state n h = rw (split-decimal n, int-decimal n) (refl, refl, refl)
line-Reads jmp n h = rw (split-decimal n, int-decimal n) (refl, refl, refl)
line-Reads (other name) n h = absurd (ground (arith, h))
line-Reads _ n h = (refl, refl, refl)

abbrev pub listing : List (List Instruction) → List (List Text)
listing = map (map line)

-- What stands in row y and column x.
abbrev pub at {ℓ} : {A : Type ℓ} → List (List A) → ℕ → ℕ → Option A
at rows y x = get_elem? (get_or rows y []) x

module _ {A B : Type 0} (f : A → B) where
  get_elem?-map :
      (row : List A) (x : ℕ) (a : A)
      → get_elem? row x ≡ some a
      → get_elem? (map f row) x ≡ some (f a)
  get_elem?-map [] x a e = cc
  get_elem?-map (b ∷ row) zero a e = cc
  get_elem?-map (b ∷ row) (suc x) a e = get_elem?-map row x a e

  get_or-map_at :
      (row : List A) (x : ℕ) (a : A) (d : B)
      → get_elem? row x ≡ some a
      → get_or (map f row) x d ≡ f a
  get_or-map_at [] x a d e = cc
  get_or-map_at (b ∷ row) zero a d e = cc
  get_or-map_at (b ∷ row) (suc x) a d e = get_or-map_at row x a d e

  at-map :
      (rows : List (List A)) (y x : ℕ) (a : A)
      → at rows y x ≡ some a
      → at (map (map f) rows) y x ≡ some (f a)
  at-map [] y x a e = cc
  at-map (row ∷ rows) zero x a e = get_elem?-map row x a e
  at-map (row ∷ rows) (suc y) x a e = at-map rows y x a e

get_elem?-lt : (row : List Text) (x : ℕ) (t : Text) → get_elem? row x ≡ some t → x < length row
get_elem?-lt [] x t e = cc
get_elem?-lt (b ∷ row) zero t e = omega arith
get_elem?-lt (b ∷ row) (suc x) t e = omega (arith, get_elem?-lt row x t e)

at-lt :
    (rows : List (List Text)) (y x : ℕ) (t : Text)
    → at rows y x ≡ some t
    → (y < length rows) × (x < num_cols rows)
unfolding num_cols
at-lt [] y x t e = cc
at-lt (row ∷ rows) zero x t e = ground (arith, get_elem?-lt row x t e)
at-lt (row ∷ rows) (suc y) x t e = ground (arith, at-lt rows y x t e)

-- Where a program holds a named instruction, its text is compiled under the default map to an image
-- that has a pixel in the same row and column, which the VM with the default map reads as the
-- instruction: it decodes the R channel to the opcode, and the operand, at most 255, is in the channel
-- that this opcode has it in, and 0 in the other.
pub compile-Reads :
    (program : List (List Instruction)) (y x : ℕ) (op : Opcode) (n : ℕ)
    → at program y x ≡ some (op, n)
    → has_name op ≡ true
    → (img : Raster) × (compile default_map (listing program) ≡ some img)
      × (y < img.height)
      × (x < img.width)
      × Reads (op, n) (img.pixel y x)
unfolding compile expand
compile-Reads program y x op n e named =
    let rows = expand (listing program) in
    let cell : at rows y x ≡ some (expand_instr (line (op, n))) =
      at-map expand_instr (listing program) y x (line (op, n))
        (at-map line program y x (op, n) e) in
    let (low, left) = at-lt rows y x (expand_instr (line (op, n))) cell in
    let saves : (length rows == 0 || num_cols rows == 0) ≡ false = ground (arith, low, left) in
    (
      record {
        height = length rows;
        width = num_cols rows;
        pixel = λ j i. get_or (map (parse_one default_map) (get_or rows j [])) i nop;
      },
      rw saves refl,
      low,
      left,
      rw
          (get_or-map_at (parse_one default_map) (get_or rows y []) x (expand_instr (line (op, n)))
            nop cell)
          (line-Reads op n named),
    )
