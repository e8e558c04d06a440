-- ===== src/Compiler/Decode.antt =====
-- The channels of a compiled image.
use zdx_paralell_pyxel_vm.Base.{
  ℕ, zero, suc, ◌<◌, ◌≡◌, refl, subst, inl, inr, Bool, true, false, ◌||◌, Option, none, some, List,
  [], ◌∷◌, map, arith, ◌==◌, if◌then◌else◌, length, get_or, Option-cases,
}
use zdx_paralell_pyxel_vm.Vm.Isa.{Pixel, nop, Opcode, set_reg, default_map, rev_opmap}
use zdx_paralell_pyxel_vm.Vm.Machine.{Raster, IsUint8}
use zdx_paralell_pyxel_vm.Compiler.Text.{Text, split, upper}
use zdx_paralell_pyxel_vm.Compiler.Simple.{
  Spec, Builder, nothing, first, first_if_any, instr_specs, find_spec, same_opcode, code_of, build,
  channels, emit, parse_words, parse_one, compile, expand, num_cols,
}

-- The default map decodes what it encodes, to a byte that is not that of the black pixel.
default_map_decodes :
    (op : Opcode) (r : ℕ)
    → code_of default_map op ≡ some r
    → (rev_opmap default_map r ≡ some op) × (0 < r) × (r < 256)
unfolding code_of default_map same_opcode rev_opmap
default_map_decodes set_reg r e = ground arith
default_map_decodes _ r e = ground arith

abbrev IsBytes : Pixel → Type 0
IsBytes p = (p.r < 256) × (p.g < 256) × (p.b < 256)

build-lt : (bb : Builder) (args : List Text) (b : ℕ) → build bb args ≡ some b → b < 256
unfolding build
build-lt nothing args b e = ground arith
build-lt first [] b e = cc
build-lt first (a ∷ args) b e = ground arith
build-lt first_if_any [] b e = ground arith
build-lt first_if_any (a ∷ args) b e = ground arith

channels-IsBytes :
    (r : ℕ) (g b : Option ℕ)
    → r < 256
    → ((n : ℕ) → g ≡ some n → n < 256)
    → ((n : ℕ) → b ≡ some n → n < 256)
    → IsBytes (channels r g b)
channels-IsBytes r (some g) (some b) h k l = (h, k g refl, l b refl)
channels-IsBytes r _ _ h k l = (omega arith, omega arith, omega arith)

parse_words-IsBytes : (words : List Text) → IsBytes (parse_words default_map words)
unfolding parse_words
parse_words-IsBytes [] = omega arith
parse_words-IsBytes (op ∷ args) = specified (find_spec (upper op) instr_specs)
  where
    specified :
        (s : Option Spec) → IsBytes (elim s [ none ↦ nop | some spec ↦ emit default_map spec args ])
    specified none = omega arith
    specified (some (code, gb, bb)) = elim (Option-cases (code_of default_map code)) [
      | inl missing ↦ rw (missing, emit) (omega arith)
      | inr (r, found) ↦
          rw (found, emit)
            (channels-IsBytes r (build gb args) (build bb args) (default_map_decodes code r found).2
              (build-lt gb args) (build-lt bb args))
    ]

get_or-map :
    (f : Text → Pixel) (P : Pixel → Type 0)
    → ((t : Text) → P (f t))
    → (row : List Text) (x : ℕ) → P nop
    → P (get_or (map f row) x nop)
get_or-map f P each [] x base = base
get_or-map f P each (t ∷ row) zero base = each t
get_or-map f P each (t ∷ row) (suc x) base = get_or-map f P each row x base

saved :
    (empty : Bool) (img img' : Raster) → (if empty then none else some img) ≡ some img' → img ≡ img'
saved true img img' e = cc
saved false img img' e = cc

-- With the default map every channel of a compiled image is a byte, whatever the program's texts.
pub compile-IsUint8 :
    (program : List (List Text)) (img : Raster)
    → compile default_map program ≡ some img
    → IsUint8 img
unfolding compile
compile-IsUint8 program img e =
    let rows = expand program in
    let same = saved (length rows == 0 || num_cols rows == 0) _ img e in
    subst IsUint8 same (record {
      bytes = λ y x.
          get_or-map (parse_one default_map) IsBytes
            (λ t. unfold parse_one in parse_words-IsBytes (split t)) (get_or rows y []) x
            (omega arith);
    })
