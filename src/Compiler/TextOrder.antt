-- ===== src/Compiler/TextOrder.antt =====
-- The order of texts by their code points.
use Prim.Native.Char.{code}
use text.Mathlib.TextEquality.{Char-path}
use zdx_paralell_pyxel_vm.Base.{◌≡◌, ◌≢◌, refl, String, true, false, not, ◌||◌, [], ◌∷◌, arith}
use zdx_paralell_pyxel_vm.Compiler.Text.{Text, codes, text_lt, same_text}

pub text_lt_asym : (s t : Text) → text_lt s t ≡ true → text_lt t s ≡ false
unfolding text_lt
text_lt_asym [] [] h = cc
text_lt_asym [] (d ∷ t) h = refl
text_lt_asym (c ∷ s) [] h = cc
text_lt_asym (c ∷ s) (d ∷ t) h = ground (arith, text_lt_asym s t)

pub text_lt_between : (s t u : Text) → text_lt s u ≡ true → (text_lt s t || text_lt t u) ≡ true
unfolding text_lt
text_lt_between s t [] h = cc
text_lt_between [] [] (e ∷ u) h = refl
text_lt_between [] (d ∷ t) (e ∷ u) h = refl
text_lt_between (c ∷ s) [] (e ∷ u) h = refl
text_lt_between (c ∷ s) (d ∷ t) (e ∷ u) h = ground (arith, text_lt_between s t u)

text_lt_connected : (s t : Text) → text_lt s t ≡ false → text_lt t s ≡ false → s ≡ t
unfolding text_lt
text_lt_connected [] [] h k = refl
text_lt_connected [] (d ∷ t) h k = cc
text_lt_connected (c ∷ s) [] h k = cc
text_lt_connected (c ∷ s) (d ∷ t) h k = ground (arith, text_lt_connected s t)

codes_injective : (s t : String) → codes s ≡ codes t → s ≡ t
codes_injective String.[] String.[] h = refl
codes_injective String.[] (String.◌∷◌ d t) h = cc
codes_injective (String.◌∷◌ c s) String.[] h = cc
codes_injective (String.◌∷◌ c s) (String.◌∷◌ d t) h =
    let heads : code c ≡ code d = cc in
    let tails : codes s ≡ codes t = cc in cc (Char-path c d heads, codes_injective s t tails)

-- Of two texts that differ one comes before the other.
pub text_lt_total :
    (s t : String) → s ≢ t → text_lt (codes s) (codes t) ≡ not (text_lt (codes t) (codes s))
text_lt_total s t apart = ground (
  arith,
  text_lt_asym (codes s) (codes t),
  text_lt_connected (codes s) (codes t),
  codes_injective s t,
)

pub same_text_refl : (s : Text) → same_text s s ≡ true
unfolding same_text
same_text_refl [] = refl
same_text_refl (c ∷ s) = ground (arith, same_text_refl s)
