-- ===== src/Compiler/Text.antt =====
-- What the compiler uses of Python's `str` and `int`, over lists of code points. `upper` is that of
-- ASCII, and `int` that of ASCII digits.
use Prim.Native.Char.{code}
use zdx_paralell_pyxel_vm.Base.{
  ℕ, zero, suc, ◌+◌, ◌-◌, ◌*◌, ◌/◌, ◌%◌, String, Bool, true, false, ◌&&◌, ◌||◌, Option, none, some,
  List, [], ◌∷◌, ◌++◌, ltb, leb, ◌==◌, if◌then◌else◌,
}

abbrev pub Text : Type 0
Text = List ℕ

abbrev pub codes : String → Text
codes String.[] = []
codes (String.◌∷◌ c s) = code c ∷ codes s

unfoldable pub same_text : Text → Text → Bool
same_text [] [] = true
same_text (c ∷ s) (d ∷ t) = c == d && same_text s t
same_text _ _ = false

-- The order of Python on strings, by code points.
unfoldable pub text_lt : Text → Text → Bool
text_lt s [] = false
text_lt [] (d ∷ t) = true
text_lt (c ∷ s) (d ∷ t) = ltb c d || (c == d && text_lt s t)

-- The code points that `str.split` and `str.strip` take for white space.
unfoldable pub is_space : ℕ → Bool
is_space c =
    (leb 9 c && leb c 13)
    || (leb 28 c && leb c 32)
    || c == 133
    || c == 160
    || c == 5760
    || (leb 8192 c && leb c 8202)
    || c == 8232
    || c == 8233
    || c == 8239
    || c == 8287
    || c == 12288

-- The word that has been read, if there is one, before the words that follow.
abbrev pub flush : Text → List Text → List Text
flush [] words = words
flush (c ∷ w) words = (c ∷ w) ∷ words

-- `s.split()`, which strips too: `word` is what has been read of the current word.
unfoldable pub split_from : Text → Text → List Text
split_from word [] = flush word []
split_from word (c ∷ s) =
    let space = is_space c in
    let rest = split_from (if space then [] else word ++ c ∷ []) s in
    if space then flush word rest else rest

unfoldable pub split : Text → List Text
unfolding split_from is_space
split s = split_from [] s

unfoldable pub upper : Text → Text
upper [] = []
upper (c ∷ s) = (if leb b'a' c && leb c b'z' then c - 32 else c) ∷ upper s

-- `negsuc n` is -(n + 1).
pub data ℤ : Type 0 where
  pos : ℕ → ℤ
  negsuc : ℕ → ℤ

abbrev is_digit : ℕ → Bool
is_digit c = leb b'0' c && leb c b'9'

-- The digits of a number, with single underscores between them; `after` says whether the last code
-- point was a digit.
unfoldable pub digits : ℕ → Bool → Text → Option ℕ
digits n after [] = if after then some n else none
digits n after (c ∷ s) =
    let digit = is_digit c in
    let rest = digits (if digit then n * 10 + (c - b'0') else n) digit s in
    if digit || (c == b'_' && after) then rest else none

abbrev pub negate : ℕ → ℤ
negate zero = pos 0
negate (suc n) = negsuc n

abbrev pub plain : Option ℕ → Option ℤ
plain none = none
plain (some n) = some (pos n)

abbrev pub negated : Option ℕ → Option ℤ
negated none = none
negated (some n) = some (negate n)

-- `int(s)` of a word; `none` is its ValueError.
unfoldable pub int : Text → Option ℤ
unfolding digits
int [] = none
int (c ∷ s) =
    if c == b'-'
    then negated (digits 0 false s)
    else if c == b'+'
    then plain (digits 0 false s)
    else plain (digits 0 false (c ∷ s))

-- `str(n)` of a natural number: `fuel` bounds the number of digits.
unfoldable pub decimal_from : ℕ → ℕ → Text
decimal_from zero n = []
decimal_from (suc fuel) n =
    let more = decimal_from fuel (n / 10) in
    if ltb n 10 then (b'0' + n) ∷ [] else more ++ (b'0' + n % 10) ∷ []

unfoldable pub decimal : ℕ → Text
unfolding decimal_from
decimal n = decimal_from (suc n) n
