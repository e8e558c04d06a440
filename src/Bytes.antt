-- ===== src/Bytes.antt =====
-- A Python `bytearray`: slices, assignments to slices of the same length, and the big-endian
-- integers of `struct`.
use zdx_paralell_pyxel_vm.Base.{
  ℕ, zero, suc, ◌+◌, ◌*◌, ◌/◌, ◌%◌, ◌≤◌, ◌<◌, ◌≡◌, ◌≢◌, refl, sym, ◌∙◌, ap, List, [], ◌∷◌, ◌++◌,
  none, some, arith, length, get_elem?, ◌⊎◌, inl, length-append,
}

abbrev pub Bytes : Type 0
Bytes = List ℕ

abbrev pub set_byte : Bytes → ℕ → ℕ → Bytes
set_byte [] i b = []
set_byte (x ∷ raw) zero b = b ∷ raw
set_byte (x ∷ raw) (suc i) b = x ∷ set_byte raw i b

-- `raw[o : o + n]`
unfoldable pub slice : Bytes → ℕ → ℕ → Bytes
slice raw o zero = []
slice raw o (suc n) = elim (get_elem? raw o) [ none ↦ [] | some b ↦ b ∷ slice raw (suc o) n ]

-- `raw[o : o + len(bs)] = bs`
unfoldable pub splice : Bytes → ℕ → Bytes → Bytes
splice raw o [] = raw
splice raw o (b ∷ bs) = splice (set_byte raw o b) (suc o) bs

-- `n` as `width` bytes, the highest first
unfoldable pub big_endian : ℕ → ℕ → Bytes
big_endian zero n = []
big_endian (suc width) n = big_endian width (n / 256) ++ (n % 256 ∷ [])

unfoldable pub from_big_endian : ℕ → Bytes → ℕ
from_big_endian high [] = high
from_big_endian high (b ∷ bs) = from_big_endian (high * 256 + b) bs

abbrev pub zeros : ℕ → Bytes
zeros zero = []
zeros (suc n) = 0 ∷ zeros n

abbrev pub take : ℕ → Bytes → Bytes
take zero raw = []
take (suc n) [] = []
take (suc n) (x ∷ raw) = x ∷ take n raw

abbrev pub drop : ℕ → Bytes → Bytes
drop zero raw = raw
drop (suc n) [] = []
drop (suc n) (x ∷ raw) = drop n raw

pub take-append : (n : ℕ) (a b : Bytes) → length a ≡ n → take n (a ++ b) ≡ a
take-append zero [] b h = refl
take-append zero (x ∷ a) b h = absurd (omega (arith, h))
take-append (suc n) [] b h = absurd (omega (arith, h))
take-append (suc n) (x ∷ a) b h = ap (λ t. x ∷ t) (take-append n a b (omega (arith, h)))

pub drop-append : (n : ℕ) (a b : Bytes) → length a ≡ n → drop n (a ++ b) ≡ b
drop-append zero [] b h = refl
drop-append zero (x ∷ a) b h = absurd (omega (arith, h))
drop-append (suc n) [] b h = absurd (omega (arith, h))
drop-append (suc n) (x ∷ a) b h = drop-append n a b (omega (arith, h))

pub length-zeros : (n : ℕ) → length (zeros n) ≡ n
length-zeros zero = refl
length-zeros (suc n) = ap suc (length-zeros n)

length-set_byte : (raw : Bytes) (i b : ℕ) → length (set_byte raw i b) ≡ length raw
length-set_byte [] i b = refl
length-set_byte (x ∷ raw) zero b = refl
length-set_byte (x ∷ raw) (suc i) b = ap suc (length-set_byte raw i b)

get_elem?-set_self :
    (raw : Bytes) (i b : ℕ) → i < length raw → get_elem? (set_byte raw i b) i ≡ some b
get_elem?-set_self [] i b h = absurd (omega arith)
get_elem?-set_self (x ∷ raw) zero b h = refl
get_elem?-set_self (x ∷ raw) (suc i) b h = get_elem?-set_self raw i b (omega arith)

get_elem?-set_other :
    (raw : Bytes) (i j b : ℕ) → i ≢ j → get_elem? (set_byte raw i b) j ≡ get_elem? raw j
get_elem?-set_other [] i j b h = refl
get_elem?-set_other (x ∷ raw) zero zero b h = absurd (h refl)
get_elem?-set_other (x ∷ raw) zero (suc j) b h = refl
get_elem?-set_other (x ∷ raw) (suc i) zero b h = refl
get_elem?-set_other (x ∷ raw) (suc i) (suc j) b h =
    get_elem?-set_other raw i j b (λ e. h (ap suc e))

pub length-splice : (raw : Bytes) (o : ℕ) (bs : Bytes) → length (splice raw o bs) ≡ length raw
unfolding splice
length-splice raw o [] = refl
length-splice raw o (b ∷ bs) = length-splice (set_byte raw o b) (suc o) bs ∙ length-set_byte raw o b

-- A byte outside of what is assigned stays.
pub get_elem?-splice :
    (raw : Bytes) (o i : ℕ) (bs : Bytes)
    → (i < o) ⊎ (o + length bs ≤ i)
    → get_elem? (splice raw o bs) i ≡ get_elem? raw i
unfolding splice
get_elem?-splice raw o i [] h = refl
get_elem?-splice raw o i (b ∷ bs) h =
    get_elem?-splice (set_byte raw o b) (suc o) i bs (ground arith)
    ∙ get_elem?-set_other raw o i b (λ e. ground arith)

-- Slices agree where their bytes do.
pub slice-agrees :
    (raw other : Bytes) (o n : ℕ)
    → ((i : ℕ) → o ≤ i → i < o + n → get_elem? raw i ≡ get_elem? other i)
    → slice raw o n ≡ slice other o n
unfolding slice
slice-agrees raw other o zero h = refl
slice-agrees raw other o (suc n) h =
    let rest : slice raw (suc o) n ≡ slice other (suc o) n =
      slice-agrees raw other (suc o) n (λ i low high. h i (omega arith) (omega arith)) in
    ground (arith, rest, h o (omega arith) (omega arith))

pub slice-splice :
    (raw : Bytes) (o : ℕ) (bs : Bytes)
    → o + length bs ≤ length raw
    → slice (splice raw o bs) o (length bs) ≡ bs
unfolding slice splice
slice-splice raw o [] h = refl
slice-splice raw o (b ∷ bs) h =
    let here : get_elem? (splice (set_byte raw o b) (suc o) bs) o ≡ some b =
      get_elem?-splice (set_byte raw o b) (suc o) o bs (inl (omega arith))
      ∙ get_elem?-set_self raw o b (omega arith) in
    rw (here, slice)
      (ap (λ t. b ∷ t)
        (slice-splice (set_byte raw o b) (suc o) bs (omega (arith, length-set_byte raw o b))))

-- What was assigned is read.
pub slice_written :
    (raw : Bytes) (o n : ℕ) (bs : Bytes)
    → length bs ≡ n
    → o + n ≤ length raw
    → slice (splice raw o bs) o n ≡ bs
slice_written raw o n bs h fits =
    ap (slice (splice raw o bs) o) (sym h) ∙ slice-splice raw o bs (omega (arith, h, fits))

pub length-big_endian : (width n : ℕ) → length (big_endian width n) ≡ width
unfolding big_endian
length-big_endian zero n = refl
length-big_endian (suc width) n =
    length-append (big_endian width (n / 256)) _ ∙ omega (arith, length-big_endian width (n / 256))

from_big_endian-append :
    (high b : ℕ) (bs : Bytes)
    → from_big_endian high (bs ++ (b ∷ [])) ≡ from_big_endian high bs * 256 + b
unfolding from_big_endian
from_big_endian-append high b [] = refl
from_big_endian-append high b (x ∷ bs) = from_big_endian-append (high * 256 + x) b bs

-- `2 ** (8 * width)`
abbrev pub span : ℕ → ℕ
span zero = 1
span (suc width) = span width * 256

pub from_big_endian-inverse :
    (width n : ℕ) → n < span width → from_big_endian 0 (big_endian width n) ≡ n
unfolding big_endian from_big_endian
from_big_endian-inverse zero n h = omega (arith, h)
from_big_endian-inverse (suc width) n h =
    from_big_endian-append 0 (n % 256) (big_endian width (n / 256))
    ∙ omega (arith, from_big_endian-inverse width (n / 256) (omega (arith, h)))
