-- ===== src/Compiler/Number.antt =====
-- Printed numbers, and how the parser reads them.
use zdx_paralell_pyxel_vm.Base.{
  ℕ, zero, suc, ◌+◌, ◌-◌, ◌*◌, ◌/◌, ◌%◌, ◌≤◌, ◌<◌, ◌≡◌, refl, sym, ◌∙◌, ap, ◌&&◌, inl, inr, Bool,
  true, false, some, [], ◌∷◌, ◌++◌, arith, ltb, leb, Bool-cases,
}
use mathlib.Core.List.{append_assoc, append-nil}
use zdx_paralell_pyxel_vm.Compiler.Text.{
  Text, flush, is_space, split_from, digits, plain, int, pos, decimal_from, decimal,
}

-- Every code point is a digit.
abbrev AllDigits : Text → Type 0
AllDigits [] = Unit
AllDigits (c ∷ s) = (48 ≤ c) × (c ≤ 57) × AllDigits s

AllDigits-append : (s t : Text) → AllDigits s → AllDigits t → AllDigits (s ++ t)
AllDigits-append [] t a b = b
AllDigits-append (c ∷ s) t a b = (a.0, a.1, AllDigits-append s t a.2 b)

decimal_from-AllDigits : (fuel n : ℕ) → AllDigits (decimal_from fuel n)
unfolding decimal_from
decimal_from-AllDigits zero n = tt
decimal_from-AllDigits (suc fuel) n = elim (Bool-cases (ltb n 10)) [
  | inl small ↦ rw small (ground arith)
  | inr large ↦ rw large (
      AllDigits-append (decimal_from fuel (n / 10)) _ (decimal_from-AllDigits fuel (n / 10))
        (ground arith))
]

digit_not_space : (c : ℕ) → 48 ≤ c → c ≤ 57 → is_space c ≡ false
unfolding is_space
digit_not_space c low high = ground arith

split_from-digits : (word s : Text) → AllDigits s → split_from word s ≡ flush (word ++ s) []
unfolding split_from
split_from-digits word [] a = rw (append-nil word)
split_from-digits word (c ∷ s) a =
    rw (digit_not_space c a.0 a.1)
      (split_from-digits (word ++ c ∷ []) s a.2 ∙ rw (append_assoc word (c ∷ []) s))

is_digit_lem : (c : ℕ) → 48 ≤ c → c ≤ 57 → (leb 48 c && leb c 57) ≡ true
is_digit_lem c low high = ground arith

digits-step :
    (n c : ℕ) (after : Bool) (rest : Text)
    → 48 ≤ c
    → c ≤ 57
    → digits n after (c ∷ rest) ≡ digits (n * 10 + (c - 48)) true rest
unfolding digits
digits-step n c after rest low high = rw (is_digit_lem c low high)

digits-decimal_from :
    (fuel n : ℕ) (after : Bool) (rest : Text)
    → n < fuel
    → digits 0 after (decimal_from fuel n ++ rest) ≡ digits n true rest
unfolding decimal_from
digits-decimal_from zero n after rest h = absurd (omega arith)
digits-decimal_from (suc fuel) n after rest h = elim (Bool-cases (ltb n 10)) [
  | inl small ↦ rw small (
      digits-step 0 (48 + n) after rest (omega arith) (ground arith)
      ∙ ap (λ k. digits k true rest) (omega arith))
  | inr large ↦
      rw (large, append_assoc (decimal_from fuel (n / 10)) ((48 + n % 10) ∷ []) rest)
        (digits-decimal_from fuel (n / 10) after ((48 + n % 10) ∷ rest) (ground arith)
          ∙ digits-step (n / 10) (48 + n % 10) true rest (omega arith) (omega arith)
          ∙ ap (λ k. digits k true rest) (omega arith))
]

digits-decimal : (n : ℕ) → digits 0 false (decimal n) ≡ some n
unfolding decimal
digits-decimal n =
    ap (digits 0 false) (sym (append-nil (decimal_from (suc n) n)))
    ∙ digits-decimal_from (suc n) n false [] (omega arith)
    ∙ unfold digits in refl

decimal-AllDigits : (n : ℕ) → AllDigits (decimal n)
unfolding decimal
decimal-AllDigits n = decimal_from-AllDigits (suc n) n

int-digits : (s : Text) → AllDigits s → int s ≡ plain (digits 0 false s)
unfolding int
int-digits [] a = refl
int-digits (c ∷ s) a = ground arith

-- `int(str(n))` is n, for every natural number.
pub int-decimal : (n : ℕ) → int (decimal n) ≡ some (pos n)
int-decimal n = int-digits (decimal n) (decimal-AllDigits n) ∙ ap plain (digits-decimal n)

flush_number : (s : Text) (n : ℕ) → digits 0 false s ≡ some n → flush s [] ≡ s ∷ []
unfolding digits
flush_number [] n e = cc
flush_number (c ∷ s) n e = refl

-- A printed number is one word.
pub split-decimal : (n : ℕ) → split_from [] (decimal n) ≡ decimal n ∷ []
split-decimal n =
    split_from-digits [] (decimal n) (decimal-AllDigits n)
    ∙ flush_number (decimal n) n (digits-decimal n)
