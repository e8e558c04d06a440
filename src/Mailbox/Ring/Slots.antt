-- ===== src/Mailbox/Ring/Slots.antt =====
-- src/zdx_spatial_mailbox.py: the slots of the ring lie apart, and what is held in them.
use zdx_paralell_pyxel_vm.Base.{
  ℕ, ◌+◌, ◌-◌, ◌*◌, ◌/◌, ◌%◌, ◌≤◌, ◌<◌, ◌≡◌, sym, subst, ◌∙◌, ap, List, [], ◌∷◌, ◌++◌, arith,
  length, get_elem?, ◌⊎◌, inl, inr,
}
use zdx_paralell_pyxel_vm.Base.Results.{ok}
use zdx_paralell_pyxel_vm.Bytes.{Bytes, span}
use zdx_paralell_pyxel_vm.Mailbox.Format.{
  Mailbox, MailboxMessage, Outside, slot_offset, decode_slot,
}
use zdx_paralell_pyxel_vm.Mailbox.Format.Read.{decode_slot-agrees}

-- The slots lie in the region behind the header.
pub record IsGeometry (g : Mailbox) : Type 0 where
  pub large : 51 < g.slot_size
  pub some_slot : 1 ≤ g.slot_count
  pub inside : 36 + g.slot_count * g.slot_size ≤ g.capacity
  pub size_fits : g.slot_size < span 4
  pub count_fits : g.slot_count < span 4

rows_apart : (i j size : ℕ) → i < j → i * size + size ≤ j * size
rows_apart i j size h = grind arith

mod_below : (a count : ℕ) → 1 ≤ count → a % count < count
mod_below a count h = grind arith

trichotomy : (m n : ℕ) → (m < n) ⊎ ((m ≡ n) ⊎ (n < m))
trichotomy m n = ground arith

-- What is divided is the quotient's multiple and the rest.
div_mod : (a count : ℕ) → a / count * count + a % count ≡ a
div_mod a count = omega arith

mod_apart :
    (a b count : ℕ)
    → 1 ≤ count
    → a < b
    → b < a + count
    → (a % count < b % count) ⊎ (b % count < a % count)
mod_apart a b count h low high = elim (trichotomy (a / count) (b / count)) [
  | inl less ↦
      inr (omega (arith, div_mod a count, div_mod b count, rows_apart _ _ count less, high))
  | inr (inl same) ↦
      inl (omega (arith, div_mod a count, div_mod b count, ap (λ q. q * count) same, low))
  | inr (inr more) ↦ absurd (
      omega (
        arith,
        div_mod a count,
        div_mod b count,
        rows_apart _ _ count more,
        low,
        mod_below a count h,
      ))
]

module _ (g : Mailbox) (y : IsGeometry g) where
  pub slot_inside : (s : ℕ) → (36 ≤ slot_offset g s) × (slot_offset g s + g.slot_size ≤ g.capacity)
  unfolding slot_offset
  slot_inside s =
      let row : (s - 1) % g.slot_count < g.slot_count =
        mod_below (s - 1) g.slot_count y.some_slot in
      omega (arith, rows_apart ((s - 1) % g.slot_count) g.slot_count g.slot_size row, y.inside)

  slots_apart :
      (a b : ℕ)
      → 1 ≤ a
      → a < b
      → b < a + g.slot_count
      → (slot_offset g a + g.slot_size ≤ slot_offset g b)
        ⊎ (slot_offset g b + g.slot_size ≤ slot_offset g a)
  unfolding slot_offset
  slots_apart a b one low high =
      elim (mod_apart (a - 1) (b - 1) g.slot_count y.some_slot (omega arith) (omega arith)) [
        | inl before ↦ inl (omega (arith, rows_apart _ _ g.slot_size before))
        | inr after ↦ inr (omega (arith, rows_apart _ _ g.slot_size after))
      ]

  -- Two numbers that stand for different slots.
  abbrev pub Apart : ℕ → ℕ → Type 0
  Apart a b =
      (1 ≤ a) × (1 ≤ b) × (((a < b) × (b < a + g.slot_count)) ⊎ ((b < a) × (a < b + g.slot_count)))

  -- The bytes agree but in the header and in the slot of `t`.
  abbrev pub AgreeBut : ℕ → Bytes → Bytes → Type 0
  AgreeBut t raw other =
      (i : ℕ)
      → 36 ≤ i
      → (i < slot_offset g t) ⊎ (slot_offset g t + g.slot_size ≤ i)
      → get_elem? raw i ≡ get_elem? other i

  pub decode_slot-stays :
      (x : Outside) (s t : ℕ) (raw other : Bytes)
      → Apart s t
      → AgreeBut t raw other
      → decode_slot x g raw s ≡ decode_slot x g other s
  decode_slot-stays x s t raw other apart agree =
      decode_slot-agrees x g raw other s y.large
        (λ i low high. agree i (omega (arith, slot_inside s, low)) (outside i low high))
    where
      outside :
          (i : ℕ)
          → slot_offset g s ≤ i
          → i < slot_offset g s + g.slot_size
          → (i < slot_offset g t) ⊎ (slot_offset g t + g.slot_size ≤ i)
      outside i low high = elim apart.2 [
        | inl (less, near) ↦ ground (arith, slots_apart s t apart.0 less near, low, high)
        | inr (more, near) ↦ ground (arith, slots_apart t s apart.1 more near, low, high)
      ]

module _ (x : Outside) (g : Mailbox) (raw : Bytes) where
  -- The slots from that of `s` on hold the messages.
  abbrev pub Holds : ℕ → List MailboxMessage → Type 0
  Holds s [] = Unit
  Holds s (m ∷ q) = (decode_slot x g raw s ≡ ok m) × Holds (s + 1) q

  pub Holds-append :
      (s : ℕ) (q : List MailboxMessage) (m : MailboxMessage)
      → Holds s q
      → decode_slot x g raw (s + length q) ≡ ok m
      → Holds s (q ++ (m ∷ []))
  Holds-append s [] m h last = (subst (λ k. decode_slot x g raw k ≡ ok m) (omega arith) last, tt)
  Holds-append s (n ∷ q) m h last = (
    h.0,
    Holds-append (s + 1) q m h.1 (subst (λ k. decode_slot x g raw k ≡ ok m) (omega arith) last),
  )

module _ (x : Outside) (g : Mailbox) (y : IsGeometry g) (t : ℕ) (raw other : Bytes)
    (agree : AgreeBut g y t raw other) where
  pub Holds-stays :
      (s : ℕ) (q : List MailboxMessage)
      → ((k : ℕ) → s ≤ k → k < s + length q → Apart g y k t)
      → Holds x g raw s q
      → Holds x g other s q
  Holds-stays s [] apart h = tt
  Holds-stays s (m ∷ q) apart h = (
    sym (decode_slot-stays g y x s t raw other (apart s (omega arith) (omega arith)) agree) ∙ h.0,
    Holds-stays (s + 1) q (λ k low high. apart k (omega arith) (omega arith)) h.1,
  )
