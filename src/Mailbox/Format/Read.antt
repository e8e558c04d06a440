-- ===== src/Mailbox/Format/Read.antt =====
-- src/zdx_spatial_mailbox.py: what is read of a header or a slot that was written.
use zdx_paralell_pyxel_vm.Base.{
  ℕ, ◌+◌, ◌-◌, ◌≤◌, ◌<◌, ◌≡◌, refl, sym, ◌∙◌, ap, [], ◌++◌, ltb, length, arith, inl, inr,
  Bool-cases, length-append, get_elem?,
}
use zdx_paralell_pyxel_vm.Base.Results.{ok}
use zdx_paralell_pyxel_vm.Compiler.TextOrder.{same_text_refl}
use mathlib.Core.List.{append-nil}
use zdx_paralell_pyxel_vm.Bytes.{
  Bytes, slice, splice, big_endian, from_big_endian, take, drop, span, take-append, drop-append,
  length-big_endian, from_big_endian-inverse, slice_written, slice-agrees,
}
use zdx_paralell_pyxel_vm.Mailbox.Format.{
  Mailbox, MailboxMessage, Outside, HeaderFields, SlotFields, header_fields, header_bytes,
  check_header, header, write_header, slot_fields, slot_header, check_slot, decode_slot,
  payload_capacity, slot_offset, total, magic,
}

pub field_value :
    (width n : ℕ) (rest : Bytes)
    → n < span width
    → from_big_endian 0 (take width (big_endian width n ++ rest)) ≡ n
field_value width n rest h =
    ap (from_big_endian 0) (take-append width (big_endian width n) rest (length-big_endian width n))
    ∙ from_big_endian-inverse width n h

pub field_rest : (width n : ℕ) (rest : Bytes) → drop width (big_endian width n ++ rest) ≡ rest
field_rest width n rest = drop-append width (big_endian width n) rest (length-big_endian width n)

last_value :
    (width n : ℕ) → n < span width → from_big_endian 0 (take width (big_endian width n)) ≡ n
last_value width n h =
    ap (λ t. from_big_endian 0 (take width t)) (sym (append-nil (big_endian width n)))
    ∙ field_value width n [] h

module _ (g : Mailbox) (next read : ℕ) where
  -- What a header of the mailbox tells.
  abbrev its_fields : HeaderFields
  its_fields = record {
    magic_bytes = magic;
    version = 1;
    flags = 0;
    reserved_field = 0;
    size_field = g.slot_size;
    count_field = g.slot_count;
    next_seq = next;
    read_seq = read;
  }

  header_fields-header_bytes :
      g.slot_size < span 4
      → g.slot_count < span 4
      → next < span 8
      → read < span 8
      → header_fields (header_bytes g next read) ≡ its_fields
  unfolding header_fields header_bytes
  header_fields-header_bytes size count n r =
      rw
        (
          field_value 1 1 _ (omega arith),
          field_rest 1 1 _,
          field_value 1 0 _ (omega arith),
          field_rest 1 0 _,
          field_value 2 0 _ (omega arith),
          field_rest 2 0 _,
          field_value 4 g.slot_size _ size,
          field_rest 4 g.slot_size _,
          field_value 4 g.slot_count _ count,
          field_rest 4 g.slot_count _,
          field_value 8 next _ n,
          field_rest 8 next _,
          last_value 8 read r,
        )
        refl

length-field :
    (width n : ℕ) (rest : Bytes) → length (big_endian width n ++ rest) ≡ width + length rest
length-field width n rest =
    length-append (big_endian width n) rest ∙ ap (λ k. k + length rest) (length-big_endian width n)

pub length-header_bytes : (g : Mailbox) (next read : ℕ) → length (header_bytes g next read) ≡ 36
unfolding header_bytes
length-header_bytes g next read =
    rw
      (
        length-field 1 1 _,
        length-field 1 0 _,
        length-field 2 0 _,
        length-field 4 g.slot_size _,
        length-field 4 g.slot_count _,
        length-field 8 next _,
        length-big_endian 8 read,
      )
      refl

pub write_header_fits :
    (g : Mailbox) (next read : ℕ) (raw written : Bytes)
    → write_header g next read raw ≡ ok written
    → (g.slot_size < span 4)
      × (g.slot_count < span 4)
      × (next < span 8)
      × (read < span 8)
      × (splice raw 0 (header_bytes g next read) ≡ written)
unfolding write_header
write_header_fits g next read raw written h = ground (arith, h)

-- The header of a region is the header that was written to it.
pub header-write_header :
    (g : Mailbox) (next read : ℕ) (raw written : Bytes)
    → write_header g next read raw ≡ ok written
    → 36 ≤ length raw
    → 1 ≤ read
    → read ≤ next
    → next - read ≤ g.slot_count
    → header g written ≡ ok (next, read)
unfolding header check_header
header-write_header g next read raw written h long one order room =
    let (size, count, n, r, is) = write_header_fits g next read raw written h in
    let there : slice written 0 36 ≡ header_bytes g next read =
      ap (λ w. slice w 0 36) (sym is)
      ∙ slice_written raw 0 36 (header_bytes g next read) (length-header_bytes g next read) long in
    rw (there, header_fields-header_bytes g next read size count n r, same_text_refl magic, header)
      (ground (arith, one, order, room))

header-agrees :
    (g : Mailbox) (raw other : Bytes)
    → ((i : ℕ) → i < 36 → get_elem? raw i ≡ get_elem? other i)
    → header g raw ≡ header g other
unfolding header
header-agrees g raw other h = rw (slice-agrees raw other 0 36 (λ i low high. h i high)) refl

module _ (x : Outside) (g : Mailbox) where
  -- A slot is read from its own bytes.
  pub decode_slot-agrees :
      (raw other : Bytes) (sequence : ℕ)
      → 51 < g.slot_size
      → ((i : ℕ)
          → slot_offset g sequence ≤ i
          → i < slot_offset g sequence + g.slot_size
          → get_elem? raw i ≡ get_elem? other i)
      → decode_slot x g raw sequence ≡ decode_slot x g other sequence
  unfolding decode_slot check_slot
  decode_slot-agrees raw other sequence large h =
      rw (slice-agrees raw other (slot_offset g sequence) 51 (λ i low high. h i low (omega arith)))
        (checked _)
    where
      checked : (f : SlotFields) → check_slot x g raw sequence f ≡ check_slot x g other sequence f
      checked f = elim (Bool-cases (ltb (payload_capacity g) (total f))) [
        | inl long ↦ rw long refl
        | inr fits ↦
            rw
              (
                fits,
                slice-agrees raw other (slot_offset g sequence + 51) (total f)
                    (λ i low high. h i (omega arith) (ground (arith, fits, high, large))),
              )
              refl
      ]

module _ (m : MailboxMessage) where
  abbrev pub fields_of : SlotFields
  fields_of = record {
    slot_sequence = m.sequence;
    state = 1;
    payload_len = length m.payload;
    sender_len = length m.sender;
    recipient_len = length m.recipient;
    topic_len = length m.topic;
    digest_bytes = m.sha256;
  }

  pub slot_fields-slot_header :
      m.sequence < span 8
      → length m.payload < span 4
      → length m.sender < span 2
      → length m.recipient < span 2
      → length m.topic < span 2
      → slot_fields (slot_header m) ≡ fields_of
  unfolding slot_fields slot_header
  slot_fields-slot_header s p a b c =
      rw
        (
          field_value 8 m.sequence _ s,
          field_rest 8 m.sequence _,
          field_value 1 1 _ (omega arith),
          field_rest 1 1 _,
          field_value 4 (length m.payload) _ p,
          field_rest 4 (length m.payload) _,
          field_value 2 (length m.sender) _ a,
          field_rest 2 (length m.sender) _,
          field_value 2 (length m.recipient) _ b,
          field_rest 2 (length m.recipient) _,
          field_value 2 (length m.topic) _ c,
          field_rest 2 (length m.topic) _,
        )
        refl

  pub length-slot_header : length m.sha256 ≡ 32 → length (slot_header m) ≡ 51
  unfolding slot_header
  length-slot_header h =
      rw
        (
          length-field 8 m.sequence _,
          length-field 1 1 _,
          length-field 4 (length m.payload) _,
          length-field 2 (length m.sender) _,
          length-field 2 (length m.recipient) _,
          length-field 2 (length m.topic) _,
          h,
        )
        refl
