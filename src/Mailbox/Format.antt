-- ===== src/Mailbox/Format.antt =====
-- src/zdx_spatial_mailbox.py: the bytes of the header and of a slot of `SpatialMailbox`, and its
-- constructor.
--
-- A name is the bytes of its UTF-8. `Outside` is what the code calls: `digest` is the SHA-256 of
-- `_message_digest`, and `is_utf8` tells what `decode("utf-8")` takes.
use zdx_paralell_pyxel_vm.Base.{
  ℕ, zero, suc, ◌+◌, ◌-◌, ◌*◌, ◌/◌, ◌%◌, List, [], ◌∷◌, ◌++◌, Bool, true, false, not, ◌&&◌, ◌||◌,
  Option, none, some, if◌then◌else◌, ltb, ◌==◌, length,
}
use zdx_paralell_pyxel_vm.Base.Results.{Result, ok, err, refuse_if, ◌>>=◌, ◌>>◌}
use zdx_paralell_pyxel_vm.Compiler.Text.{same_text}
use zdx_paralell_pyxel_vm.Bytes.{
  Bytes, slice, splice, big_endian, from_big_endian, zeros, take, drop, span,
}
pub mod Read

pub data MailboxError : Type 0 where
  slot_too_small overlaps_execution region_too_small corrupt_header other_geometry : MailboxError
  corrupt_sequence no_name name_too_large message_too_large mailbox_full corrupt_slot : MailboxError
  corrupt_length digest_mismatch not_utf8 struct_error : MailboxError

pub record MailboxMessage : Type 0 where
  pub sequence : ℕ
  pub sender : Bytes
  pub recipient : Bytes
  pub topic : Bytes
  pub payload : Bytes
  pub sha256 : Bytes

pub record Outside : Type 0 where
  pub digest : ℕ → Bytes → Bytes → Bytes → Bytes → Bytes
  pub is_utf8 : Bytes → Bool

-- What the constructor sets.
pub record Mailbox : Type 0 where
  pub capacity : ℕ
  pub slot_size : ℕ
  pub slot_count : ℕ

abbrev pub header_size : ℕ
header_size = 36

abbrev pub slot_header_size : ℕ
slot_header_size = 51

abbrev pub magic : Bytes
magic = 90 ∷ 68 ∷ 88 ∷ 77 ∷ 66 ∷ 88 ∷ 49 ∷ 0 ∷ []

-- The next field of an unpacked struct, of `width` bytes, and what follows it.
abbrev pub field : ℕ → Bytes → ℕ × Bytes
field width raw = (from_big_endian 0 (take width raw), drop width raw)

abbrev pub payload_capacity : Mailbox → ℕ
payload_capacity g = g.slot_size - slot_header_size

-- The fields of `_HEADER` in their order.
pub record HeaderFields : Type 0 where
  pub magic_bytes : Bytes
  pub version : ℕ
  pub flags : ℕ
  pub reserved_field : ℕ
  pub size_field : ℕ
  pub count_field : ℕ
  pub next_seq : ℕ
  pub read_seq : ℕ

-- `_HEADER.unpack_from(raw, 0)`
unfoldable pub header_fields : Bytes → HeaderFields
header_fields raw =
    let (version, b1) = field 1 (drop 8 raw) in
    let (flags, b2) = field 1 b1 in
    let (reserved_field, b3) = field 2 b2 in
    let (size, b4) = field 4 b3 in
    let (count, b5) = field 4 b4 in
    let (next, b6) = field 8 b5 in
    record {
      magic_bytes = take 8 raw;
      version = version;
      flags = flags;
      reserved_field = reserved_field;
      size_field = size;
      count_field = count;
      next_seq = next;
      read_seq = from_big_endian 0 (take 8 b6);
    }

-- what `_HEADER.pack_into` writes
unfoldable pub header_bytes : Mailbox → ℕ → ℕ → Bytes
header_bytes g next read =
    magic
    ++ (big_endian 1 1
        ++ (big_endian 1 0
            ++ (big_endian 2 0
                ++ (big_endian 4 g.slot_size
                    ++ (big_endian 4 g.slot_count ++ (big_endian 8 next ++ big_endian 8 read))))))

unfoldable pub check_header : Mailbox → HeaderFields → Result MailboxError (ℕ × ℕ)
check_header g h =
    if not (same_text h.magic_bytes magic)
      || not (h.version == 1)
      || not (h.flags == 0)
      || not (h.reserved_field == 0)
    then err corrupt_header
    else if not (h.size_field == g.slot_size) || not (h.count_field == g.slot_count)
    then err other_geometry
    else if ltb h.read_seq 1
        || ltb h.next_seq h.read_seq
        || ltb g.slot_count (h.next_seq - h.read_seq)
    then err corrupt_sequence
    else ok (h.next_seq, h.read_seq)

-- `_header`
unfoldable pub header : Mailbox → Bytes → Result MailboxError (ℕ × ℕ)
header g raw = check_header g (header_fields (slice raw 0 header_size))

-- `_write_header`; `struct` refuses what does not fit its field
unfoldable pub write_header : Mailbox → ℕ → ℕ → Bytes → Result MailboxError Bytes
write_header g next read raw =
    if ltb g.slot_size (span 4)
      && ltb g.slot_count (span 4)
      && ltb next (span 8)
      && ltb read (span 8)
    then ok (splice raw 0 (header_bytes g next read))
    else err struct_error

unfoldable pub ensure_header : Mailbox → Bytes → Result MailboxError Bytes
ensure_header g raw =
    if same_text (slice raw 0 header_size) (zeros header_size)
    then write_header g 1 1 raw
    else header g raw >>= λ _. ok raw

-- The constructor, on a region at the row `y` of a frame with `execution_rows`.
unfoldable pub open_mailbox : ℕ → ℕ → ℕ → Bytes → Result MailboxError (Mailbox × Bytes)
open_mailbox slot_size y execution_rows raw =
    let g : Mailbox = record {
      capacity = length raw;
      slot_size = slot_size;
      slot_count = (length raw - header_size) / slot_size;
    } in
    if not (ltb slot_header_size slot_size)
    then err slot_too_small
    else if ltb y execution_rows
    then err overlaps_execution
    else if ltb g.slot_count 1
    then err region_too_small
    else ensure_header g raw >>= λ written. ok (g, written)

unfoldable pub slot_offset : Mailbox → ℕ → ℕ
slot_offset g sequence = header_size + ((sequence - 1) % g.slot_count) * g.slot_size

-- The fields of `_SLOT_HEADER` in their order.
pub record SlotFields : Type 0 where
  pub slot_sequence : ℕ
  pub state : ℕ
  pub payload_len : ℕ
  pub sender_len : ℕ
  pub recipient_len : ℕ
  pub topic_len : ℕ
  pub digest_bytes : Bytes

-- `_SLOT_HEADER.unpack_from(raw, offset)`
unfoldable pub slot_fields : Bytes → SlotFields
slot_fields raw =
    let (sequence, b1) = field 8 raw in
    let (state, b2) = field 1 b1 in
    let (payload_len, b3) = field 4 b2 in
    let (sender_len, b4) = field 2 b3 in
    let (recipient_len, b5) = field 2 b4 in
    let (topic_len, b6) = field 2 b5 in
    record {
      slot_sequence = sequence;
      state = state;
      payload_len = payload_len;
      sender_len = sender_len;
      recipient_len = recipient_len;
      topic_len = topic_len;
      digest_bytes = b6;
    }

-- what `_SLOT_HEADER.pack_into` writes for a message
unfoldable pub slot_header : MailboxMessage → Bytes
slot_header m =
    big_endian 8 m.sequence
    ++ (big_endian 1 1
        ++ (big_endian 4 (length m.payload)
            ++ (big_endian 2 (length m.sender)
                ++ (big_endian 2 (length m.recipient)
                    ++ (big_endian 2 (length m.topic) ++ m.sha256)))))

abbrev pub total : SlotFields → ℕ
total f = f.sender_len + f.recipient_len + f.topic_len + f.payload_len

module _ (x : Outside) where
  -- the rest of `_decode_slot`, on the bytes of the body
  unfoldable pub read_body : SlotFields → Bytes → Result MailboxError MailboxMessage
  read_body f body =
      let sender = take f.sender_len body in
      let b1 = drop f.sender_len body in
      let recipient = take f.recipient_len b1 in
      let b2 = drop f.recipient_len b1 in
      let topic = take f.topic_len b2 in
      let payload = drop f.topic_len b2 in
      if not (same_text f.digest_bytes (x.digest f.slot_sequence sender recipient topic payload))
      then err digest_mismatch
      else if not (x.is_utf8 sender && x.is_utf8 recipient && x.is_utf8 topic)
      then err not_utf8
      else ok (record {
        sequence = f.slot_sequence;
        sender = sender;
        recipient = recipient;
        topic = topic;
        payload = payload;
        sha256 = f.digest_bytes;
      })

  unfoldable pub check_slot : Mailbox → Bytes → ℕ → SlotFields → Result MailboxError MailboxMessage
  check_slot g raw expected f =
      if not (f.state == 1) || not (f.slot_sequence == expected)
      then err corrupt_slot
      else if ltb (payload_capacity g) (total f)
      then err corrupt_length
      else read_body f (slice raw (slot_offset g expected + slot_header_size) (total f))

  unfoldable pub decode_slot : Mailbox → Bytes → ℕ → Result MailboxError MailboxMessage
  decode_slot g raw expected =
      check_slot g raw expected (slot_fields (slice raw (slot_offset g expected) slot_header_size))
