-- ===== src/Mailbox/Ring.antt =====
-- src/zdx_spatial_mailbox.py: the operations of `SpatialMailbox` on the bytes of its region, which
-- each reads whole, changes, and writes back whole.
use zdx_paralell_pyxel_vm.Base.{
  ℕ, zero, suc, ◌+◌, ◌-◌, List, [], ◌∷◌, ◌++◌, Bool, true, false, not, ◌&&◌, ◌||◌, Option, none,
  some, if◌then◌else◌, ltb, leb, length,
}
use zdx_paralell_pyxel_vm.Base.Results.{Result, ok, err, refuse_if, ◌>>=◌, ◌>>◌}
use zdx_paralell_pyxel_vm.Bytes.{Bytes, splice, zeros, span}
use zdx_paralell_pyxel_vm.Mailbox.Format.{
  Mailbox, MailboxError, MailboxMessage, Outside, no_name, name_too_large, message_too_large,
  mailbox_full, struct_error, payload_capacity, header, write_header, slot_offset, slot_header_size,
  slot_header, decode_slot,
}
pub mod Slots
pub mod Write
pub mod Fifo

unfoldable pub pending_count : Mailbox → Bytes → Result MailboxError ℕ
pending_count g raw = do (next, read) ← header g raw; ok (next - read)

abbrev pub no_bytes : Bytes → Bool
no_bytes [] = true
no_bytes (b ∷ bs) = false

-- What a slot holds after the header of the message.
abbrev pub body_of : MailboxMessage → Bytes
body_of m = m.sender ++ (m.recipient ++ (m.topic ++ m.payload))

-- `_SLOT_HEADER.pack_into`; `struct` refuses what does not fit its field
unfoldable pub write_slot_header : MailboxMessage → ℕ → Bytes → Result MailboxError Bytes
write_slot_header m offset raw =
    if ltb m.sequence (span 8)
      && ltb (length m.payload) (span 4)
      && ltb (length m.sender) (span 2)
      && ltb (length m.recipient) (span 2)
      && ltb (length m.topic) (span 2)
    then ok (splice raw offset (slot_header m))
    else err struct_error

-- The body of a slot: cleared, and then written.
unfoldable pub write_body : Mailbox → MailboxMessage → ℕ → Bytes → Bytes
write_body g m start raw = splice (splice raw start (zeros (payload_capacity g))) start (body_of m)

module _ (x : Outside) (g : Mailbox) where
  unfoldable pub check_message : Bytes → Bytes → Bytes → Bytes → Result MailboxError (Unit {0})
  check_message payload sender recipient topic = do
    refuse_if (no_bytes sender || no_bytes recipient) no_name
    refuse_if
        (ltb 65535 (length sender) || ltb 65535 (length recipient) || ltb 65535 (length topic))
        name_too_large
    refuse_if
        (ltb (payload_capacity g)
          (length sender + length recipient + length topic + length payload))
        message_too_large

  abbrev pub message_of : ℕ → Bytes → Bytes → Bytes → Bytes → MailboxMessage
  message_of sequence payload sender recipient topic = record {
    sequence = sequence;
    sender = sender;
    recipient = recipient;
    topic = topic;
    payload = payload;
    sha256 = x.digest sequence sender recipient topic payload;
  }

  -- The slot of `m` is written, and the header after it.
  unfoldable pub write_message : MailboxMessage → ℕ → Bytes → Result MailboxError Bytes
  write_message m read raw = do
    let offset = slot_offset g m.sequence
    headed ← write_slot_header m offset raw
    write_header g (m.sequence + 1) read (write_body g m (offset + slot_header_size) headed)

  unfoldable pub enqueue :
      Bytes → Bytes → Bytes → Bytes → Bytes → Result MailboxError (MailboxMessage × Bytes)
  enqueue payload sender recipient topic raw = do
    check_message payload sender recipient topic
    (next, read) ← header g raw
    refuse_if (leb g.slot_count (next - read)) mailbox_full
    let m = message_of next payload sender recipient topic
    written ← write_message m read raw
    ok (m, written)

  unfoldable pub peek : Bytes → Result MailboxError (Option MailboxMessage)
  peek raw = do
    (next, read) ← header g raw
    if leb next read then ok none else (decode_slot x g raw read >>= λ m. ok (some m))

  unfoldable pub dequeue : Bytes → Result MailboxError (Option MailboxMessage × Bytes)
  dequeue raw = do
    (next, read) ← header g raw
    if leb next read then ok (none, raw) else (do
      m ← decode_slot x g raw read
      written ← write_header g next (read + 1) (splice raw (slot_offset g read) (zeros g.slot_size))
      ok (some m, written))
