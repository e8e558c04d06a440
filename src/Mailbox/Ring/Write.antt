-- ===== src/Mailbox/Ring/Write.antt =====
-- src/zdx_spatial_mailbox.py, `enqueue`: what the region holds when a message has been written.
use zdx_paralell_pyxel_vm.Base.{
  ℕ, ◌+◌, ◌≤◌, ◌<◌, ◌≡◌, refl, sym, ◌∙◌, ◌++◌, true, false, ◌&&◌, ltb, ==_refl, arith, length,
  length-append, inl,
}
use zdx_paralell_pyxel_vm.Base.Results.{ok}
use zdx_paralell_pyxel_vm.Compiler.TextOrder.{same_text_refl}
use zdx_paralell_pyxel_vm.Bytes.{
  Bytes, slice, splice, zeros, span, take-append, drop-append, length-zeros, length-splice,
  get_elem?-splice, slice-agrees, slice_written,
}
use zdx_paralell_pyxel_vm.Mailbox.Format.{
  Mailbox, MailboxMessage, Outside, payload_capacity, slot_offset, slot_header, read_body,
  check_slot, decode_slot, total,
}
use zdx_paralell_pyxel_vm.Mailbox.Format.Read.{
  fields_of, slot_fields-slot_header, length-slot_header,
}
use zdx_paralell_pyxel_vm.Mailbox.Ring.{body_of, write_slot_header, write_body}
use zdx_paralell_pyxel_vm.Mailbox.Ring.Slots.{IsGeometry, slot_inside, AgreeBut}

-- The fields of a message fit into a slot, its digest is that of the message, and its names are
-- UTF-8.
pub record Fits (x : Outside) (g : Mailbox) (m : MailboxMessage) : Type 0 where
  pub sequence_fits : m.sequence < span 8
  pub payload_fits : length m.payload < span 4
  pub sender_fits : length m.sender < span 2
  pub recipient_fits : length m.recipient < span 2
  pub topic_fits : length m.topic < span 2
  pub whole :
      length m.sender + length m.recipient + length m.topic + length m.payload ≤ payload_capacity g
  pub its_digest : m.sha256 ≡ x.digest m.sequence m.sender m.recipient m.topic m.payload
  pub digest_long : length m.sha256 ≡ 32
  pub texts : (x.is_utf8 m.sender && x.is_utf8 m.recipient && x.is_utf8 m.topic) ≡ true

module _ (x : Outside) (g : Mailbox) (m : MailboxMessage) (f : Fits x g m) where
  read_body-body_of : read_body x (fields_of m) (body_of m) ≡ ok m
  unfolding read_body
  read_body-body_of =
      rw
        (
          take-append (length m.sender) m.sender _ refl,
          drop-append (length m.sender) m.sender _ refl,
          take-append (length m.recipient) m.recipient _ refl,
          drop-append (length m.recipient) m.recipient _ refl,
          take-append (length m.topic) m.topic _ refl,
          drop-append (length m.topic) m.topic _ refl,
        )
        (rw (sym f.its_digest, same_text_refl m.sha256, f.texts) refl)

  length-body_of : length (body_of m) ≡ total (fields_of m)
  length-body_of = omega (
    arith,
    length-append m.sender (m.recipient ++ (m.topic ++ m.payload)),
    length-append m.recipient (m.topic ++ m.payload),
    length-append m.topic m.payload,
  )

  module _ (raw : Bytes) where
    abbrev pub start : ℕ
    start = slot_offset g m.sequence + 51

    abbrev pub headed : Bytes
    headed = splice raw (slot_offset g m.sequence) (slot_header m)

    pub write_slot_header_fits : write_slot_header m (slot_offset g m.sequence) raw ≡ ok headed
    unfolding write_slot_header
    write_slot_header_fits =
        ground
          (arith, f.sequence_fits, f.payload_fits, f.sender_fits, f.recipient_fits, f.topic_fits)

    abbrev cleared : Bytes
    cleared = splice headed start (zeros (payload_capacity g))

    -- The region with the message in its slot, before the header is written.
    abbrev pub filled : Bytes
    filled = write_body g m start headed

    pub length-filled : length filled ≡ length raw
    unfolding write_body
    length-filled =
        length-splice cleared start (body_of m)
        ∙ length-splice headed start (zeros (payload_capacity g))
        ∙ length-splice raw (slot_offset g m.sequence) (slot_header m)

    module _ (y : IsGeometry g) (long : length raw ≡ g.capacity) where
      pub filled-AgreeBut : AgreeBut g y m.sequence raw filled
      unfolding write_body
      filled-AgreeBut i behind outside =
          let zeros_long = length-zeros (payload_capacity g) in
          let header_long = length-slot_header m f.digest_long in
          let large = y.large in
          let whole = f.whole in
          sym (
            get_elem?-splice cleared start i (body_of m)
              (ground (arith, outside, length-body_of, whole, large))
            ∙ get_elem?-splice headed start i (zeros (payload_capacity g))
                (ground (arith, outside, zeros_long, large))
            ∙ get_elem?-splice raw (slot_offset g m.sequence) i (slot_header m)
                (ground (arith, outside, header_long, large)))

      slice_header : slice filled (slot_offset g m.sequence) 51 ≡ slot_header m
      unfolding write_body
      slice_header =
          slice-agrees filled headed (slot_offset g m.sequence) 51 (λ i low high.
            get_elem?-splice cleared start i (body_of m) (inl (omega arith))
            ∙ get_elem?-splice headed start i (zeros (payload_capacity g)) (inl (omega arith)))
          ∙ slice_written raw (slot_offset g m.sequence) 51 (slot_header m)
              (length-slot_header m f.digest_long)
              (omega (arith, y.large, slot_inside g y m.sequence, long))

      slice_body : slice filled start (total (fields_of m)) ≡ body_of m
      unfolding write_body
      slice_body = slice_written cleared start (total (fields_of m)) (body_of m) length-body_of (
          omega (
            arith,
            y.large,
            f.whole,
            slot_inside g y m.sequence,
            long,
            length-splice headed start (zeros (payload_capacity g)),
            length-splice raw (slot_offset g m.sequence) (slot_header m),
          ))

      pub decode_slot-filled : decode_slot x g filled m.sequence ≡ ok m
      unfolding decode_slot check_slot
      decode_slot-filled =
          let inside : ltb (payload_capacity g) (total (fields_of m)) ≡ false =
            ground (arith, f.whole) in
          rw
            (
              slice_header,
              slot_fields-slot_header m f.sequence_fits f.payload_fits f.sender_fits
                  f.recipient_fits f.topic_fits,
              ==_refl m.sequence,
              inside,
              slice_body,
              read_body-body_of,
            )
            refl
