-- ===== src/Mailbox/Ring/Fifo.antt =====
-- src/zdx_spatial_mailbox.py: the region of a mailbox stands for a queue, and `enqueue` and
-- `dequeue` for its operations.
use zdx_paralell_pyxel_vm.Base.{
  ℕ, suc, ◌+◌, ◌-◌, ◌≤◌, ◌<◌, ◌≡◌, refl, sym, ◌∙◌, ap, List, [], ◌∷◌, ◌++◌, true, false, none, some,
  leb, arith, length, length-append, get_elem?, inl, inr,
}
use zdx_paralell_pyxel_vm.Base.Results.{ok, err}
use zdx_paralell_pyxel_vm.Bytes.{
  Bytes, splice, zeros, span, length-zeros, length-splice, get_elem?-splice,
}
use zdx_paralell_pyxel_vm.Mailbox.Format.{
  Mailbox, MailboxMessage, Outside, mailbox_full, header, header_bytes, write_header, slot_offset,
  decode_slot,
}
use zdx_paralell_pyxel_vm.Mailbox.Format.Read.{
  length-header_bytes, header-write_header, decode_slot-agrees,
}
use zdx_paralell_pyxel_vm.Mailbox.Ring.{write_message, message_of, check_message, enqueue, dequeue}
use zdx_paralell_pyxel_vm.Mailbox.Ring.Slots.{
  IsGeometry, slot_inside, Holds, Holds-append, Holds-stays,
}
use zdx_paralell_pyxel_vm.Mailbox.Ring.Write.{
  length-filled, Fits, filled, filled-AgreeBut, decode_slot-filled, write_slot_header_fits,
}

-- The region holds the messages of `q`, the oldest with the number `read`.
pub record IsQueue (x : Outside) (g : Mailbox) (read : ℕ) (q : List MailboxMessage) (raw : Bytes)
    : Type 0 where
  pub long : length raw ≡ g.capacity
  pub head : header g raw ≡ ok (read + length q, read)
  pub one : 1 ≤ read
  pub room : length q ≤ g.slot_count
  pub holds : Holds x g raw read q

module _ (x : Outside) (g : Mailbox) (y : IsGeometry g) where
  -- A region after its header was written over `raw`.
  abbrev Headed : ℕ → ℕ → Bytes → Bytes → Type 0
  Headed next read raw written =
      (write_header g next read raw ≡ ok written)
      × (length written ≡ length raw)
      × (header g written ≡ ok (next, read))
      × ((i : ℕ) → 36 ≤ i → get_elem? raw i ≡ get_elem? written i)
      × ((s : ℕ) → decode_slot x g raw s ≡ decode_slot x g written s)

  write_header-Headed :
      (next read : ℕ) (raw : Bytes)
      → length raw ≡ g.capacity
      → 1 ≤ read
      → read ≤ next
      → next - read ≤ g.slot_count
      → next < span 8
      → Headed next read raw (splice raw 0 (header_bytes g next read))
  unfolding write_header
  write_header-Headed next read raw long one order room fits =
      let done : write_header g next read raw ≡ ok (splice raw 0 (header_bytes g next read)) =
        ground (arith, y.size_fits, y.count_fits, fits, order) in
      let behind : (i : ℕ)
          → 36 ≤ i
          → get_elem? raw i ≡ get_elem? (splice raw 0 (header_bytes g next read)) i =
        λ i h. sym (
          get_elem?-splice raw 0 i (header_bytes g next read)
            (inr (omega (arith, h, length-header_bytes g next read)))) in
      (
        done,
        length-splice raw 0 (header_bytes g next read),
        header-write_header g next read raw _ done (omega (arith, long, y.inside)) one order room,
        behind,
        λ s.
            decode_slot-agrees x g raw _ s y.large
              (λ i low high. behind i (omega (arith, slot_inside g y s, low))),
      )

  pub enqueue-IsQueue :
      (read : ℕ) (q : List MailboxMessage) (raw payload sender recipient topic : Bytes)
      → IsQueue x g read q raw
      → check_message x g payload sender recipient topic ≡ ok tt
      → length q < g.slot_count
      → Fits x g (message_of x g (read + length q) payload sender recipient topic)
      → read + length q + 1 < span 8
      → (written : Bytes) × (enqueue x g payload sender recipient topic raw
          ≡ ok (message_of x g (read + length q) payload sender recipient topic, written))
        × IsQueue x g read
            (q ++ (message_of x g (read + length q) payload sender recipient topic ∷ []))
            written
  unfolding enqueue write_message
  enqueue-IsQueue read q raw payload sender recipient topic i accepted free f fits =
      let m = message_of x g (read + length q) payload sender recipient topic in
      let inside = filled x g m f raw in
      let longer : length (q ++ (m ∷ [])) ≡ length q + 1 = length-append q (m ∷ []) in
      let (done, same_long, head, behind, decodes) =
        write_header-Headed (read + length q + 1) read inside (length-filled x g m f raw ∙ i.long)
          i.one (omega arith) (omega (arith, free)) fits in
      let free_slot : leb g.slot_count (read + length q - read) ≡ false = ground (arith, free) in
      let written = splice inside 0 (header_bytes g (read + length q + 1) read) in
      (
        written,
        rw (accepted, i.head, free_slot, write_slot_header_fits x g m f raw, done) refl,
        record {
          long = same_long ∙ length-filled x g m f raw ∙ i.long;
          head = head ∙ ap (λ n. ok (n, read)) (omega (arith, longer));
          one = i.one;
          room = omega (arith, longer, free);
          holds =
              Holds-append x g written read q m
                (Holds-stays x g y (read + length q) raw written
                  (λ k low high. filled-AgreeBut x g m f raw y i.long k low high ∙ behind k low)
                  read q
                  (λ k low high. (
                    omega (arith, i.one, low),
                    omega (arith, i.one),
                    inl (high, omega (arith, low, free)),
                  ))
                  i.holds)
                (sym (decodes (read + length q)) ∙ decode_slot-filled x g m f raw y i.long);
        },
      )

  pub enqueue_full :
      (read : ℕ) (q : List MailboxMessage) (raw payload sender recipient topic : Bytes)
      → IsQueue x g read q raw
      → check_message x g payload sender recipient topic ≡ ok tt
      → length q ≡ g.slot_count
      → enqueue x g payload sender recipient topic raw ≡ err mailbox_full
  unfolding enqueue
  enqueue_full read q raw payload sender recipient topic i accepted full =
      let is_full : leb g.slot_count (read + length q - read) ≡ true = ground (arith, full) in
      rw (accepted, i.head, is_full) refl

  pub dequeue_empty :
      (read : ℕ) (raw : Bytes) → IsQueue x g read [] raw → dequeue x g raw ≡ ok (none, raw)
  unfolding dequeue
  dequeue_empty read raw i =
      let no_bytes : leb (read + 0) read ≡ true = ground arith in rw (i.head, no_bytes) refl

  pub dequeue-IsQueue :
      (read : ℕ) (m : MailboxMessage) (q : List MailboxMessage) (raw : Bytes)
      → IsQueue x g read (m ∷ q) raw
      → read + length q + 1 < span 8
      → (written : Bytes) × (dequeue x g raw ≡ ok (some m, written))
        × IsQueue x g (read + 1) q written
  unfolding dequeue
  dequeue-IsQueue read m q raw i fits =
      let off = slot_offset g read in
      let cleared = splice raw off (zeros g.slot_size) in
      let zeros_long = length-zeros g.slot_size in
      let (done, same_long, head, behind, decodes) =
        write_header-Headed (read + suc (length q)) (read + 1) cleared
          (length-splice raw off (zeros g.slot_size) ∙ i.long) (omega arith) (omega arith)
          (ground (arith, i.room)) (omega (arith, fits)) in
      let written = splice cleared 0 (header_bytes g (read + suc (length q)) (read + 1)) in
      let waiting : leb (read + suc (length q)) read ≡ false = ground arith in
      (
        written,
        rw (i.head, waiting, i.holds.0, done) refl,
        record {
          long = same_long ∙ length-splice raw off (zeros g.slot_size) ∙ i.long;
          head = head ∙ ap (λ n. ok (n, read + 1)) (omega arith);
          one = omega arith;
          room = ground (arith, i.room);
          holds =
              Holds-stays x g y read raw written
                (λ k low high.
                  sym (
                    get_elem?-splice raw off k (zeros g.slot_size)
                      (ground (arith, high, zeros_long)))
                  ∙ behind k low)
                (read + 1) q
                (λ k low high. (
                  omega (arith, low),
                  i.one,
                  inr (omega (arith, low), omega (arith, high, i.room)),
                ))
                i.holds.1;
        },
      )
