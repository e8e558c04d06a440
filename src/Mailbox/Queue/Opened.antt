-- ===== src/Mailbox/Queue/Opened.antt =====
-- src/zdx_spatial_mailbox.py: a mailbox that was opened on a region with no header yet.
use zdx_paralell_pyxel_vm.Base.{
  ℕ, ◌+◌, ◌-◌, ◌*◌, ◌/◌, ◌≤◌, ◌<◌, ◌≡◌, refl, sym, subst, ◌∙◌, ap, List, [], true, arith, length,
}
use zdx_paralell_pyxel_vm.Base.Results.{ok}
use zdx_paralell_pyxel_vm.Compiler.Text.{same_text}
use zdx_paralell_pyxel_vm.Compiler.TextOrder.{same_text_refl}
use zdx_paralell_pyxel_vm.Bytes.{Bytes, slice, zeros, span, length-splice}
use zdx_paralell_pyxel_vm.Mailbox.Format.{
  Mailbox, Outside, header_bytes, write_header, ensure_header, open_mailbox,
}
use zdx_paralell_pyxel_vm.Mailbox.Format.Read.{write_header_fits, header-write_header}
use zdx_paralell_pyxel_vm.Mailbox.Ring.Slots.{IsGeometry}
use zdx_paralell_pyxel_vm.Mailbox.Ring.Fifo.{IsQueue}
use zdx_paralell_pyxel_vm.Mailbox.Queue.{Request, Fifo, region_replies, queue_replies, AreTexts}
use zdx_paralell_pyxel_vm.Mailbox.Queue.Refines.{Stands, replies_agree}

abbrev pub no_messages : Fifo
no_messages = record { next_number = 1; pending = [] }

module _ (slot_size y rows : ℕ) (raw opened : Bytes) (g : Mailbox) where
  abbrev geometry : Mailbox
  geometry = record {
    capacity = length raw;
    slot_size = slot_size;
    slot_count = (length raw - 36) / slot_size;
  }

  -- What a constructor that succeeds has checked, and what it has written.
  opened_parts :
      slice raw 0 36 ≡ zeros 36
      → open_mailbox slot_size y rows raw ≡ ok (g, opened)
      → (51 < slot_size)
        × (1 ≤ (length raw - 36) / slot_size)
        × (geometry ≡ g)
        × (write_header geometry 1 1 raw ≡ ok opened)
  unfolding open_mailbox ensure_header
  opened_parts blank h =
      let is_blank : same_text (slice raw 0 36) (zeros 36) ≡ true =
        rw blank (same_text_refl (zeros 36)) in
      let done = rw (is_blank, open_mailbox, ensure_header) at h in ground (arith, done)

  quotient_inside : (n size : ℕ) → 1 ≤ n / size → n / size * size ≤ n
  quotient_inside n size h = omega arith

  quotient_some : (n size : ℕ) → 1 ≤ n / size → 1 ≤ n
  quotient_some n size h = grind (arith, quotient_inside n size h)

  pub opened-Stands :
      (x : Outside)
      → slice raw 0 36 ≡ zeros 36
      → open_mailbox slot_size y rows raw ≡ ok (g, opened)
      → IsGeometry g × Stands x g no_messages opened
  opened-Stands x blank h =
      let (large, some_slot, same, wrote) = opened_parts blank h in
      let (size, count, n, r, is) = write_header_fits geometry 1 1 raw opened wrote in
      let inside = quotient_inside (length raw - 36) slot_size some_slot in
      let some_room = quotient_some (length raw - 36) slot_size some_slot in
      let fits : IsGeometry geometry = record {
        large = large;
        some_slot = some_slot;
        inside = omega (arith, inside, some_room);
        size_fits = size;
        count_fits = count;
      } in
      let empty : IsQueue x geometry 1 [] opened = record {
        long = ap length (sym is) ∙ length-splice raw 0 (header_bytes geometry 1 1);
        head =
            header-write_header geometry 1 1 raw opened wrote (omega (arith, some_room))
              (omega arith) (omega arith) (omega arith);
        one = omega arith;
        room = omega arith;
        holds = tt;
      } in
      subst (λ m. IsGeometry m × Stands x m no_messages opened) same (fits, (1, refl, empty))

-- A mailbox that was opened without an error on a region whose header is zero answers any sends,
-- receives, looks and counts as an empty queue does that takes as many messages as there are slots
-- and numbers them from 1: in order, with the contents as they were sent, and with the same
-- refusals. The digest has 32 bytes, the names are UTF-8, and there are fewer than 2^64 - 1 calls.
pub mailbox_answers :
    (x : Outside) (g : Mailbox) (slot_size y rows : ℕ) (raw opened : Bytes) (rs : List Request)
    → ((s : ℕ) (a b c d : Bytes) → length (x.digest s a b c d) ≡ 32)
    → slice raw 0 36 ≡ zeros 36
    → open_mailbox slot_size y rows raw ≡ ok (g, opened)
    → AreTexts x g rs
    → 1 + length rs < span 8
    → region_replies x g rs opened ≡ queue_replies x g rs no_messages
mailbox_answers x g slot_size y rows raw opened rs long blank done texts fits =
    let (geometry_holds, stands) = opened-Stands slot_size y rows raw opened g x blank done in
    replies_agree x g geometry_holds long rs no_messages opened stands texts fits
