-- ===== src/Mailbox/Queue/Refines.antt =====
-- src/zdx_spatial_mailbox.py answers as a bounded queue does.
use zdx_paralell_pyxel_vm.Base.{
  ℕ, suc, ◌+◌, ◌-◌, ◌≤◌, ◌<◌, ◌≡◌, refl, sym, subst, List, [], ◌∷◌, true, false, leb, arith, length,
  inl, inr, Bool-cases, length-append,
}
use zdx_paralell_pyxel_vm.Base.Results.{ok, Result-cases}
use zdx_paralell_pyxel_vm.Bytes.{Bytes, span}
use zdx_paralell_pyxel_vm.Mailbox.Format.{Mailbox, MailboxMessage, Outside}
use zdx_paralell_pyxel_vm.Mailbox.Ring.{check_message, message_of, enqueue, peek, pending_count}
use zdx_paralell_pyxel_vm.Mailbox.Ring.Slots.{IsGeometry}
use zdx_paralell_pyxel_vm.Mailbox.Ring.Write.{Fits}
use zdx_paralell_pyxel_vm.Mailbox.Ring.Fifo.{
  IsQueue, enqueue-IsQueue, enqueue_full, dequeue_empty, dequeue-IsQueue,
}
use zdx_paralell_pyxel_vm.Mailbox.Queue.{
  Request, send, receive, look, ask, Fifo, queue_step, region_step, queue_replies, region_replies,
  IsText, AreTexts,
}

-- The region stands for the queue.
abbrev pub Stands : Outside → Mailbox → Fifo → Bytes → Type 0
Stands x g f raw =
    (read : ℕ) × (f.next_number ≡ read + length f.pending) × IsQueue x g read f.pending raw

module _ (x : Outside) (g : Mailbox) (y : IsGeometry g)
    (long : (s : ℕ) (a b c d : Bytes) → length (x.digest s a b c d) ≡ 32) where
  check_message-Fits :
      (s : ℕ) (payload sender recipient topic : Bytes)
      → check_message x g payload sender recipient topic ≡ ok tt
      → IsText x g (send payload sender recipient topic)
      → s < span 8
      → Fits x g (message_of x g s payload sender recipient topic)
  unfolding check_message
  check_message-Fits s payload sender recipient topic accepted texts fits =
      let size = y.size_fits in
      record {
        sequence_fits = fits;
        payload_fits = ground (arith, accepted, size);
        sender_fits = ground (arith, accepted);
        recipient_fits = ground (arith, accepted);
        topic_fits = ground (arith, accepted);
        whole = ground (arith, accepted);
        its_digest = refl;
        digest_long = long s sender recipient topic payload;
        texts = texts;
      }

  abbrev Answers : Request → Fifo → Bytes → Type 0
  Answers q f raw =
      ((region_step x g q raw).0 ≡ (queue_step x g q f).0)
      × Stands x g (queue_step x g q f).1 (region_step x g q raw).1

  -- The queue of the messages `q`, of which the oldest has the number `read`.
  abbrev from : ℕ → List MailboxMessage → Fifo
  from read q = record { next_number = read + length q; pending = q }

  sending :
      (payload sender recipient topic : Bytes) (read : ℕ) (q : List MailboxMessage) (raw : Bytes)
      → IsQueue x g read q raw
      → IsText x g (send payload sender recipient topic)
      → read + length q + 1 < span 8
      → Answers (send payload sender recipient topic) (from read q) raw
  unfolding queue_step region_step enqueue
  sending payload sender recipient topic read q raw i texts fits =
      elim (Result-cases (check_message x g payload sender recipient topic)) [
        | inl (e, raises) ↦ rw (raises, queue_step, region_step) (refl, (read, refl, i))
        | inr (u, accepted) ↦ elim (Bool-cases (leb g.slot_count (length q))) [
          | inl full ↦
              let is_full : length q ≡ g.slot_count = ground (arith, full, i.room) in
              let refuses =
                enqueue_full x g y read q raw payload sender recipient topic i accepted is_full in
              rw (refuses, accepted, full, queue_step, region_step) (refl, (read, refl, i))
          | inr free ↦
              let (written, done, after) =
                enqueue-IsQueue x g y read q raw payload sender recipient topic i accepted
                  (ground (arith, free))
                  (check_message-Fits (read + length q) payload sender recipient topic accepted
                    texts (omega (arith, fits)))
                  fits in
              rw (done, accepted, free, queue_step, region_step)
                (
                  refl,
                  (
                    read,
                    omega (
                      arith,
                      length-append q
                          (message_of x g (read + length q) payload sender recipient topic ∷ []),
                    ),
                    after,
                  ),
                )
        ]
      ]

  receiving :
      (read : ℕ) (q : List MailboxMessage) (raw : Bytes)
      → IsQueue x g read q raw
      → read + length q + 1 < span 8
      → Answers receive (from read q) raw
  unfolding queue_step region_step
  receiving read [] raw i fits =
      rw (dequeue_empty x g y read raw i, region_step, queue_step) (refl, (read, refl, i))
  receiving read (m ∷ q) raw i fits =
      let (written, done, after) = dequeue-IsQueue x g y read m q raw i (omega (arith, fits)) in
      rw (done, region_step, queue_step) (refl, (read + 1, omega arith, after))

  looking :
      (read : ℕ) (q : List MailboxMessage) (raw : Bytes)
      → IsQueue x g read q raw
      → Answers look (from read q) raw
  unfolding queue_step region_step peek
  looking read [] raw i =
      let none_waits : leb (read + 0) read ≡ true = ground arith in
      rw (i.head, none_waits, region_step, queue_step, peek) (refl, (read, refl, i))
  looking read (m ∷ q) raw i =
      let one_waits : leb (read + suc (length q)) read ≡ false = ground arith in
      rw (i.head, one_waits, i.holds.0, region_step, queue_step, peek) (refl, (read, refl, i))

  asking :
      (read : ℕ) (q : List MailboxMessage) (raw : Bytes)
      → IsQueue x g read q raw
      → Answers ask (from read q) raw
  unfolding queue_step region_step pending_count
  asking read q raw i =
      let many : read + length q - read ≡ length q = omega arith in
      rw (i.head, many, region_step, queue_step, pending_count) (refl, (read, refl, i))

  answering :
      (r : Request) (read : ℕ) (q : List MailboxMessage) (raw : Bytes)
      → IsQueue x g read q raw
      → IsText x g r
      → read + length q + 1 < span 8
      → Answers r (from read q) raw
  answering (send payload sender recipient topic) read q raw i texts fits =
      sending payload sender recipient topic read q raw i texts fits
  answering receive read q raw i texts fits = receiving read q raw i fits
  answering look read q raw i texts fits = looking read q raw i
  answering ask read q raw i texts fits = asking read q raw i

  queue_step_number :
      (r : Request) (f : Fifo) → (queue_step x g r f).1.next_number ≤ f.next_number + 1
  unfolding queue_step
  queue_step_number (send payload sender recipient topic) f = ground arith
  queue_step_number receive f = omega arith
  queue_step_number look f = omega arith
  queue_step_number ask f = omega arith

  -- From a region that stands for a queue on.
  pub replies_agree :
      (rs : List Request) (f : Fifo) (raw : Bytes)
      → Stands x g f raw
      → AreTexts x g rs
      → f.next_number + length rs < span 8
      → region_replies x g rs raw ≡ queue_replies x g rs f
  unfolding region_replies queue_replies
  replies_agree [] f raw stands texts fits = refl
  replies_agree (r ∷ rs) f raw (read, next, i) texts fits =
      let (same, after) =
        subst (λ n. Answers r (record { next_number = n; pending = f.pending }) raw) (sym next)
          (answering r read f.pending raw i texts.0 (omega (arith, next, fits))) in
      let rest =
        replies_agree rs (queue_step x g r f).1 (region_step x g r raw).1 after texts.1
          (omega (arith, queue_step_number r f, fits)) in
      rw (same, rest) refl
