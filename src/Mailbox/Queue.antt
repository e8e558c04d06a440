-- ===== src/Mailbox/Queue.antt =====
-- A queue of at most so many messages, oldest first: what src/zdx_spatial_mailbox.py stores in the
-- bytes of a region. Messages are numbered in the order in which they are taken.
use zdx_paralell_pyxel_vm.Base.{
  ℕ, ◌+◌, ◌≤◌, ◌<◌, ◌≡◌, List, [], ◌∷◌, ◌++◌, Bool, true, false, ◌&&◌, Option, none, some,
  if◌then◌else◌, leb, length,
}
use zdx_paralell_pyxel_vm.Base.Results.{Result, ok, err}
use zdx_paralell_pyxel_vm.Bytes.{Bytes}
use zdx_paralell_pyxel_vm.Mailbox.Format.{
  Mailbox, MailboxError, MailboxMessage, Outside, mailbox_full,
}
use zdx_paralell_pyxel_vm.Mailbox.Ring.{
  check_message, message_of, enqueue, dequeue, peek, pending_count,
}
pub mod Refines
pub mod Opened

-- The calls of a mailbox, with what they return or raise.
pub data Request : Type 0 where
  send : Bytes → Bytes → Bytes → Bytes → Request
  receive look ask : Request

pub data Answer : Type 0 where
  sent : MailboxMessage → Answer
  received : Option MailboxMessage → Answer
  counted : ℕ → Answer
  refused : MailboxError → Answer

pub record Fifo : Type 0 where
  pub next_number : ℕ
  pub pending : List MailboxMessage

abbrev pub first_of : List MailboxMessage → Option MailboxMessage
first_of [] = none
first_of (m ∷ q) = some m

abbrev pub without_oldest : List MailboxMessage → List MailboxMessage
without_oldest [] = []
without_oldest (m ∷ q) = q

module _ (x : Outside) (g : Mailbox) where
  unfoldable pub queue_step : Request → Fifo → Answer × Fifo
  queue_step (send payload sender recipient topic) f =
      elim (check_message x g payload sender recipient topic) [
        | err e ↦ (refused e, f)
        | ok u ↦
            if leb g.slot_count (length f.pending)
            then (refused mailbox_full, f)
            else let m = message_of x g f.next_number payload sender recipient topic in
              (sent m, record { next_number = f.next_number + 1; pending = f.pending ++ (m ∷ []) })
      ]
  queue_step receive f =
      (received (first_of f.pending), record f { pending = without_oldest f.pending })
  queue_step look f = (received (first_of f.pending), f)
  queue_step ask f = (counted (length f.pending), f)

  -- A call of the mailbox on the bytes of its region, which stay where it raises.
  unfoldable pub region_step : Request → Bytes → Answer × Bytes
  region_step (send payload sender recipient topic) raw =
      elim (enqueue x g payload sender recipient topic raw) [
        | err e ↦ (refused e, raw)
        | ok done ↦ (sent done.0, done.1)
      ]
  region_step receive raw = elim (dequeue x g raw) [
    | err e ↦ (refused e, raw)
    | ok done ↦ (received done.0, done.1)
  ]
  region_step look raw = elim (peek x g raw) [ err e ↦ (refused e, raw) | ok m ↦ (received m, raw) ]
  region_step ask raw = elim (pending_count g raw) [
    | err e ↦ (refused e, raw)
    | ok n ↦ (counted n, raw)
  ]

  unfoldable pub queue_replies : List Request → Fifo → List Answer
  queue_replies [] f = []
  queue_replies (q ∷ qs) f = let (reply, next) = queue_step q f in reply ∷ queue_replies qs next

  unfoldable pub region_replies : List Request → Bytes → List Answer
  region_replies [] raw = []
  region_replies (q ∷ qs) raw =
      let (reply, next) = region_step q raw in reply ∷ region_replies qs next

  -- The names of a message to send are texts, in UTF-8.
  abbrev pub IsText : Request → Type 0
  IsText (send payload sender recipient topic) =
      (x.is_utf8 sender && x.is_utf8 recipient && x.is_utf8 topic) ≡ true
  IsText receive = Unit
  IsText look = Unit
  IsText ask = Unit

  abbrev pub AreTexts : List Request → Type 0
  AreTexts [] = Unit
  AreTexts (q ∷ qs) = IsText q × AreTexts qs
