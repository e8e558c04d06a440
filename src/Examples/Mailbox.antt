-- ===== src/Examples/Mailbox.antt =====
-- The mailbox at concrete inputs.
use zdx_paralell_pyxel_vm.Base.{◌≡◌, refl, true, List, [], ◌∷◌, arith}
use zdx_paralell_pyxel_vm.Base.Results.{ok}
use zdx_paralell_pyxel_vm.Compiler.Text.{same_text}
use zdx_paralell_pyxel_vm.Bytes.{Bytes, slice, splice, zeros}
use zdx_paralell_pyxel_vm.Mailbox.Format.{
  Mailbox, Outside, header_bytes, write_header, ensure_header, open_mailbox,
}
use zdx_paralell_pyxel_vm.Mailbox.Queue.{
  Request, send, receive, look, ask, queue_replies, region_replies,
}
use zdx_paralell_pyxel_vm.Mailbox.Queue.Opened.{no_messages, mailbox_answers}

-- A digest of 32 zeros, and names that are all texts.
abbrev some_outside : Outside
some_outside = record { digest = λ s a b c d. zeros 32; is_utf8 = λ name. true }

-- A region with room for two slots of 60 bytes.
abbrev blank_region : Bytes
blank_region = zeros 160

abbrev two_slots : Mailbox
two_slots = record { capacity = 160; slot_size = 60; slot_count = 2 }

abbrev opened_region : Bytes
opened_region = splice blank_region 0 (header_bytes two_slots 1 1)

blank_region_opens : open_mailbox 60 8 8 blank_region ≡ ok (two_slots, opened_region)
unfolding open_mailbox ensure_header write_header slice splice same_text
blank_region_opens = refl

-- Three sends, of which the last finds the mailbox full, and what is left after a receive.
abbrev some_requests : List Request
some_requests =
    send (1 ∷ []) (97 ∷ []) (98 ∷ []) []
    ∷ send (2 ∷ []) (97 ∷ []) (98 ∷ []) []
    ∷ send (3 ∷ []) (97 ∷ []) (98 ∷ []) []
    ∷ receive
    ∷ look
    ∷ ask
    ∷ []

mailbox_answers_example :
    region_replies some_outside two_slots some_requests opened_region
    ≡ queue_replies some_outside two_slots some_requests no_messages
unfolding slice
mailbox_answers_example =
    mailbox_answers some_outside two_slots 60 8 8 blank_region opened_region some_requests
      (λ s a b c d. refl) refl blank_region_opens (refl, (refl, (refl, (tt, (tt, (tt, tt))))))
      (omega arith)
