-- ===== src/Auth/Guard.antt =====
-- ReplayGuardState. Times are in microseconds and a reading of the clock is an argument. The sequence
-- number -1, from before the first message, is `none`; those of messages are naturals, since one below is
-- refused as not above -1. last_message_time, which nothing reads, is left out.
use zdx_paralell_pyxel_vm.Base.{
  ℕ, ◌+◌, String, Bool, true, false, not, ◌||◌, Option, none, some, List, [], ◌∷◌, ltb, leb, ◌==◌,
  if◌then◌else◌,
}

pub record ReplayGuardState : Type 0 where
  pub peer_id : String
  pub last_sequence : Option ℕ
  pub seen_sequences : List ℕ
  pub message_count : ℕ
  pub rate_limit_window_start : ℕ

abbrev pub new_guard : ReplayGuardState
new_guard = record {
  peer_id = "";
  last_sequence = none;
  seen_sequences = [];
  message_count = 0;
  rate_limit_window_start = 0;
}

-- The guard with its window begun anew when that is over.
abbrev pub in_window : ℕ → ReplayGuardState → ReplayGuardState
in_window now g =
    if ltb (g.rate_limit_window_start + 10000000) now
    then record g { rate_limit_window_start = now; message_count = 0 }
    else g

unfoldable pub check_and_update_rate_limit : ℕ → ReplayGuardState → ReplayGuardState × Bool
check_and_update_rate_limit now g =
    let count = (in_window now g).message_count + 1 in
    (record (in_window now g) { message_count = count }, leb count 100)

-- `sequence > last_sequence`
abbrev pub above : Option ℕ → ℕ → Bool
above none s = true
above (some last) s = ltb last s

-- `sequence > last_sequence + SEQUENCE_WINDOW`
abbrev pub past_window : Option ℕ → ℕ → Bool
past_window none s = ltb 99 s
past_window (some last) s = ltb (last + 100) s

unfoldable pub was_seen : ℕ → List ℕ → Bool
was_seen s [] = false
was_seen s (t ∷ ts) = t == s || was_seen s ts

unfoldable pub check_sequence : ℕ → ReplayGuardState → ReplayGuardState × Bool
unfolding was_seen
check_sequence s g =
    if not (above g.last_sequence s)
    then (g, false)
    else if was_seen s g.seen_sequences
    then (g, false)
    else (
      record g {
        seen_sequences = s ∷ (if past_window g.last_sequence s then [] else g.seen_sequences);
        last_sequence = some s;
      },
      true,
    )
