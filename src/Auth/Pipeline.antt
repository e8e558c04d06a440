-- ===== src/Auth/Pipeline.antt =====
-- ZDXAuthenticationPipeline. The checks of signature, revocation and enrollment are parameters, as they
-- are of the constructor; a message that passes is answered with `ok`, where the source dispatches it.
use zdx_paralell_pyxel_vm.Base.{
  ℕ, ◌+◌, ◌-◌, String, Bool, true, false, not, Option, none, some, ltb, ◌==◌, if◌then◌else◌,
}
use zdx_paralell_pyxel_vm.Base.Dict.{Dict, get, insert, delete}
use zdx_paralell_pyxel_vm.Base.Results.{Result, ok, err, ◌>>◌, refuse_if}
use zdx_paralell_pyxel_vm.Compiler.Text.{Text}
use zdx_paralell_pyxel_vm.Auth.Guard.{
  ReplayGuardState, new_guard, check_and_update_rate_limit, check_sequence,
}

pub record Message : Type 0 where
  pub peer_id : String
  pub protocol_version : ℕ
  pub timestamp : ℕ
  pub signature : String
  pub payload : Text
  pub sequence : Option ℕ

-- The stages that raise.
pub data AuthenticationError : Type 0 where
  version_stage timestamp_stage signature_stage revocation_stage enrollment_stage :
      AuthenticationError
  rate_stage replay_stage : AuthenticationError

-- A message with the readings of the clock in stages 2 and 6.
pub record Arrival : Type 0 where
  pub message : Message
  pub checked_at : ℕ
  pub limited_at : ℕ

pub record Checks : Type 0 where
  pub verify_signature : String → Text → String → Bool
  pub check_revocation : String → Bool
  pub check_enrollment : String → Bool

-- `_replay_guards[peer_id]`, with the peer's name put in.
abbrev pub found : Option ReplayGuardState → ReplayGuardState
found none = new_guard
found (some g) = g

abbrev pub guard_of : String → Dict ReplayGuardState → ReplayGuardState
guard_of peer guards = found (get peer guards)

abbrev pub named_guard : String → Dict ReplayGuardState → ReplayGuardState
named_guard peer guards = record (guard_of peer guards) { peer_id = peer }

abbrev pub message_age : ℕ → ℕ → ℕ
message_age now timestamp = now - timestamp + (timestamp - now)

-- Stages 1 to 5.
unfoldable pub verified : Checks → ℕ → Message → Result AuthenticationError (Unit {0})
verified c now m =
    refuse_if (not (m.protocol_version == 1)) version_stage
    >> refuse_if (ltb 60000000 (message_age now m.timestamp)) timestamp_stage
    >> refuse_if (not (c.verify_signature m.peer_id m.payload m.signature)) signature_stage
    >> refuse_if (c.check_revocation m.peer_id) revocation_stage
    >> refuse_if (not (c.check_enrollment m.peer_id)) enrollment_stage

unfoldable pub check_rate_limit : ℕ → String → Dict ReplayGuardState → Dict ReplayGuardState × Bool
unfolding check_and_update_rate_limit
check_rate_limit now peer guards =
    let r = check_and_update_rate_limit now (named_guard peer guards) in
    (insert peer r.0 guards, r.1)

unfoldable pub check_replay : ℕ → String → Dict ReplayGuardState → Dict ReplayGuardState × Bool
unfolding check_sequence
check_replay s peer guards =
    let r = check_sequence s (named_guard peer guards) in (insert peer r.0 guards, r.1)

abbrev pub replay_answer : Bool → Result AuthenticationError (Unit {0})
replay_answer true = ok tt
replay_answer false = err replay_stage

-- Stage 6, for a message that was verified.
unfoldable pub admit :
    ℕ
    → Message
    → Dict ReplayGuardState
    → Dict ReplayGuardState × Result AuthenticationError (Unit {0})
unfolding check_rate_limit check_replay
admit now m guards =
    let limited = check_rate_limit now m.peer_id guards in
    if not limited.1 then (limited.0, err rate_stage) else elim m.sequence [
      | none ↦ (limited.0, ok tt)
      | some s ↦
          let checked = check_replay s m.peer_id limited.0 in (checked.0, replay_answer checked.1)
    ]

unfoldable pub process_message :
    Checks
    → Arrival
    → Dict ReplayGuardState
    → Dict ReplayGuardState × Result AuthenticationError (Unit {0})
unfolding verified admit
process_message c a guards = elim (verified c a.checked_at a.message) [
  | err e ↦ (guards, err e)
  | ok passed ↦ admit a.limited_at a.message guards
]

unfoldable pub get_replay_state : String → Dict ReplayGuardState → ReplayGuardState
get_replay_state peer guards = elim (get peer guards) [
  | none ↦ record new_guard { peer_id = peer }
  | some g ↦ g
]

unfoldable pub clear_replay_state : String → Dict ReplayGuardState → Dict ReplayGuardState
clear_replay_state peer guards = delete peer guards
