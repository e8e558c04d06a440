-- ===== src/Gateway/Store.antt =====
-- What AgentToolGateway keeps in the agent memory, and the memory as an interface. A handler is a function
-- that returns or raises.
use Prim.Native.String.{◌++◌ as text_append}
use zdx_paralell_pyxel_vm.Base.{
  ◌≡◌, String, Bool, false, ◌&&◌, Option, none, some, str_eq, if◌then◌else◌,
}
use zdx_paralell_pyxel_vm.Base.Results.{Result, ok, err}
use zdx_paralell_pyxel_vm.Compiler.Text.{Text}
use zdx_paralell_pyxel_vm.Gateway.Policy.{AgentToolPolicy}
use zdx_paralell_pyxel_vm.Gateway.Proposal.{
  AgentActionProposal, AgentActionDecision, GatewayError, ambiguous, first_chars,
}
use zdx_paralell_pyxel_vm.Gateway.Same.{same_proposal}

-- The type and the message of an exception.
pub record Raised : Type 0 where
  pub type_name : String
  pub message : Text

-- An intent or a result, with the entries that it has.
pub record ToolRecord : Type 0 where
  pub status : Option String
  pub action_hash : Option String
  pub proposal : Option AgentActionProposal
  pub decision : Option AgentActionDecision
  pub error : Option Raised
  pub result : Option Text

pub data Stored : Type 0 where
  other_value : Stored
  tool_record : ToolRecord → Stored
  policy_record : AgentToolPolicy → String → Stored

-- The agent memory: reading, and writing and deleting, which may raise. What is under other keys stays,
-- since the namespaces of the gateway do not evict.
pub record ToolMemory (M : Type 0) : Type 1 where
  pub read : String → String → M → Option Stored
  pub write : String → String → Stored → M → Option M
  pub remove : String → String → M → Option (Bool × M)
  pub read-write :
      (n k : String) (v : Stored) (m after : M)
      → write n k v m ≡ some after
      → read n k after ≡ some v
  pub read_other-write :
      (n k j i : String) (v : Stored) (m after : M)
      → write n k v m ≡ some after
      → (str_eq n j && str_eq k i) ≡ false
      → read j i after ≡ read j i m
  pub read_other-remove :
      (n k j i : String) (m after : M) (there : Bool)
      → remove n k m ≡ some (there, after)
      → (str_eq n j && str_eq k i) ≡ false
      → read j i after ≡ read j i m

abbrev pub intent_key : String → String
intent_key h = text_append "tool-intent/" h

abbrev pub result_key : String → String
result_key h = text_append "tool-result/" h

abbrev pub Handler : Type 0
Handler = AgentActionProposal → Result Raised Text

-- The intent that is stored before the call.
abbrev pub pending_intent : AgentActionProposal → AgentActionDecision → ToolRecord
pending_intent p d = record {
  status = some "pending";
  action_hash = none;
  proposal = some p;
  decision = some d;
  error = none;
  result = none;
}

-- The intent of a call that raised.
abbrev pub failed_intent : Raised → ToolRecord → ToolRecord
failed_intent e r = record r {
  status = some "ambiguous";
  error = some (record e { message = first_chars 512 e.message });
}

abbrev pub finished : AgentActionProposal → AgentActionDecision → Text → ToolRecord
finished p d result = record {
  status = none;
  action_hash = some p.action_hash;
  proposal = some p;
  decision = some d;
  error = none;
  result = some result;
}

-- `_validate_persisted_proposal`
unfoldable pub persisted_proposal_matches : Option AgentActionProposal → AgentActionProposal → Bool
unfolding same_proposal
persisted_proposal_matches none p = false
persisted_proposal_matches (some q) p = same_proposal q p

abbrev pub hash_matches : Option String → String → Bool
hash_matches none h = false
hash_matches (some g) h = str_eq g h

abbrev pub stored_result : Option Text → Result GatewayError Text
stored_result none = err ambiguous
stored_result (some result) = ok result

-- The answer from a stored result.
unfoldable pub replayed : Stored → AgentActionProposal → Result GatewayError Text
unfolding persisted_proposal_matches
replayed other_value p = err ambiguous
replayed (policy_record policy hash) p = err ambiguous
replayed (tool_record r) p =
    if persisted_proposal_matches r.proposal p && hash_matches r.action_hash p.action_hash
    then stored_result r.result
    else err ambiguous
