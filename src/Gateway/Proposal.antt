-- ===== src/Gateway/Proposal.antt =====
-- AgentToolGateway up to `authorize`. Parameters: the SHA-256 of the canonical JSON of an action and of a
-- policy, and the size of the former in bytes. The external authorizer is an argument, which may raise.
pub mod Allowed
use zdx_paralell_pyxel_vm.Base.{
  ℕ, zero, suc, String, Bool, true, false, not, ◌||◌, Option, none, some, List, [], ◌∷◌, ltb, ◌==◌,
  str_eq, if◌then◌else◌, length,
}
use zdx_paralell_pyxel_vm.Base.Results.{Result, ok, err, ◌>>=◌, ◌>>◌, refuse_if}
use zdx_paralell_pyxel_vm.Compiler.Text.{Text, codes}
use zdx_paralell_pyxel_vm.Memory.Manager.{starts_with}
use zdx_paralell_pyxel_vm.Gateway.Policy.{
  ToolCapabilityRule, AgentToolPolicy, valid_name, is_among, rule_for, sorted_policy,
}
use zdx_paralell_pyxel_vm.Gateway.Arguments.{Members, canonical_arguments}

-- The payload of `_proposal_payload`, less its constant domain.
pub record Action : Type 0 where
  pub tool : String
  pub operation : String
  pub resource : String
  pub arguments : Members
  pub idempotency_key : String
  pub generation : ℕ
  pub checkpoint_hash : String
  pub policy_hash : String

pub record AgentActionProposal : Type 0 where
  pub action : Action
  pub action_hash : String

-- What a caller asks for.
pub record ToolRequest : Type 0 where
  pub tool : String
  pub operation : String
  pub resource : String
  pub arguments : Members
  pub idempotency_key : String

-- What the session says of its VM.
pub record Marker : Type 0 where
  pub generation : ℕ
  pub checkpoint_hash : String

pub data GatewayError : Type 0 where
  invalid_tool invalid_operation invalid_resource invalid_key bad_arguments : GatewayError
  action_too_large wrong_policy stale_generation stale_checkpoint wrong_hash : GatewayError
  refused tool_missing memory_failed checkpoint_failed ambiguous handler_raised : GatewayError

pub data Decision : Type 0 where
  allow deny approval_required : Decision

-- The decision with its reason; its two hashes are those of the proposal.
pub record AgentActionDecision : Type 0 where
  pub decision : Decision
  pub reason : Text

abbrev pub allowed : AgentActionDecision → Bool
allowed d = elim d.decision [ allow ↦ true | deny ↦ false | approval_required ↦ false ]

-- What the external authorizer returns: an object with the entries that are there, or something else.
pub data Response : Type 0 where
  other_response : Response
  decision_object : Option String → Option Text → Option String → Option String → Response

abbrev pub named_decision : Option String → Option Decision
named_decision none = none
named_decision (some s) =
    if str_eq s "allow"
    then some allow
    else if str_eq s "deny"
    then some deny
    else if str_eq s "approval_required"
    then some approval_required
    else none

abbrev pub says : String → Option String → Bool
says expected none = false
says expected (some s) = str_eq s expected

abbrev pub denied : String → AgentActionDecision
denied reason = record { decision = deny; reason = codes reason }

-- `text[:n]`
unfoldable pub first_chars : ℕ → Text → Text
first_chars zero s = []
first_chars (suc n) [] = []
first_chars (suc n) (c ∷ s) = c ∷ first_chars n s

abbrev pub reason_or_default : Option Text → Text
reason_or_default none = codes "external authorizer decision"
reason_or_default (some s) = s

-- `_normalize_external_decision`
unfoldable pub normalize_external_decision : Response → AgentActionProposal → AgentActionDecision
unfolding first_chars
normalize_external_decision other_response p =
    denied "external authorizer must return a bound decision object"
normalize_external_decision (decision_object decision reason action_hash policy_hash) p =
    elim (named_decision decision) [
      | none ↦ denied "external authorizer returned an unknown decision"
      | some d ↦
          if not (says p.action_hash action_hash)
          then denied "external authorization action hash does not match proposal"
          else if not (says p.action.policy_hash policy_hash)
          then denied "external authorization policy hash does not match proposal"
          else record { decision = d; reason = first_chars 512 (reason_or_default reason) }
    ]

unfoldable pub any_prefix : List String → String → Bool
unfolding starts_with
any_prefix [] resource = false
any_prefix (p ∷ ps) resource = starts_with (codes p) (codes resource) || any_prefix ps resource

-- The resource is within the rule: under a prefix, or absent where there is none.
abbrev pub within_prefixes : ToolCapabilityRule → String → Bool
within_prefixes r resource = elim r.resource_prefixes [
  | [] ↦ str_eq resource ""
  | p ∷ ps ↦ any_prefix r.resource_prefixes resource
]

-- `_local_decision`
unfoldable pub local_decision : AgentToolPolicy → Action → AgentActionDecision
unfolding rule_for is_among any_prefix
local_decision policy a = elim (rule_for policy a.tool) [
  | none ↦ denied "tool is not granted by local policy"
  | some r ↦
      if not (is_among a.operation r.operations)
      then denied "operation is not granted by local policy"
      else if within_prefixes r a.resource
      then record { decision = allow; reason = codes "local capability rule matched" }
      else elim r.resource_prefixes [
        | [] ↦ denied "policy grants no resource-bearing action for this tool"
        | p ∷ ps ↦ denied "resource is outside granted prefixes"
      ]
]

abbrev pub checked_arguments : Members → Result GatewayError Members
checked_arguments ms = elim (canonical_arguments ms) [ err e ↦ err bad_arguments | ok c ↦ ok c ]

-- An external authorizer raises (`none`) or returns; the approval is part of what it is.
abbrev pub Authorizer : Type 0
Authorizer = AgentActionProposal → Option Response

-- The decision of the external authorizer, where there is one.
abbrev pub external_decision :
    Option Authorizer → AgentActionProposal → AgentActionDecision → AgentActionDecision
external_decision none p local = local
external_decision (some ask) p local = elim (ask p) [
  | none ↦ denied "external authorizer failed"
  | some response ↦ normalize_external_decision response p
]

module _ (digest : Action → String) (encoded_size : Action → ℕ)
    (policy_digest : AgentToolPolicy → String) where
  unfoldable pub policy_hash_of : AgentToolPolicy → String
  unfolding sorted_policy
  policy_hash_of policy = policy_digest (sorted_policy policy)

  unfoldable pub propose :
      AgentToolPolicy → Marker → ToolRequest → Result GatewayError AgentActionProposal
  unfolding valid_name policy_hash_of canonical_arguments
  propose policy marker q =
      refuse_if (not (valid_name q.tool)) invalid_tool
      >> refuse_if (not (valid_name q.operation)) invalid_operation
      >> refuse_if (ltb 2048 (length (codes q.resource))) invalid_resource
      >> refuse_if (not (valid_name q.idempotency_key)) invalid_key
      >> checked_arguments q.arguments
      >>= λ arguments.
          let action : Action = record {
            tool = q.tool;
            operation = q.operation;
            resource = q.resource;
            arguments = arguments;
            idempotency_key = q.idempotency_key;
            generation = marker.generation;
            checkpoint_hash = marker.checkpoint_hash;
            policy_hash = policy_hash_of policy;
          } in
          refuse_if (ltb 65536 (encoded_size action)) action_too_large
          >> ok (record { action = action; action_hash = digest action })

  -- `_validate_proposal`
  unfoldable pub validate_proposal :
      AgentToolPolicy → Marker → AgentActionProposal → Result GatewayError (Unit {0})
  unfolding policy_hash_of canonical_arguments
  validate_proposal policy marker p =
      refuse_if (not (str_eq p.action.policy_hash (policy_hash_of policy))) wrong_policy
      >> refuse_if (not (p.action.generation == marker.generation)) stale_generation
      >> refuse_if (not (str_eq p.action.checkpoint_hash marker.checkpoint_hash)) stale_checkpoint
      >> checked_arguments p.action.arguments
      >>= λ arguments.
          let action : Action = record p.action { arguments = arguments } in
          refuse_if (ltb 65536 (encoded_size action)) action_too_large
          >> refuse_if (not (str_eq (digest action) p.action_hash)) wrong_hash

  unfoldable pub authorize :
      AgentToolPolicy
      → Marker
      → Option Authorizer
      → AgentActionProposal
      → Result GatewayError AgentActionDecision
  unfolding validate_proposal local_decision normalize_external_decision
  authorize policy marker external p =
      validate_proposal policy marker p
      >> ok (
          let local = local_decision policy p.action in
          if allowed local then external_decision external p local else local)
