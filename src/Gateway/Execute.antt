-- ===== src/Gateway/Execute.antt =====
-- AgentToolGateway: the constructor and `execute`, on the agent memory as an interface. `calls`
-- remembers the action hash of every call of a handler.
pub mod Once
pub mod Calls
pub mod Granted
pub mod Replay
use Prim.Native.String.{◌++◌ as text_append}
use zdx_paralell_pyxel_vm.Base.{
  ℕ, ◌≡◌, String, Bool, true, false, not, ◌&&◌, ◌||◌, Option, none, some, List, [], ◌∷◌, str_eq,
  if◌then◌else◌,
}
use zdx_paralell_pyxel_vm.Base.Dict.{Dict, get}
use zdx_paralell_pyxel_vm.Base.Results.{Result, ok, err}
use zdx_paralell_pyxel_vm.Compiler.Text.{Text}
use zdx_paralell_pyxel_vm.Memory.Manager.{Policy, reject, fifo}
use zdx_paralell_pyxel_vm.Gateway.Policy.{
  ToolCapabilityRule, AgentToolPolicy, PolicyError, rule_for, handler_of, sorted_policy,
}
use zdx_paralell_pyxel_vm.Gateway.Proposal.{
  Action, AgentActionProposal, AgentActionDecision, Authorizer, GatewayError, refused, tool_missing,
  memory_failed, checkpoint_failed, ambiguous, handler_raised, wrong_policy, Marker, ToolRequest,
  allowed, first_chars, propose, authorize, policy_hash_of,
}
use zdx_paralell_pyxel_vm.Gateway.Same.{same_proposal, same_policy}
use zdx_paralell_pyxel_vm.Gateway.Store.{
  Raised, ToolRecord, Stored, ToolMemory, intent_key, result_key, Handler, pending_intent,
  failed_intent, finished, persisted_proposal_matches, hash_matches, stored_result, replayed,
  other_value, tool_record, policy_record,
}

-- The constructor's demand on the memory's policies.
abbrev pub rejects : Option Policy → Bool
rejects none = false
rejects (some p) = elim p.eviction [ reject ↦ true | fifo ↦ false ]

pub record World (M : Type 0) : Type 0 where
  pub memory : M
  pub marker : Marker
  pub calls : List String

module _ {M : Type 0} (ops : ToolMemory M) (checkpoint : M → Marker → Option Marker) where
  -- `session.checkpoint(barrier=True)` under a rule that asks for it. It writes the state out and returns
  -- the marker.
  abbrev pub barrier : ToolCapabilityRule → World M → Option (World M)
  barrier r w =
      if r.require_barrier
      then elim (checkpoint w.memory w.marker) [
        | none ↦ none
        | some k ↦ some (record w { marker = k })
      ]
      else some w

  -- A barrier that raises ends with one error, else the other is the answer.
  abbrev pub after_barrier :
      ToolCapabilityRule
      → World M
      → GatewayError
      → Result GatewayError Text
      → World M × Result GatewayError Text
  after_barrier r w e answer = elim (barrier r w) [ none ↦ (w, err e) | some v ↦ (v, answer) ]

  -- The handler raised.
  unfoldable pub record_failure :
      ToolCapabilityRule
      → AgentActionProposal
      → AgentActionDecision
      → Raised
      → World M
      → World M × Result GatewayError Text
  unfolding first_chars
  record_failure r p d e w =
      elim (ops.write "system" (intent_key p.action_hash)
        (tool_record (failed_intent e (pending_intent p d))) w.memory) [
          | none ↦ (w, err ambiguous)
          | some m ↦ after_barrier r (record w { memory = m }) ambiguous (err handler_raised)
        ]

  -- The handler returned.
  unfoldable pub record_result :
      ToolCapabilityRule
      → AgentActionProposal
      → AgentActionDecision
      → Text
      → World M
      → World M × Result GatewayError Text
  record_result r p d result w =
      elim (ops.write "tool_results" (result_key p.action_hash) (tool_record (finished p d result))
        w.memory) [
          | none ↦ (w, err ambiguous)
          | some m ↦ elim (ops.remove "system" (intent_key p.action_hash) m) [
            | none ↦ (record w { memory = m }, err ambiguous)
            | some removed ↦
                if removed.0
                then after_barrier r (record w { memory = removed.1 }) ambiguous (ok result)
                else (record w { memory = removed.1 }, err ambiguous)
          ]
        ]

  unfoldable pub call :
      ToolCapabilityRule
      → Handler
      → AgentActionProposal
      → AgentActionDecision
      → World M
      → World M × Result GatewayError Text
  unfolding record_failure record_result
  call r handler p d w =
      let called : World M = record w { calls = p.action_hash ∷ w.calls } in
      elim (handler p) [
        | err e ↦ record_failure r p d e called
        | ok result ↦ record_result r p d result called
      ]

  -- The part of `execute` from the intent on.
  unfoldable pub intend :
      ToolCapabilityRule
      → Handler
      → AgentActionProposal
      → AgentActionDecision
      → World M
      → World M × Result GatewayError Text
  unfolding call
  intend r handler p d w =
      elim (ops.write "system" (intent_key p.action_hash) (tool_record (pending_intent p d))
        w.memory) [
          | none ↦ (w, err memory_failed)
          | some m ↦
              let intended : World M = record w { memory = m } in
              elim (barrier r intended) [
                | none ↦ (intended, err checkpoint_failed)
                | some v ↦ call r handler p d v
              ]
        ]

  -- An allowed proposal is always one with a rule.
  unfoldable pub run_allowed :
      AgentToolPolicy
      → Dict Handler
      → AgentActionProposal
      → AgentActionDecision
      → World M
      → World M × Result GatewayError Text
  unfolding intend rule_for handler_of replayed
  run_allowed policy handlers p d w =
      elim (ops.read "tool_results" (result_key p.action_hash) w.memory) [
        | some v ↦ (w, replayed v p)
        | none ↦ elim (ops.read "system" (intent_key p.action_hash) w.memory) [
          | some v ↦ (w, err ambiguous)
          | none ↦ elim (handler_of p.action.tool handlers) [
            | err e ↦ (w, err tool_missing)
            | ok handler ↦ elim (rule_for policy p.action.tool) [
              | none ↦ (w, err refused)
              | some r ↦ intend r handler p d w
            ]
          ]
        ]
      ]

  module _ (digest : Action → String) (encoded_size : Action → ℕ)
      (policy_digest : AgentToolPolicy → String) where
    -- The constructor, on the policies of the memory's namespaces.
    unfoldable pub opened : Dict Policy → AgentToolPolicy → M → Result GatewayError M
    unfolding policy_hash_of same_policy sorted_policy
    opened policies policy m =
        if not (rejects (get "system" policies) && rejects (get "tool_results" policies))
        then err memory_failed
        else elim (ops.read "system" "tool-policy" m) [
          | none ↦
              elim (ops.write "system" "tool-policy"
                (policy_record (sorted_policy policy)
                  (policy_hash_of digest encoded_size policy_digest policy))
                m) [ none ↦ err memory_failed | some after ↦ ok after ]
          | some other_value ↦ err wrong_policy
          | some (tool_record r) ↦ err wrong_policy
          | some (policy_record stored hash) ↦
              if same_policy stored (sorted_policy policy)
                && str_eq hash (policy_hash_of digest encoded_size policy_digest policy)
              then ok m
              else err wrong_policy
        ]

    unfoldable pub execute :
        AgentToolPolicy
        → Option Authorizer
        → Dict Handler
        → ToolRequest
        → World M
        → World M × Result GatewayError Text
    unfolding propose authorize run_allowed
    execute policy external handlers q w =
        elim (propose digest encoded_size policy_digest policy w.marker q) [
          | err e ↦ (w, err e)
          | ok p ↦ elim (authorize digest encoded_size policy_digest policy w.marker external p) [
            | err e ↦ (w, err e)
            | ok d ↦ if allowed d then run_allowed policy handlers p d w else (w, err refused)
          ]
        ]
