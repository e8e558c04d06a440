-- ===== src/Gateway/Execute/Granted.antt =====
-- What a call of a handler needs: the local rule, and the consent of the external authorizer.
use zdx_paralell_pyxel_vm.Base.{
  ℕ, ◌≡◌, refl, ap, ◌∙◌, ◌⊎◌, inl, inr, String, Option, ◌∷◌, arith, Bool-cases, Option-cases,
}
use zdx_paralell_pyxel_vm.Base.Dict.{Dict}
use zdx_paralell_pyxel_vm.Base.Results.{Result, ok, Result-cases}
use zdx_paralell_pyxel_vm.Compiler.Text.{Text}
use zdx_paralell_pyxel_vm.Gateway.Policy.{ToolCapabilityRule, AgentToolPolicy, rule_for, handler_of}
use zdx_paralell_pyxel_vm.Gateway.Proposal.{
  Action, AgentActionProposal, AgentActionDecision, Authorizer, GatewayError, Marker, ToolRequest,
  allowed, propose, authorize,
}
use zdx_paralell_pyxel_vm.Gateway.Store.{
  ToolMemory, Handler, Raised, intent_key, result_key, pending_intent, tool_record,
}
use zdx_paralell_pyxel_vm.Gateway.Execute.{
  World, after_barrier, barrier, record_failure, record_result, call, intend, run_allowed, execute,
}
use zdx_paralell_pyxel_vm.Gateway.Proposal.Allowed.{IsGranted, Consents, authorize-allows}

module _ {M : Type 0} (ops : ToolMemory M) (checkpoint : M → Marker → Option Marker) where
  after_barrier-calls :
      (r : ToolCapabilityRule) (w : World M) (e : GatewayError) (a : Result GatewayError Text)
      → (after_barrier ops checkpoint r w e a).0.calls ≡ w.calls
  after_barrier-calls r w e a = ground arith

  record_failure-calls :
      (r : ToolCapabilityRule) (p : AgentActionProposal) (d : AgentActionDecision) (e : Raised)
      (w : World M)
      → (record_failure ops checkpoint r p d e w).0.calls ≡ w.calls
  unfolding record_failure
  record_failure-calls r p d e w = ground arith

  record_result-calls :
      (r : ToolCapabilityRule) (p : AgentActionProposal) (d : AgentActionDecision) (result : Text)
      (w : World M)
      → (record_result ops checkpoint r p d result w).0.calls ≡ w.calls
  unfolding record_result
  record_result-calls r p d result w = ground arith

  module _ (policy : AgentToolPolicy) (p : AgentActionProposal) where
    call-calls :
        (r : ToolCapabilityRule) (handler : Handler) (d : AgentActionDecision) (w : World M)
        → (call ops checkpoint r handler p d w).0.calls ≡ p.action_hash ∷ w.calls
    unfolding call
    call-calls r handler d w = elim (Result-cases (handler p)) [
      | inl (e, raised) ↦
          rw (raised, call)
            (record_failure-calls r p d e (record w { calls = p.action_hash ∷ w.calls }))
      | inr (result, returned) ↦
          rw (returned, call)
            (record_result-calls r p d result (record w { calls = p.action_hash ∷ w.calls }))
    ]

    intend-calls :
        (r : ToolCapabilityRule) (handler : Handler) (d : AgentActionDecision) (w : World M)
        → ((intend ops checkpoint r handler p d w).0.calls ≡ w.calls)
          ⊎ ((intend ops checkpoint r handler p d w).0.calls ≡ p.action_hash ∷ w.calls)
    unfolding intend
    intend-calls r handler d w =
        elim (Option-cases (
          ops.write "system" (intent_key p.action_hash) (tool_record (pending_intent p d))
            w.memory)) [
              | inl raised ↦ inl (rw (raised, intend) refl)
              | inr (m, written) ↦
                  elim (Option-cases (barrier ops checkpoint r (record w { memory = m }))) [
                    | inl failed ↦ inl (rw (written, failed, intend) refl)
                    | inr (v, passed) ↦
                        let same : v.calls ≡ w.calls = ground (arith, passed) in
                        inr (
                          rw (written, passed, intend)
                            (call-calls r handler d v ∙ ap (λ l. p.action_hash ∷ l) same))
                  ]
            ]

    run_allowed-calls :
        (handlers : Dict Handler) (d : AgentActionDecision) (w : World M)
        → ((run_allowed ops checkpoint policy handlers p d w).0.calls ≡ w.calls)
          ⊎ ((run_allowed ops checkpoint policy handlers p d w).0.calls ≡ p.action_hash ∷ w.calls)
    unfolding run_allowed
    run_allowed-calls handlers d w =
        elim (Option-cases (ops.read "tool_results" (result_key p.action_hash) w.memory)) [
          | inr (v, result) ↦ inl (rw (result, run_allowed) refl)
          | inl no_result ↦
              elim (Option-cases (ops.read "system" (intent_key p.action_hash) w.memory)) [
                | inr (v, intent) ↦ inl (rw (no_result, intent, run_allowed) refl)
                | inl no_intent ↦ elim (Result-cases (handler_of p.action.tool handlers)) [
                  | inl (e, missing) ↦ inl (rw (no_result, no_intent, missing, run_allowed) refl)
                  | inr (handler, there) ↦ elim (Option-cases (rule_for policy p.action.tool)) [
                    | inl no_rule ↦
                        inl (rw (no_result, no_intent, there, no_rule, run_allowed) refl)
                    | inr (r, rule) ↦
                        rw (no_result, no_intent, there, rule, run_allowed)
                          (intend-calls r handler d w)
                  ]
                ]
              ]
        ]

  module _ (digest : Action → String) (encoded_size : Action → ℕ)
      (policy_digest : AgentToolPolicy → String) (policy : AgentToolPolicy) where
    -- A call of a handler is one for the action hash of the proposal, and is made only where the local
    -- rule of the tool names the operation and covers the resource, and where the external authorizer, if
    -- there is one, allowed this action hash under this policy hash: else `execute` calls nothing.
    pub execute-IsGranted :
        (external : Option Authorizer) (handlers : Dict Handler) (q : ToolRequest) (w : World M)
        → ((execute ops checkpoint digest encoded_size policy_digest policy external handlers q
              w).0.calls
            ≡ w.calls)
          ⊎ ((p : AgentActionProposal) × (propose digest encoded_size policy_digest policy w.marker
                  q
                ≡ ok p)
              × ((execute ops checkpoint digest encoded_size policy_digest policy external handlers
                    q w).0.calls
                  ≡ p.action_hash ∷ w.calls)
              × IsGranted policy p.action
              × Consents external p)
    unfolding execute
    execute-IsGranted external handlers q w =
        elim (Result-cases (propose digest encoded_size policy_digest policy w.marker q)) [
          | inl (e, refused) ↦ inl (rw (refused, execute) refl)
          | inr (p, proposed) ↦
              elim (Result-cases
                (authorize digest encoded_size policy_digest policy w.marker external p)) [
                  | inl (e, invalid) ↦ inl (rw (proposed, invalid, execute) refl)
                  | inr (d, answer) ↦ elim (Bool-cases (allowed d)) [
                    | inr not_granted ↦ inl (rw (proposed, answer, not_granted, execute) refl)
                    | inl granted ↦ elim (run_allowed-calls policy p handlers d w) [
                      | inl none_called ↦ inl (rw (proposed, answer, granted, execute) none_called)
                      | inr one ↦
                          let (local, consent) =
                            authorize-allows digest encoded_size policy_digest policy w.marker
                              external p d answer granted in
                          inr (
                            p,
                            proposed,
                            rw (proposed, answer, granted, execute) one,
                            local,
                            consent,
                          )
                    ]
                  ]
                ]
        ]
