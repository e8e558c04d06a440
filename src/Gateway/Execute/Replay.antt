-- ===== src/Gateway/Execute/Replay.antt =====
-- The answer to a repeated request.
use zdx_paralell_pyxel_vm.Base.{
  ℕ, ◌≡◌, ◌≢◌, ◌∙◌, ap, inl, inr, String, Option, some, ◌∷◌, eq_iff, arith, Bool-cases,
  Option-cases,
}
use zdx_paralell_pyxel_vm.Base.Dict.{Dict}
use zdx_paralell_pyxel_vm.Base.Results.{Result, ok, Result-cases}
use zdx_paralell_pyxel_vm.Compiler.Text.{Text}
use zdx_paralell_pyxel_vm.Gateway.Policy.{ToolCapabilityRule, AgentToolPolicy, rule_for, handler_of}
use zdx_paralell_pyxel_vm.Gateway.Proposal.{
  Action, AgentActionProposal, AgentActionDecision, Authorizer, GatewayError, Marker, ToolRequest,
  allowed, propose, authorize,
}
use zdx_paralell_pyxel_vm.Gateway.Same.{same_proposal_refl}
use zdx_paralell_pyxel_vm.Gateway.Store.{
  Stored, tool_record, ToolMemory, Handler, Raised, intent_key, result_key, pending_intent,
  finished, replayed, persisted_proposal_matches,
}
use zdx_paralell_pyxel_vm.Gateway.Execute.{
  World, after_barrier, barrier, record_failure, record_result, call, intend, run_allowed, execute,
}

replayed-finished :
    (p : AgentActionProposal) (d : AgentActionDecision) (result : Text)
    → replayed (tool_record (finished p d result)) p ≡ ok result
unfolding replayed persisted_proposal_matches
replayed-finished p d result =
    rw (same_proposal_refl p) (ground (arith, eq_iff p.action_hash p.action_hash))

module _ {M : Type 0} (ops : ToolMemory M) (checkpoint : M → Marker → Option Marker) where
  -- The memory has a result of the proposal, which answers it with `x`.
  abbrev pub Answers : AgentActionProposal → Text → M → Type 0
  Answers p x m =
      (v : Stored) × (ops.read "tool_results" (result_key p.action_hash) m ≡ some v)
      × (replayed v p ≡ ok x)

  after_barrier-ok :
      (r : ToolCapabilityRule) (w : World M) (e : GatewayError) (a : Result GatewayError Text)
      (x : Text)
      → (after_barrier ops checkpoint r w e a).1 ≡ ok x
      → (a ≡ ok x) × ((after_barrier ops checkpoint r w e a).0.memory ≡ w.memory)
  after_barrier-ok r w e a x h = (ground (arith, h), ground (arith, h))

  module _ (p : AgentActionProposal) (d : AgentActionDecision) (x : Text) where
    record_failure-ok :
        (r : ToolCapabilityRule) (e : Raised) (w : World M)
        → (record_failure ops checkpoint r p d e w).1 ≢ ok x
    unfolding record_failure
    record_failure-ok r e w h = absurd (ground (arith, h))

    record_result-Answers :
        (r : ToolCapabilityRule) (result : Text) (w : World M)
        → (record_result ops checkpoint r p d result w).1 ≡ ok x
        → Answers p x (record_result ops checkpoint r p d result w).0.memory
    unfolding record_result
    record_result-Answers r result w h =
        let v = tool_record (finished p d result) in
        let rkey = result_key p.action_hash in
        let ikey = intent_key p.action_hash in
        elim (Option-cases (ops.write "tool_results" rkey v w.memory)) [
          | inl raised ↦ cc (rw (raised, record_result) at h)
          | inr (m, written) ↦ elim (Option-cases (ops.remove "system" ikey m)) [
            | inl failed ↦ cc (rw (written, failed, record_result) at h)
            | inr ((was, after), removed) ↦ elim (Bool-cases was) [
              | inr absent ↦ cc (rw (written, removed, absent, record_result) at h)
              | inl gone ↦
                  let (same, kept) =
                    after_barrier-ok r (record w { memory = after }) _ _ x
                      (rw (written, removed, gone, record_result) at h) in
                  (
                    v,
                    rw (written, removed, gone, record_result, kept)
                        (ops.read_other-remove "system" ikey "tool_results" rkey m after was removed
                            (ground arith)
                          ∙ ops.read-write "tool_results" rkey v w.memory m written),
                    replayed-finished p d result ∙ same,
                  )
            ]
          ]
        ]

    call-Answers :
        (r : ToolCapabilityRule) (handler : Handler) (w : World M)
        → (call ops checkpoint r handler p d w).1 ≡ ok x
        → Answers p x (call ops checkpoint r handler p d w).0.memory
    unfolding call
    call-Answers r handler w h =
        let called : World M = record w { calls = p.action_hash ∷ w.calls } in
        elim (Result-cases (handler p)) [
          | inl (e, raised) ↦ absurd (record_failure-ok r e called (rw (raised, call) at h))
          | inr (result, returned) ↦
              rw (returned, call) (record_result-Answers r result called (rw (returned, call) at h))
        ]

    intend-Answers :
        (r : ToolCapabilityRule) (handler : Handler) (w : World M)
        → (intend ops checkpoint r handler p d w).1 ≡ ok x
        → Answers p x (intend ops checkpoint r handler p d w).0.memory
    unfolding intend
    intend-Answers r handler w h =
        elim (Option-cases (
          ops.write "system" (intent_key p.action_hash) (tool_record (pending_intent p d))
            w.memory)) [
              | inl raised ↦ cc (rw (raised, intend) at h)
              | inr (m, written) ↦
                  elim (Option-cases (barrier ops checkpoint r (record w { memory = m }))) [
                    | inl failed ↦ cc (rw (written, failed, intend) at h)
                    | inr (v, passed) ↦
                        rw (written, passed, intend)
                          (call-Answers r handler v (rw (written, passed, intend) at h))
                  ]
            ]

    run_allowed-Answers :
        (policy : AgentToolPolicy) (handlers : Dict Handler) (w : World M)
        → (run_allowed ops checkpoint policy handlers p d w).1 ≡ ok x
        → Answers p x (run_allowed ops checkpoint policy handlers p d w).0.memory
    unfolding run_allowed
    run_allowed-Answers policy handlers w h =
        elim (Option-cases (ops.read "tool_results" (result_key p.action_hash) w.memory)) [
          | inr (v, result) ↦ rw (result, run_allowed) (v, result, rw (result, run_allowed) at h)
          | inl no_result ↦
              elim (Option-cases (ops.read "system" (intent_key p.action_hash) w.memory)) [
                | inr (v, intent) ↦ cc (rw (no_result, intent, run_allowed) at h)
                | inl no_intent ↦ elim (Result-cases (handler_of p.action.tool handlers)) [
                  | inl (e, missing) ↦ cc (rw (no_result, no_intent, missing, run_allowed) at h)
                  | inr (handler, there) ↦ elim (Option-cases (rule_for policy p.action.tool)) [
                    | inl no_rule ↦ cc (rw (no_result, no_intent, there, no_rule, run_allowed) at h)
                    | inr (r, rule) ↦
                        rw (no_result, no_intent, there, rule, run_allowed)
                          (intend-Answers r handler w
                            (rw (no_result, no_intent, there, rule, run_allowed) at h))
                  ]
                ]
              ]
        ]

    run_allowed-again :
        (policy : AgentToolPolicy) (handlers : Dict Handler) (w : World M)
        → Answers p x w.memory
        → run_allowed ops checkpoint policy handlers p d w ≡ (w, ok x)
    unfolding run_allowed
    run_allowed-again policy handlers w (v, there, answer) =
        rw (there, run_allowed) (ap (λ a. (w, a)) answer)

  module _ (digest : Action → String) (encoded_size : Action → ℕ)
      (policy_digest : AgentToolPolicy → String) (policy : AgentToolPolicy)
      (external : Option Authorizer) (q : ToolRequest) (x : Text) where
    abbrev pub executed : Dict Handler → World M → World M × Result GatewayError Text
    executed handlers w =
        execute ops checkpoint digest encoded_size policy_digest policy external handlers q w

    -- A request that `execute` answered with `x` is answered with `x` again, by whatever handlers are then
    -- registered, in any later world with the same VM marker and the same memory; no handler is called and
    -- the world stays as it is.
    pub execute-again :
        (handlers others : Dict Handler) (w later : World M)
        → (executed handlers w).1 ≡ ok x
        → later.marker ≡ w.marker
        → later.memory ≡ (executed handlers w).0.memory
        → executed others later ≡ (later, ok x)
    unfolding execute
    execute-again handlers others w later h marker memory =
        elim (Result-cases (propose digest encoded_size policy_digest policy w.marker q)) [
          | inl (e, refused) ↦ cc (rw (refused, execute) at h)
          | inr (p, proposed) ↦
              elim (Result-cases
                (authorize digest encoded_size policy_digest policy w.marker external p)) [
                  | inl (e, invalid) ↦ cc (rw (proposed, invalid, execute) at h)
                  | inr (d, answer) ↦ elim (Bool-cases (allowed d)) [
                    | inr not_granted ↦ cc (rw (proposed, answer, not_granted, execute) at h)
                    | inl granted ↦
                        let answers : Answers p x later.memory =
                          rw (rw (proposed, answer, granted, execute) at memory) (
                            run_allowed-Answers p d x policy handlers w
                              (rw (proposed, answer, granted, execute) at h)) in
                        let proposes : propose digest encoded_size policy_digest policy later.marker
                              q
                            ≡ ok p =
                          rw marker proposed in
                        let decides : authorize digest encoded_size policy_digest policy
                              later.marker external p
                            ≡ ok d =
                          rw marker answer in
                        rw (proposes, decides, granted, execute)
                          (run_allowed-again p d x policy others later answers)
                  ]
                ]
        ]
