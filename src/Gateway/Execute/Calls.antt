-- ===== src/Gateway/Execute/Calls.antt =====
-- The calls of a handler: `execute` under a sequence of requests, between which the VM runs.
use zdx_paralell_pyxel_vm.Base.{
  ℕ, ◌≡◌, refl, String, true, false, Option, some, List, [], ◌∷◌, arith, Bool-cases, Option-cases,
  inl, inr,
}
use zdx_paralell_pyxel_vm.Base.Dict.{Dict}
use zdx_paralell_pyxel_vm.Base.Results.{Result, Result-cases}
use zdx_paralell_pyxel_vm.Compiler.Text.{Text}
use zdx_paralell_pyxel_vm.Gateway.Policy.{
  ToolCapabilityRule, AgentToolPolicy, is_among, all_different, rule_for, handler_of,
}
use zdx_paralell_pyxel_vm.Gateway.Proposal.{
  Action, AgentActionProposal, AgentActionDecision, Authorizer, GatewayError, Marker, ToolRequest,
  allowed, propose, authorize,
}
use zdx_paralell_pyxel_vm.Gateway.Store.{
  tool_record, ToolMemory, Handler, Raised, intent_key, result_key, pending_intent, finished,
  failed_intent,
}
use zdx_paralell_pyxel_vm.Gateway.Execute.{
  World, after_barrier, barrier, record_failure, record_result, call, intend, run_allowed, execute,
}
use zdx_paralell_pyxel_vm.Gateway.Execute.Once.{
  present, recorded, IsOnceEach, write_intent-Grows, write_result-Grows, remove_intent-Grows,
  Grows-IsOnceEach, called-IsOnceEach,
}

-- A request with what the authorizer says to it, or a new marker of the VM.
pub data Event : Type 0 where
  asked : Option Authorizer → ToolRequest → Event
  moved : Marker → Event

module _ {M : Type 0} (ops : ToolMemory M) where
  module _ (checkpoint : M → Marker → Option Marker) where
    barrier_lem :
        (r : ToolCapabilityRule) (w v : World M)
        → barrier ops checkpoint r w ≡ some v
        → (v.memory ≡ w.memory) × (v.calls ≡ w.calls)
    barrier_lem r w v h = (ground (arith, h), ground (arith, h))

    after_barrier-IsOnceEach :
        (r : ToolCapabilityRule) (w : World M) (e : GatewayError) (a : Result GatewayError Text)
        → IsOnceEach ops w
        → IsOnceEach ops (after_barrier ops checkpoint r w e a).0
    after_barrier-IsOnceEach r w e a i = elim (Option-cases (barrier ops checkpoint r w)) [
      | inl raised ↦ rw (raised, after_barrier) i
      | inr (v, passed) ↦
          let (memory, calls) = barrier_lem r w v passed in
          rw (passed, after_barrier) (Grows-IsOnceEach ops w v i calls (λ h known. rw memory known))
    ]

    module _ (r : ToolCapabilityRule) (p : AgentActionProposal) (d : AgentActionDecision) where
      record_failure-IsOnceEach :
          (e : Raised) (w : World M)
          → IsOnceEach ops w
          → IsOnceEach ops (record_failure ops checkpoint r p d e w).0
      unfolding record_failure
      record_failure-IsOnceEach e w i =
          let v = tool_record (failed_intent e (pending_intent p d)) in
          elim (Option-cases (ops.write "system" (intent_key p.action_hash) v w.memory)) [
            | inl raised ↦ rw (raised, record_failure) i
            | inr (m, written) ↦
                rw (written, record_failure)
                  (after_barrier-IsOnceEach r (record w { memory = m }) _ _
                    (Grows-IsOnceEach ops w (record w { memory = m }) i refl
                      (write_intent-Grows ops p.action_hash v w.memory m written).1))
          ]

      record_result-IsOnceEach :
          (result : Text) (w : World M)
          → IsOnceEach ops w
          → IsOnceEach ops (record_result ops checkpoint r p d result w).0
      unfolding record_result
      record_result-IsOnceEach result w i =
          let v = tool_record (finished p d result) in
          elim (Option-cases (ops.write "tool_results" (result_key p.action_hash) v w.memory)) [
            | inl raised ↦ rw (raised, record_result) i
            | inr (m, written) ↦
                let kept : IsOnceEach ops (record w { memory = m }) =
                  Grows-IsOnceEach ops w (record w { memory = m }) i refl
                    (write_result-Grows ops p.action_hash v w.memory m written) in
                let there : present (ops.read "tool_results" (result_key p.action_hash) m) ≡ true =
                  ground (
                    arith,
                    ops.read-write "tool_results" (result_key p.action_hash) v w.memory m written,
                  ) in
                elim (Option-cases (ops.remove "system" (intent_key p.action_hash) m)) [
                  | inl failed ↦ rw (written, failed, record_result) kept
                  | inr ((was, after), removed) ↦
                      let left : IsOnceEach ops (record w { memory = after }) =
                        Grows-IsOnceEach ops (record w { memory = m }) (record w { memory = after })
                          kept refl
                          (remove_intent-Grows ops p.action_hash was m after removed there) in
                      elim (Bool-cases was) [
                        | inl gone ↦
                            rw (written, removed, gone, record_result)
                              (after_barrier-IsOnceEach r (record w { memory = after }) _ _ left)
                        | inr absent ↦ rw (written, removed, absent, record_result) left
                      ]
                ]
          ]

      call-IsOnceEach :
          (handler : Handler) (w : World M)
          → IsOnceEach ops w
          → recorded ops p.action_hash w.memory ≡ true
          → is_among p.action_hash w.calls ≡ false
          → IsOnceEach ops (call ops checkpoint r handler p d w).0
      unfolding call
      call-IsOnceEach handler w i there first =
          let called : World M = record w { calls = p.action_hash ∷ w.calls } in
          let spent : IsOnceEach ops called = called-IsOnceEach ops p.action_hash w i there first in
          elim (Result-cases (handler p)) [
            | inl (e, raised) ↦ rw (raised, call) (record_failure-IsOnceEach e called spent)
            | inr (result, returned) ↦
                rw (returned, call) (record_result-IsOnceEach result called spent)
          ]

      intend-IsOnceEach :
          (handler : Handler) (w : World M)
          → IsOnceEach ops w
          → recorded ops p.action_hash w.memory ≡ false
          → IsOnceEach ops (intend ops checkpoint r handler p d w).0
      unfolding intend
      intend-IsOnceEach handler w i unknown =
          let v = tool_record (pending_intent p d) in
          let first : is_among p.action_hash w.calls ≡ false =
            ground (arith, i.remembered p.action_hash, unknown) in
          elim (Option-cases (ops.write "system" (intent_key p.action_hash) v w.memory)) [
            | inl raised ↦ rw (raised, intend) i
            | inr (m, written) ↦
                let (there, grows) = write_intent-Grows ops p.action_hash v w.memory m written in
                let kept : IsOnceEach ops (record w { memory = m }) =
                  Grows-IsOnceEach ops w (record w { memory = m }) i refl grows in
                elim (Option-cases (barrier ops checkpoint r (record w { memory = m }))) [
                  | inl failed ↦ rw (written, failed, intend) kept
                  | inr (u, passed) ↦
                      let (memory, calls) = barrier_lem r (record w { memory = m }) u passed in
                      rw (written, passed, intend)
                        (call-IsOnceEach handler u
                          (Grows-IsOnceEach ops (record w { memory = m }) u kept calls
                            (λ h known. rw memory known))
                          (rw memory there) (rw calls first))
                ]
          ]

    run_allowed-IsOnceEach :
        (policy : AgentToolPolicy) (handlers : Dict Handler) (p : AgentActionProposal)
        (d : AgentActionDecision) (w : World M)
        → IsOnceEach ops w
        → IsOnceEach ops (run_allowed ops checkpoint policy handlers p d w).0
    unfolding run_allowed
    run_allowed-IsOnceEach policy handlers p d w i =
        elim (Option-cases (ops.read "tool_results" (result_key p.action_hash) w.memory)) [
          | inr (v, result) ↦ rw (result, run_allowed) i
          | inl no_result ↦
              elim (Option-cases (ops.read "system" (intent_key p.action_hash) w.memory)) [
                | inr (v, intent) ↦ rw (no_result, intent, run_allowed) i
                | inl no_intent ↦ elim (Result-cases (handler_of p.action.tool handlers)) [
                  | inl (e, missing) ↦ rw (no_result, no_intent, missing, run_allowed) i
                  | inr (handler, there) ↦ elim (Option-cases (rule_for policy p.action.tool)) [
                    | inl no_rule ↦ rw (no_result, no_intent, there, no_rule, run_allowed) i
                    | inr (r, rule) ↦
                        rw (no_result, no_intent, there, rule, run_allowed)
                          (intend-IsOnceEach r p d handler w i
                            (ground (arith, no_result, no_intent)))
                  ]
                ]
              ]
        ]

    module _ (digest : Action → String) (encoded_size : Action → ℕ)
        (policy_digest : AgentToolPolicy → String) (policy : AgentToolPolicy)
        (handlers : Dict Handler) where
      execute-IsOnceEach :
          (external : Option Authorizer) (q : ToolRequest) (w : World M)
          → IsOnceEach ops w
          → IsOnceEach ops
              (execute ops checkpoint digest encoded_size policy_digest policy external handlers q
                w).0
      unfolding execute
      execute-IsOnceEach external q w i =
          elim (Result-cases (propose digest encoded_size policy_digest policy w.marker q)) [
            | inl (e, refused) ↦ rw (refused, execute) i
            | inr (p, proposed) ↦
                elim (Result-cases
                  (authorize digest encoded_size policy_digest policy w.marker external p)) [
                    | inl (e, invalid) ↦ rw (proposed, invalid, execute) i
                    | inr (d, decided) ↦ elim (Bool-cases (allowed d)) [
                      | inl granted ↦
                          rw (proposed, decided, granted, execute)
                            (run_allowed-IsOnceEach policy handlers p d w i)
                      | inr not_granted ↦ rw (proposed, decided, not_granted, execute) i
                    ]
                  ]
          ]

      unfoldable pub served : List Event → World M → World M
      unfolding execute
      served [] w = w
      served (asked external q ∷ es) w =
          served es
            (execute ops checkpoint digest encoded_size policy_digest policy external handlers q
              w).0
      served (moved k ∷ es) w = served es (record w { marker = k })

      -- From a world without calls, any sequence of requests and VM steps, whatever raises on the way,
      -- calls a handler at most once for an action hash, and every one that it called has a stored
      -- result or intent.
      pub served-IsOnceEach :
          (es : List Event) (w : World M) → w.calls ≡ [] → IsOnceEach ops (served es w)
      unfolding served all_different
      served-IsOnceEach es w none_yet = kept es w (record {
        once = rw (none_yet, all_different) refl;
        remembered = λ h among. absurd (ground (arith, none_yet, among));
      })
        where
          kept : (es : List Event) (w : World M) → IsOnceEach ops w → IsOnceEach ops (served es w)
          kept [] w i = i
          kept (asked external q ∷ es) w i = kept es _ (execute-IsOnceEach external q w i)
          kept (moved k ∷ es) w i =
              kept es (record w { marker = k })
                (record { once = i.once; remembered = i.remembered })
