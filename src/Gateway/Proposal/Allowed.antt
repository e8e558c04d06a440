-- ===== src/Gateway/Proposal/Allowed.antt =====
-- What an allowed decision says: the local rule, and the consent of the external authorizer.
use zdx_paralell_pyxel_vm.Base.{
  ℕ, ◌≡◌, refl, ap, ◌∙◌, inl, inr, String, true, false, Option, none, some, List, [], ◌∷◌, eq_iff,
  if◌then◌else◌, arith, Bool-cases, Option-cases,
}
use zdx_paralell_pyxel_vm.Base.Results.{Result, ok, bind_ok}
use zdx_paralell_pyxel_vm.Compiler.Text.{Text}
use zdx_paralell_pyxel_vm.Gateway.Policy.{ToolCapabilityRule, AgentToolPolicy, is_among, rule_for}
use zdx_paralell_pyxel_vm.Gateway.Proposal.{
  Action, AgentActionProposal, AgentActionDecision, Authorizer, GatewayError, Marker, Response,
  Decision, decision_object, other_response, allowed, authorize, local_decision, external_decision,
  allow, deny, approval_required, normalize_external_decision, within_prefixes, validate_proposal,
  named_decision, says, first_chars, reason_or_default,
}

-- The rule of the tool names the operation and covers the resource.
abbrev pub IsGranted : AgentToolPolicy → Action → Type 0
IsGranted policy a =
    (r : ToolCapabilityRule) × (rule_for policy a.tool ≡ some r)
    × (is_among a.operation r.operations ≡ true)
    × (within_prefixes r a.resource ≡ true)

-- The authorizer, where there is one, allows this very action under this very policy.
abbrev pub Consents : Option Authorizer → AgentActionProposal → Type 0
Consents none p = Unit
Consents (some ask) p =
    (reason : Option Text) × (ask p
      ≡ some
          (decision_object (some "allow") reason (some p.action_hash) (some p.action.policy_hash)))

denied_either :
    (prefixes : List String) (a b : Text)
    → allowed (elim prefixes [
      | [] ↦ record { decision = deny; reason = a }
      | p ∷ ps ↦ record { decision = deny; reason = b }
    ])
      ≡ false
denied_either [] a b = refl
denied_either (p ∷ ps) a b = refl

local_decision-IsGranted :
    (policy : AgentToolPolicy) (a : Action)
    → allowed (local_decision policy a) ≡ true
    → IsGranted policy a
unfolding local_decision
local_decision-IsGranted policy a h = elim (Option-cases (rule_for policy a.tool)) [
  | inl no_rule ↦ cc (rw (no_rule, local_decision) at h)
  | inr (r, rule) ↦ elim (Bool-cases (is_among a.operation r.operations)) [
    | inr other ↦ cc (rw (rule, other, local_decision) at h)
    | inl among ↦ elim (Bool-cases (within_prefixes r a.resource)) [
      | inl within ↦ (r, rule, among, within)
      | inr outside ↦ absurd (
          ground (
            arith,
            denied_either r.resource_prefixes _ _,
            rw (rule, among, outside, local_decision) at h,
          ))
    ]
  ]
]

only_allow :
    (d : Decision) (reason : Text)
    → allowed (record { decision = d; reason = reason }) ≡ true
    → d ≡ allow
only_allow allow reason h = refl
only_allow deny reason h = cc
only_allow approval_required reason h = cc

named_decision-allow : (s : String) → named_decision (some s) ≡ some allow → s ≡ "allow"
named_decision-allow s h = ground (arith, h, eq_iff s "allow")

says_lem : (s : String) (o : Option String) → says s o ≡ true → o ≡ some s
says_lem s none h = cc
says_lem s (some t) h = ap (λ x. some x) (ground (arith, h, eq_iff t s))

normalize_external_decision-allow :
    (response : Response) (p : AgentActionProposal)
    → allowed (normalize_external_decision response p) ≡ true
    → (reason : Option Text) × (response
        ≡ decision_object (some "allow") reason (some p.action_hash) (some p.action.policy_hash))
unfolding normalize_external_decision
normalize_external_decision-allow other_response p h = cc
normalize_external_decision-allow (decision_object none reason action_hash policy_hash) p h = cc
normalize_external_decision-allow (decision_object (some s) reason action_hash policy_hash) p h =
    elim (Option-cases (named_decision (some s))) [
      | inl unknown ↦ cc (rw (unknown, normalize_external_decision) at h)
      | inr (d, named) ↦ elim (Bool-cases (says p.action_hash action_hash)) [
        | inr other ↦ cc (rw (named, other, normalize_external_decision) at h)
        | inl same ↦ elim (Bool-cases (says p.action.policy_hash policy_hash)) [
          | inr other ↦ cc (rw (named, same, other, normalize_external_decision) at h)
          | inl bound ↦
              let allows : d ≡ allow =
                only_allow d (first_chars 512 (reason_or_default reason))
                  (rw (named, same, bound, normalize_external_decision) at h) in
              (
                reason,
                rw
                    (
                      says_lem p.action_hash action_hash same,
                      says_lem p.action.policy_hash policy_hash bound,
                      named_decision-allow s (named ∙ ap (λ x. some x) allows),
                    )
                    refl,
              )
        ]
      ]
    ]

authorize-Consents :
    (external : Option Authorizer) (p : AgentActionProposal) (local : AgentActionDecision)
    → allowed (external_decision external p local) ≡ true
    → Consents external p
authorize-Consents none p local h = tt
authorize-Consents (some ask) p local h = elim (Option-cases (ask p)) [
  | inl raised ↦ cc (rw raised at h)
  | inr (response, answer) ↦
      let (reason, same) = normalize_external_decision-allow response p (rw answer at h) in
      (reason, answer ∙ ap (λ x. some x) same)
]

abbrev decided : AgentActionDecision → Result GatewayError AgentActionDecision
decided d = ok d

allowed_by :
    (local external d : AgentActionDecision)
    → decided (if allowed local then external else local) ≡ decided d
    → allowed d ≡ true
    → (allowed local ≡ true) × (allowed external ≡ true)
allowed_by local external d h a = elim (Bool-cases (allowed local)) [
  | inl yes_local ↦ (yes_local, rw (ok_injective external d (rw yes_local at h)) a)
  | inr not_local ↦ cc (ok_injective local d (rw not_local at h))
]
  where
    ok_injective : (x y : AgentActionDecision) → decided x ≡ decided y → x ≡ y
    ok_injective x y h = cc

module _ (digest : Action → String) (encoded_size : Action → ℕ)
    (policy_digest : AgentToolPolicy → String) (policy : AgentToolPolicy) where
  pub authorize-allows :
      (marker : Marker) (external : Option Authorizer) (p : AgentActionProposal)
      (d : AgentActionDecision)
      → authorize digest encoded_size policy_digest policy marker external p ≡ ok d
      → allowed d ≡ true
      → IsGranted policy p.action × Consents external p
  unfolding authorize
  authorize-allows marker external p d h a =
      let (valid, _, answer) =
        bind_ok (validate_proposal digest encoded_size policy_digest policy marker p) _ h in
      let local = local_decision policy p.action in
      let (granted, consented) = allowed_by local (external_decision external p local) d answer a in
      (
        local_decision-IsGranted policy p.action granted,
        authorize-Consents external p local consented,
      )
