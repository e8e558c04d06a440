-- ===== src/Gateway/Same.antt =====
-- The equality of Python objects, for the records that the gateway compares with stored ones.
use zdx_paralell_pyxel_vm.Base.{
  ◌≡◌, refl, String, Bool, true, false, ◌&&◌, List, [], ◌∷◌, ◌==◌, str_eq, arith, eq_iff,
}
use zdx_paralell_pyxel_vm.Gateway.Policy.{ToolCapabilityRule, AgentToolPolicy}
use zdx_paralell_pyxel_vm.Gateway.Arguments.{
  Argument, null, flag, whole, float_text, text, items, object, Items, no_items, item, Members,
  no_members, member,
}
use zdx_paralell_pyxel_vm.Gateway.Proposal.{AgentActionProposal}

abbrev pub same_flag : Bool → Bool → Bool
same_flag true b = b
same_flag false true = false
same_flag false false = true

-- A flag is not compared with a number: Python takes True for 1.
unfoldable mutual
  pub same_value : Argument → Argument → Bool
  same_value null null = true
  same_value (flag b) (flag c) = same_flag b c
  same_value (whole s n) (whole t m) = same_flag s t && n == m
  same_value (float_text s) (float_text t) = str_eq s t
  same_value (text s) (text t) = str_eq s t
  same_value (items l) (items k) = same_items l k
  same_value (object ms) (object ns) = same_members ms ns
  same_value _ _ = false

  pub same_items : Items → Items → Bool
  same_items no_items no_items = true
  same_items (item v l) (item w k) = same_value v w && same_items l k
  same_items _ _ = false

  pub same_members : Members → Members → Bool
  same_members no_members no_members = true
  same_members (member i v ms) (member j w ns) = str_eq i j && same_value v w && same_members ms ns
  same_members _ _ = false

unfoldable pub same_proposal : AgentActionProposal → AgentActionProposal → Bool
unfolding same_members
same_proposal p q =
    str_eq p.action.tool q.action.tool
    && str_eq p.action.operation q.action.operation
    && str_eq p.action.resource q.action.resource
    && same_members p.action.arguments q.action.arguments
    && str_eq p.action.idempotency_key q.action.idempotency_key
    && p.action.generation == q.action.generation
    && str_eq p.action.checkpoint_hash q.action.checkpoint_hash
    && str_eq p.action.policy_hash q.action.policy_hash
    && str_eq p.action_hash q.action_hash

unfoldable pub same_names : List String → List String → Bool
same_names [] [] = true
same_names (a ∷ names) (b ∷ others) = str_eq a b && same_names names others
same_names _ _ = false

unfoldable pub same_rules : List ToolCapabilityRule → List ToolCapabilityRule → Bool
unfolding same_names
same_rules [] [] = true
same_rules (r ∷ rs) (q ∷ qs) =
    str_eq r.tool q.tool
    && same_names r.operations q.operations
    && same_names r.resource_prefixes q.resource_prefixes
    && same_flag r.require_barrier q.require_barrier
    && same_rules rs qs
same_rules _ _ = false

unfoldable pub same_policy : AgentToolPolicy → AgentToolPolicy → Bool
unfolding same_rules
same_policy p q =
    p.version == q.version && str_eq p.policy_id q.policy_id && same_rules p.rules q.rules

text_same : (s : String) → str_eq s s ≡ true
text_same s = ground (arith, eq_iff s s)

mutual
  unfolding same_value

  same_value_refl : (v : Argument) → same_value v v ≡ true
  same_value_refl null = refl
  same_value_refl (flag true) = refl
  same_value_refl (flag false) = refl
  same_value_refl (whole true n) = ground arith
  same_value_refl (whole false n) = ground arith
  same_value_refl (float_text s) = text_same s
  same_value_refl (text s) = text_same s
  same_value_refl (items l) = same_items_refl l
  same_value_refl (object ms) = same_members_refl ms

  same_items_refl : (l : Items) → same_items l l ≡ true
  same_items_refl no_items = refl
  same_items_refl (item v l) = ground (arith, same_value_refl v, same_items_refl l)

  pub same_members_refl : (ms : Members) → same_members ms ms ≡ true
  same_members_refl no_members = refl
  same_members_refl (member i v ms) =
      ground (arith, text_same i, same_value_refl v, same_members_refl ms)

pub same_proposal_refl : (p : AgentActionProposal) → same_proposal p p ≡ true
unfolding same_proposal
same_proposal_refl p = ground (
  arith,
  text_same p.action.tool,
  text_same p.action.operation,
  text_same p.action.resource,
  same_members_refl p.action.arguments,
  text_same p.action.idempotency_key,
  text_same p.action.checkpoint_hash,
  text_same p.action.policy_hash,
  text_same p.action_hash,
)
