-- ===== src/Gateway/Policy.antt =====
-- ToolCapabilityRule, AgentToolPolicy and ToolRegistry. What Python can pass that is not of the declared
-- type is left out, and so are `from_dict`, which reads a rule or a policy from a document.
use zdx_paralell_pyxel_vm.Base.{
  ℕ, String, Bool, true, false, not, ◌&&◌, ◌||◌, Option, none, some, List, [], ◌∷◌, map, leb, ◌==◌,
  str_eq, if◌then◌else◌, length,
}
use zdx_paralell_pyxel_vm.Base.Dict.{Dict, get, contains, insert, keys}
use zdx_paralell_pyxel_vm.Base.Results.{Result, ok, err, ◌>>◌, refuse_if}
use zdx_paralell_pyxel_vm.Base.Sort.{sort_by}
use zdx_paralell_pyxel_vm.Compiler.Text.{Text, codes, text_lt}

-- `[A-Za-z0-9_.:-]{1,128}`
unfoldable pub name_chars : Text → Bool
name_chars [] = true
name_chars (c ∷ s) =
    ((leb b'A' c && leb c b'Z')
      || (leb b'a' c && leb c b'z')
      || (leb b'0' c && leb c b':')
      || c == b'_'
      || c == b'.'
      || c == b'-')
    && name_chars s

unfoldable pub valid_name : String → Bool
unfolding name_chars
valid_name name = let s = codes name in leb 1 (length s) && leb (length s) 128 && name_chars s

unfoldable pub all_valid_names : List String → Bool
unfolding valid_name
all_valid_names [] = true
all_valid_names (name ∷ names) = valid_name name && all_valid_names names

-- `name in names`
unfoldable pub is_among : String → List String → Bool
is_among name [] = false
is_among name (other ∷ names) = str_eq other name || is_among name names

-- `len(set(names)) == len(names)`
unfoldable pub all_different : List String → Bool
unfolding is_among
all_different [] = true
all_different (name ∷ names) = not (is_among name names) && all_different names

unfoldable pub valid_prefixes : List String → Bool
valid_prefixes [] = true
valid_prefixes (p ∷ ps) = not (str_eq p "") && leb (length (codes p)) 512 && valid_prefixes ps

pub data PolicyError : Type 0 where
  invalid_tool_name invalid_operations duplicate_operations invalid_prefixes : PolicyError
  unsupported_version invalid_policy_id duplicate_rules already_registered not_registered :
      PolicyError

pub record ToolCapabilityRule : Type 0 where
  pub tool : String
  pub operations : List String
  pub resource_prefixes : List String
  pub require_barrier : Bool

-- `__post_init__`
unfoldable pub checked_rule : ToolCapabilityRule → Result PolicyError (Unit {0})
unfolding valid_name all_valid_names all_different valid_prefixes
checked_rule r =
    refuse_if (not (valid_name r.tool)) invalid_tool_name
    >> refuse_if (leb (length r.operations) 0 || not (all_valid_names r.operations))
        invalid_operations
    >> refuse_if (not (all_different r.operations)) duplicate_operations
    >> refuse_if (not (valid_prefixes r.resource_prefixes)) invalid_prefixes

abbrev pub name_before : String → String → Bool
name_before a b = text_lt (codes a) (codes b)

-- `to_dict` of a rule.
unfoldable pub sorted_rule : ToolCapabilityRule → ToolCapabilityRule
sorted_rule r = record r {
  operations = sort_by name_before r.operations;
  resource_prefixes = sort_by name_before r.resource_prefixes;
}

pub record AgentToolPolicy : Type 0 where
  pub policy_id : String
  pub rules : List ToolCapabilityRule
  pub version : ℕ

abbrev pub rule_tools : List ToolCapabilityRule → List String
rule_tools = map (λ r. r.tool)

-- `__post_init__`; the rules have been checked when they were built.
unfoldable pub checked_policy : AgentToolPolicy → Result PolicyError (Unit {0})
unfolding valid_name all_different
checked_policy p =
    refuse_if (not (p.version == 1)) unsupported_version
    >> refuse_if (not (valid_name p.policy_id)) invalid_policy_id
    >> refuse_if (not (all_different (rule_tools p.rules))) duplicate_rules

-- `to_dict` of a policy, which its hash is taken of.
unfoldable pub sorted_policy : AgentToolPolicy → AgentToolPolicy
unfolding sorted_rule
sorted_policy p = record p {
  rules = map sorted_rule (sort_by (λ a b. name_before a.tool b.tool) p.rules);
}

unfoldable pub first_rule : String → List ToolCapabilityRule → Option ToolCapabilityRule
first_rule tool [] = none
first_rule tool (r ∷ rs) = if str_eq r.tool tool then some r else first_rule tool rs

unfoldable pub rule_for : AgentToolPolicy → String → Option ToolCapabilityRule
unfolding first_rule
rule_for p tool = first_rule tool p.rules

-- `ToolRegistry`, on handlers of any type.
module _ {H : Type 0} where
  unfoldable pub register : String → H → Dict H → Result PolicyError (Dict H)
  unfolding valid_name
  register tool handler handlers =
      if not (valid_name tool)
      then err invalid_tool_name
      else if contains tool handlers
      then err already_registered
      else ok (insert tool handler handlers)

  unfoldable pub handler_of : String → Dict H → Result PolicyError H
  handler_of tool handlers = elim (get tool handlers) [ none ↦ err not_registered | some h ↦ ok h ]

  unfoldable pub registered : Dict H → List String
  registered handlers = sort_by name_before (keys handlers)
