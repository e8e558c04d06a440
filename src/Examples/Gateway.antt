-- ===== src/Examples/Gateway.antt =====
-- The tool gateway at concrete inputs, over a memory that is a function of the namespace and the key.
use zdx_paralell_pyxel_vm.Base.{
  ℕ, ◌≡◌, refl, ◌⊎◌, ap, sym, ◌∙◌, String, Bool, true, false, ◌&&◌, Option, none, some, [], ◌∷◌,
  str_eq, eq_iff, if◌then◌else◌, arith,
}
use zdx_paralell_pyxel_vm.Base.Dict.{Dict, get}
use zdx_paralell_pyxel_vm.Base.Results.{ok}
use zdx_paralell_pyxel_vm.Gateway.Policy.{AgentToolPolicy}
use zdx_paralell_pyxel_vm.Gateway.Arguments.{no_members}
use zdx_paralell_pyxel_vm.Gateway.Proposal.{
  Action, AgentActionProposal, Authorizer, Marker, ToolRequest, decision_object, propose,
}
use zdx_paralell_pyxel_vm.Gateway.Store.{Stored, ToolMemory, Handler}
use zdx_paralell_pyxel_vm.Gateway.Execute.{World, execute}
use zdx_paralell_pyxel_vm.Gateway.Execute.Once.{IsOnceEach, present}
use zdx_paralell_pyxel_vm.Gateway.Execute.Calls.{asked, moved, served, served-IsOnceEach}
use zdx_paralell_pyxel_vm.Gateway.Proposal.Allowed.{IsGranted, Consents}
use zdx_paralell_pyxel_vm.Gateway.Execute.Granted.{execute-IsGranted}
use zdx_paralell_pyxel_vm.Gateway.Execute.Replay.{executed, execute-again}

abbrev ExampleMemory : Type 0
ExampleMemory = String → String → Option Stored

abbrev at_place : String → String → String → String → Bool
at_place n k j i = str_eq n j && str_eq k i

abbrev put : String → String → Option Stored → ExampleMemory → ExampleMemory
put n k v m j i = if at_place n k j i then v else m j i

abbrev put_there : String → String → Stored → ExampleMemory → Option ExampleMemory
put_there n k v m = some (put n k (some v) m)

abbrev take_away : String → String → ExampleMemory → Option (Bool × ExampleMemory)
take_away n k m = some (present (m n k), put n k none m)

put_place : (n k : String) (v : Option Stored) (m : ExampleMemory) → put n k v m n k ≡ v
put_place n k v m = ground (arith, eq_iff n n, eq_iff k k)

put_elsewhere :
    (n k j i : String) (v : Option Stored) (m : ExampleMemory)
    → at_place n k j i ≡ false
    → put n k v m j i ≡ m j i
put_elsewhere n k j i v m other = rw other refl

put_there-after :
    (n k : String) (v : Stored) (m after : ExampleMemory)
    → put_there n k v m ≡ some after
    → put n k (some v) m ≡ after
put_there-after n k v m after h = cc

take_away-after :
    (n k : String) (m after : ExampleMemory) (there : Bool)
    → take_away n k m ≡ some (there, after)
    → put n k none m ≡ after
take_away-after n k m after there h = cc

abbrev a_tool_memory : ToolMemory ExampleMemory
a_tool_memory = record {
  read = λ n k m. m n k;
  write = put_there;
  remove = take_away;
  read-write = λ n k v m after h.
      ap (λ f. f n k) (sym (put_there-after n k v m after h)) ∙ put_place n k (some v) m;
  read_other-write = λ n k j i v m after h other.
      ap (λ f. f j i) (sym (put_there-after n k v m after h))
      ∙ put_elsewhere n k j i (some v) m other;
  read_other-remove = λ n k j i m after there h other.
      ap (λ f. f j i) (sym (take_away-after n k m after there h))
      ∙ put_elsewhere n k j i none m other;
}

abbrev a_checkpoint : ExampleMemory → Marker → Option Marker
a_checkpoint m k = some k

abbrev a_hash : Action → String
a_hash a = a.idempotency_key

abbrev a_size : Action → ℕ
a_size a = 1

abbrev a_policy_hash : AgentToolPolicy → String
a_policy_hash p = p.policy_id

abbrev a_policy : AgentToolPolicy
a_policy = record {
  policy_id = "p";
  rules =
      record { tool = "t"; operations = "run" ∷ []; resource_prefixes = []; require_barrier = true }
      ∷ [];
  version = 1;
}

abbrev an_authorizer : Option Authorizer
an_authorizer = some (λ p.
    some (decision_object (some "allow") none (some p.action_hash) (some p.action.policy_hash)))

abbrev some_handlers : Dict Handler
some_handlers = ("t", λ p. ok (1 ∷ [])) ∷ []

abbrev a_request : ToolRequest
a_request = record {
  tool = "t";
  operation = "run";
  resource = "";
  arguments = no_members;
  idempotency_key = "k";
}

abbrev a_marker : Marker
a_marker = record { generation = 3; checkpoint_hash = "c" }

abbrev a_world : World ExampleMemory
a_world = record { memory = λ n k. none; marker = a_marker; calls = [] }

served-IsOnceEach_example : IsOnceEach a_tool_memory (
    served a_tool_memory a_checkpoint a_hash a_size a_policy_hash a_policy some_handlers
      (asked an_authorizer a_request ∷ moved a_marker ∷ asked none a_request ∷ [])
      a_world)
served-IsOnceEach_example =
    served-IsOnceEach a_tool_memory a_checkpoint a_hash a_size a_policy_hash a_policy some_handlers
      (asked an_authorizer a_request ∷ moved a_marker ∷ asked none a_request ∷ []) a_world refl

execute-IsGranted_example :
    ((execute a_tool_memory a_checkpoint a_hash a_size a_policy_hash a_policy an_authorizer
        some_handlers a_request a_world).0.calls
      ≡ [])
    ⊎ ((p : AgentActionProposal) × (propose a_hash a_size a_policy_hash a_policy a_marker a_request
          ≡ ok p)
        × ((execute a_tool_memory a_checkpoint a_hash a_size a_policy_hash a_policy an_authorizer
              some_handlers a_request a_world).0.calls
            ≡ p.action_hash ∷ [])
        × IsGranted a_policy p.action
        × Consents an_authorizer p)
execute-IsGranted_example =
    execute-IsGranted a_tool_memory a_checkpoint a_hash a_size a_policy_hash a_policy an_authorizer
      some_handlers a_request a_world

execute-again_example :
    executed a_tool_memory a_checkpoint a_hash a_size a_policy_hash a_policy an_authorizer a_request
      (1 ∷ [])
      []
      (executed a_tool_memory a_checkpoint a_hash a_size a_policy_hash a_policy an_authorizer
        a_request
        (1 ∷ [])
        some_handlers
        a_world).0
    ≡ (
      (executed a_tool_memory a_checkpoint a_hash a_size a_policy_hash a_policy an_authorizer
          a_request
          (1 ∷ [])
          some_handlers
          a_world).0,
      ok (1 ∷ []),
    )
unfolding execute get
execute-again_example =
    execute-again a_tool_memory a_checkpoint a_hash a_size a_policy_hash a_policy an_authorizer
      a_request (1 ∷ []) some_handlers [] a_world
      (executed a_tool_memory a_checkpoint a_hash a_size a_policy_hash a_policy an_authorizer
        a_request (1 ∷ []) some_handlers a_world).0
      refl refl refl
