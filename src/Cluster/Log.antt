-- ===== src/Cluster/Log.antt =====
-- ReplicatedClusterState: the operation log with `append`, `merge` and `_load`. The SHA-256 of the
-- canonical JSON of an operation without its hash is the parameter `digest`; a fresh operation id and
-- the reading of the clock are arguments. `_save`, which writes the log to its file, is left out.
pub mod Intact
use zdx_paralell_pyxel_vm.Base.{
  ℕ, ◌+◌, String, Bool, true, false, not, ◌||◌, ◌&&◌, Option, none, some, List, [], ◌∷◌, ltb, leb,
  ◌==◌, str_eq, if◌then◌else◌, length,
}
use zdx_paralell_pyxel_vm.Base.Dict.{Dict, get, contains, insert}
use zdx_paralell_pyxel_vm.Base.Results.{Result, ok, err}
use zdx_paralell_pyxel_vm.Compiler.Text.{Text}

-- What `claim_task` and `materialized` read of a task.
pub record ClusterTask : Type 0 where
  pub task_id : String
  pub memory_mb : ℕ
  pub threads : ℕ
  pub created_at : ℕ
  pub rest : Text

-- The entries of a payload that the code reads, `none` where one is absent; `rest` is the JSON text of
-- the others.
pub record Payload : Type 0 where
  pub task_id : Option String
  pub task : Option ClusterTask
  pub worker_id : Option String
  pub lease_id : Option String
  pub lease_until : Option ℕ
  pub contribution_id : Option String
  pub rest : Text

pub record Operation : Type 0 where
  pub operation_id : String
  pub kind : String
  pub payload : Payload
  pub origin : String
  pub timestamp : ℕ
  pub operation_hash : String

-- The log and its file: version, cluster and operations.
pub record Snapshot : Type 0 where
  pub version : ℕ
  pub cluster_id : String
  pub operations : Dict Operation

pub data ClusterError : Type 0 where
  fields_required limit_reached wrong_cluster bad_snapshot identity_mismatch integrity_failed :
      ClusterError
  bad_state stale_lease result_too_large missing_task_id : ClusterError

abbrev pub max_operations : ℕ
max_operations = 200000

abbrev pub empty_log : String → Snapshot
empty_log cluster = record { version = 1; cluster_id = cluster; operations = [] }

-- `_load` of the document in the state file.
unfoldable pub load : String → Option Snapshot → Result ClusterError Snapshot
load cluster none = ok (empty_log cluster)
load cluster (some stored) =
    if not (stored.version == 1) || not (str_eq stored.cluster_id cluster)
    then err bad_state
    else if ltb max_operations (length stored.operations)
    then err bad_state
    else ok stored

module _ (digest : Operation → String) where
  -- `_operation_hash`: the hash entry itself is not hashed.
  unfoldable pub operation_hash : Operation → String
  operation_hash o = digest (record o { operation_hash = "" })

  abbrev pub signed : Operation → Operation
  signed o = record o { operation_hash = operation_hash o }

  -- The operation that `append` builds, with its hash.
  abbrev pub built : String → ℕ → String → Payload → String → Operation
  built id now kind payload origin = signed (record {
    operation_id = id;
    kind = kind;
    payload = payload;
    origin = origin;
    timestamp = now;
    operation_hash = "";
  })

  -- `append`; `id` is the fresh operation id and `now` the clock.
  unfoldable pub append :
      String → ℕ → String → Payload → String → Snapshot → Snapshot × Result ClusterError String
  unfolding operation_hash
  append id now kind payload origin s =
      if str_eq kind "" || str_eq origin ""
      then (s, err fields_required)
      else if leb max_operations (length s.operations)
      then (s, err limit_reached)
      else (
        record s { operations = insert id (built id now kind payload origin) s.operations },
        ok id,
      )

  -- The checks of an operation that the log does not have.
  abbrev pub is_intact : String → Operation → Bool
  is_intact id o = str_eq o.operation_id id && str_eq o.operation_hash (operation_hash o)

  abbrev pub refusal : String → Operation → ClusterError
  refusal id o = if str_eq o.operation_id id then integrity_failed else identity_mismatch

  -- The loop of `merge`: the operations of the log as the loop leaves them, also where it raises, and
  -- the number of operations that it has added.
  unfoldable pub merge_operations :
      ℕ → Dict Operation → Dict Operation → Dict Operation × Result ClusterError ℕ
  unfolding operation_hash
  merge_operations added [] log = (log, ok added)
  merge_operations added ((id, o) ∷ rest) log =
      let skipped = merge_operations added rest log in
      let taken = merge_operations (added + 1) rest (insert id o log) in
      if contains id log
      then skipped
      else if is_intact id o
      then taken
      else (log, err (refusal id o))

  unfoldable pub merge : Snapshot → Snapshot → Snapshot × Result ClusterError ℕ
  unfolding merge_operations
  merge incoming s =
      if not (incoming.version == 1) || not (str_eq incoming.cluster_id s.cluster_id)
      then (s, err wrong_cluster)
      else if ltb max_operations (length incoming.operations)
      then (s, err bad_snapshot)
      else let merged = merge_operations 0 incoming.operations s.operations in
        (record s { operations = merged.0 }, merged.1)
