-- ===== src/Cluster/Queue.antt =====
-- The queue that the log stands for: `materialized` of ReplicatedClusterState.
pub mod Converges
use zdx_paralell_pyxel_vm.Base.{
  ℕ, ◌+◌, max, String, Bool, true, false, not, ◌&&◌, ◌||◌, Option, none, some, List, [], ◌∷◌, ltb,
  leb, ◌==◌, str_eq, if◌then◌else◌, length,
}
use zdx_paralell_pyxel_vm.Base.Dict.{Dict, get, contains, insert, delete, values}
use zdx_paralell_pyxel_vm.Base.Results.{Result, ok, err, ◌>>=◌}
use zdx_paralell_pyxel_vm.Base.Sort.{sort_by}
use zdx_paralell_pyxel_vm.Compiler.Text.{Text, codes, text_lt}
use zdx_paralell_pyxel_vm.Cluster.Log.{
  ClusterTask, Payload, Operation, Snapshot, ClusterError, bad_state, stale_lease, result_too_large,
  missing_task_id, append,
}

-- A running record.
pub record Lease : Type 0 where
  pub task : ClusterTask
  pub worker_id : String
  pub lease_id : String
  pub lease_until : ℕ

-- A record of `completed` or `failed`: that of `running`, and the payload over it.
pub record Ended : Type 0 where
  pub lease : Lease
  pub payload : Payload

pub record Queue : Type 0 where
  pub queued : Dict ClusterTask
  pub running : Dict Lease
  pub completed : Dict Ended
  pub failed : Dict Ended
  pub contributions : Dict Payload

abbrev pub empty_queue : Queue
empty_queue = record { queued = []; running = []; completed = []; failed = []; contributions = [] }

-- The sort key of `_ordered_operations`.
unfoldable pub earlier_operation : Operation → Operation → Bool
earlier_operation o p =
    ltb o.timestamp p.timestamp
    || (o.timestamp == p.timestamp && text_lt (codes o.operation_id) (codes p.operation_id))

abbrev pub ordered_operations : Dict Operation → List Operation
ordered_operations log = sort_by earlier_operation (values log)

-- A text that Python takes for true.
abbrev pub given : Option String → Option String
given none = none
given (some s) = if str_eq s "" then none else some s

abbrev pub lease_matches : Lease → Option String → Bool
lease_matches r none = str_eq r.lease_id ""
lease_matches r (some id) = str_eq r.lease_id id

-- `{key: payload[key] for key in (…)}`, with the task that leaves the queue.
abbrev pub claimed :
    ClusterTask → Option String → Option String → Option ℕ → Result ClusterError Lease
claimed t (some w) (some l) (some u) =
    ok (record { task = t; worker_id = w; lease_id = l; lease_until = u })
claimed t _ _ _ = err bad_state

-- The branches on the kind, for a payload with the task id `id`.
unfoldable pub submit_operation : String → Payload → Queue → Result ClusterError Queue
submit_operation id p q = elim p.task [
  | none ↦ err bad_state
  | some t ↦ ok (record q { queued = insert id t q.queued })
]

unfoldable pub claim_operation : String → Payload → Queue → Result ClusterError Queue
claim_operation id p q = elim (get id q.queued) [
  | none ↦ ok q
  | some t ↦ claimed t p.worker_id p.lease_id p.lease_until >>= λ r.
      ok (record q { queued = delete id q.queued; running = insert id r q.running })
]

unfoldable pub release_operation : String → Payload → Queue → Queue
release_operation id p q = elim (get id q.running) [
  | none ↦ q
  | some r ↦
      if lease_matches r p.lease_id
      then record q { queued = insert id r.task q.queued; running = delete id q.running }
      else q
]

unfoldable pub complete_operation : String → Payload → Queue → Queue
complete_operation id p q = elim (get id q.running) [
  | none ↦ q
  | some r ↦
      if lease_matches r p.lease_id
      then record q {
        completed = insert id (record { lease = r; payload = p }) q.completed;
        running = delete id q.running;
        queued = delete id q.queued;
      }
      else q
]

unfoldable pub fail_operation : String → Payload → Queue → Queue
fail_operation id p q = elim (get id q.running) [
  | none ↦ q
  | some r ↦
      if lease_matches r p.lease_id
      then record q {
        failed = insert id (record { lease = r; payload = p }) q.failed;
        running = delete id q.running;
        queued = delete id q.queued;
      }
      else q
]

abbrev pub contribution_key : Operation → Option String → String
contribution_key o none = o.operation_id
contribution_key o (some id) = id

-- One round of the loop of `materialized`.
unfoldable pub apply_operation : Operation → Queue → Result ClusterError Queue
unfolding submit_operation claim_operation release_operation complete_operation fail_operation
apply_operation o q =
    if str_eq o.kind "contribution"
    then ok (record q {
      contributions =
          insert (contribution_key o (given o.payload.contribution_id)) o.payload q.contributions;
    })
    else elim (given o.payload.task_id) [
      | none ↦ ok q
      | some id ↦
          if str_eq o.kind "task_submit"
          then submit_operation id o.payload q
          else if str_eq o.kind "lease_claim"
          then claim_operation id o.payload q
          else if str_eq o.kind "lease_release"
          then ok (release_operation id o.payload q)
          else if str_eq o.kind "task_complete"
          then ok (complete_operation id o.payload q)
          else if str_eq o.kind "task_fail"
          then ok (fail_operation id o.payload q)
          else ok q
    ]

unfoldable pub apply_operations : List Operation → Queue → Result ClusterError Queue
unfolding apply_operation
apply_operations [] q = ok q
apply_operations (o ∷ os) q = apply_operation o q >>= apply_operations os

unfoldable pub materialized : Snapshot → Result ClusterError Queue
unfolding apply_operations earlier_operation
materialized s = apply_operations (ordered_operations s.operations) empty_queue
