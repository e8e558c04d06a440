-- ===== src/Cluster/Master.antt =====
-- The operations of a master and its workers: ReplicatedClusterState from `queue_task` to
-- `record_contribution`. Fresh ids and the readings of the clock are arguments.
pub mod Effects
use zdx_paralell_pyxel_vm.Base.{
  ℕ, ◌+◌, max, String, Bool, true, false, not, ◌&&◌, ◌||◌, Option, none, some, List, [], ◌∷◌, ltb,
  leb, ◌==◌, str_eq, if◌then◌else◌, length,
}
use zdx_paralell_pyxel_vm.Base.Dict.{Dict, get}
use zdx_paralell_pyxel_vm.Base.Results.{Result, ok, err, ◌>>=◌}
use zdx_paralell_pyxel_vm.Base.Sort.{sort_by}
use zdx_paralell_pyxel_vm.Compiler.Text.{Text, codes, text_lt}
use zdx_paralell_pyxel_vm.Cluster.Log.{
  ClusterTask, Payload, Operation, Snapshot, ClusterError, bad_state, stale_lease, result_too_large,
  missing_task_id, append,
}
use zdx_paralell_pyxel_vm.Cluster.Queue.{Lease, Queue, lease_matches, materialized}

abbrev pub payload_for : String → Payload
payload_for id = record {
  task_id = some id;
  task = none;
  worker_id = none;
  lease_id = none;
  lease_until = none;
  contribution_id = none;
  rest = [];
}

-- `_require_live_lease`
abbrev pub live_lease : Option String → Option Lease → Bool
live_lease lease none = false
live_lease lease (some r) = lease_matches r lease

module _ (digest : Operation → String) where
  unfoldable pub queue_task :
      String → ℕ → ClusterTask → String → Snapshot → Snapshot × Result ClusterError String
  queue_task fresh now t origin s =
      if str_eq t.task_id ""
      then (s, err missing_task_id)
      else append digest fresh now "task_submit" (record (payload_for t.task_id) { task = some t })
          origin s

  -- An operation of the worker that holds the lease: `kind` is the operation, `rest` the JSON text of its
  -- other entries.
  unfoldable pub end_lease :
      String
      → ℕ
      → String
      → String
      → String
      → Text
      → String
      → Snapshot
      → Snapshot × Result ClusterError String
  unfolding materialized
  end_lease fresh now kind id lease rest origin s = elim (materialized s) [
    | err e ↦ (s, err e)
    | ok q ↦
        if live_lease (some lease) (get id q.running)
        then append digest fresh now kind
            (record (payload_for id) { lease_id = some lease; rest = rest }) origin s
        else (s, err stale_lease)
  ]

  unfoldable pub release_task :
      String
      → ℕ
      → String
      → String
      → Text
      → String
      → Snapshot
      → Snapshot × Result ClusterError String
  unfolding end_lease
  release_task fresh now id lease reason origin s =
      end_lease fresh now "lease_release" id lease reason origin s

  -- `result` is the canonical JSON text of the result, and `rest` that of the result and the verification
  -- result as entries of the payload.
  unfoldable pub complete_task :
      String
      → ℕ
      → String
      → String
      → Text
      → Text
      → String
      → Snapshot
      → Snapshot × Result ClusterError String
  unfolding end_lease
  complete_task fresh now id lease result rest origin s =
      if ltb 1048576 (length result)
      then (s, err result_too_large)
      else end_lease fresh now "task_complete" id lease rest origin s

  unfoldable pub fail_task :
      String
      → ℕ
      → String
      → String
      → Text
      → String
      → Snapshot
      → Snapshot × Result ClusterError String
  unfolding end_lease
  fail_task fresh now id lease error origin s =
      end_lease fresh now "task_fail" id lease error origin s

  -- The sort key of the queue in `claim_task`.
  unfoldable pub queued_before : String × ClusterTask → String × ClusterTask → Bool
  queued_before a b =
      ltb a.1.created_at b.1.created_at
      || (a.1.created_at == b.1.created_at && text_lt (codes a.0) (codes b.0))

  abbrev pub task_fits : ℕ → ℕ → ClusterTask → Bool
  task_fits available cpus t = leb t.memory_mb available && leb t.threads (max 1 cpus)

  unfoldable pub first_fitting : ℕ → ℕ → List (String × ClusterTask) → Option (String × ClusterTask)
  first_fitting available cpus [] = none
  first_fitting available cpus ((id, t) ∷ rest) =
      if task_fits available cpus t then some (id, t) else first_fitting available cpus rest

  abbrev pub granted :
      String
      → String
      → ℕ
      → String
      → ClusterTask
      → Result ClusterError String
      → Result ClusterError (Option (String × Lease))
  granted worker lease until id t (err e) = err e
  granted worker lease until id t (ok op) =
      ok (some (id, record { task = t; worker_id = worker; lease_id = lease; lease_until = until }))

  -- `lease` is the fresh lease id and `until` the end of the lease, `now + max(1, lease_seconds)`.
  unfoldable pub claim_task :
      String
      → String
      → ℕ
      → String
      → String
      → ℕ
      → ℕ
      → ℕ
      → Snapshot
      → Snapshot × Result ClusterError (Option (String × Lease))
  unfolding materialized first_fitting queued_before
  claim_task fresh lease now worker origin available cpus lease_seconds s = elim (materialized s) [
    | err e ↦ (s, err e)
    | ok q ↦ elim (first_fitting available cpus (sort_by queued_before q.queued)) [
      | none ↦ (s, ok none)
      | some e ↦
          let until : ℕ = now + max 1 lease_seconds in
          let appended : Snapshot × Result ClusterError String =
            append digest fresh now "lease_claim"
              (record (payload_for e.0) {
                worker_id = some worker;
                lease_id = some lease;
                lease_until = some until;
              })
              origin s in
          (appended.0, granted worker lease until e.0 e.1 appended.1)
    ]
  ]

  -- `contribution` is the canonical JSON text of the contribution, `contribution_hash` its SHA-256.
  unfoldable pub record_contribution :
      (Text → String)
      → String
      → ℕ
      → Text
      → String
      → Snapshot
      → Snapshot × Result ClusterError String
  record_contribution contribution_hash fresh now contribution origin s =
      append digest fresh now "contribution"
        (record {
          task_id = none;
          task = none;
          worker_id = none;
          lease_id = none;
          lease_until = none;
          contribution_id = some (contribution_hash contribution);
          rest = contribution;
        })
        origin s
