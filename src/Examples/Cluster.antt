-- ===== src/Examples/Cluster.antt =====
-- The cluster log at concrete inputs.
use zdx_paralell_pyxel_vm.Base.{
  ℕ, ◌≡◌, refl, sym, ◌∙◌, String, true, none, some, [], ◌∷◌, eq_iff, str_eq, arith,
}
use zdx_paralell_pyxel_vm.Base.Dict.{get, insert, delete}
use zdx_paralell_pyxel_vm.Base.Results.{ok}
use zdx_paralell_pyxel_vm.Base.Sort.{sort_by}
use zdx_paralell_pyxel_vm.Cluster.Log.{
  ClusterTask, Operation, Snapshot, append, merge, operation_hash, built, is_intact,
}
use zdx_paralell_pyxel_vm.Cluster.Log.Intact.{IsLog, IsReplica, Agree, append-merge-IsLog}
use zdx_paralell_pyxel_vm.Cluster.Queue.{Queue, Lease, materialized, lease_matches}
use zdx_paralell_pyxel_vm.Cluster.Queue.Converges.{merge_converges}
use zdx_paralell_pyxel_vm.Cluster.Master.{payload_for, complete_task}
use zdx_paralell_pyxel_vm.Cluster.Master.Effects.{complete_task-ends, IsLast}

abbrev a_digest : Operation → String
a_digest o = o.operation_id

abbrev a_task : ClusterTask
a_task = record { task_id = "t"; memory_mb = 64; threads = 1; created_at = 1; rest = [] }

abbrev a_submission : Operation
a_submission =
    built a_digest "op1" 1 "task_submit" (record (payload_for "t") { task = some a_task }) "m"

abbrev a_claim : Operation
a_claim =
    built a_digest "op2" 2 "lease_claim"
      (record (payload_for "t") {
        worker_id = some "w";
        lease_id = some "l";
        lease_until = some 60;
      })
      "w"

abbrev one_operation : String → Operation → Snapshot
one_operation id o = record { version = 1; cluster_id = "c"; operations = (id, o) ∷ [] }

abbrev submitted : Snapshot
submitted = one_operation "op1" a_submission

abbrev claiming : Snapshot
claiming = one_operation "op2" a_claim

abbrev running_task : Snapshot
running_task = record {
  version = 1;
  cluster_id = "c";
  operations = ("op2", a_claim) ∷ ("op1", a_submission) ∷ [];
}

one_operation-IsLog :
    (id : String) (o : Operation)
    → is_intact a_digest id o ≡ true
    → IsLog a_digest (one_operation id o).operations
unfolding get
one_operation-IsLog id o h = record {
  keys_once = (refl, tt);
  intact = λ j p e. ground (arith, e, h, eq_iff id j);
}

append-merge-IsLog_example :
    IsLog a_digest
      (append a_digest "op2" 2 "lease_claim" (payload_for "t") "w" submitted).0.operations
    × IsLog a_digest (merge a_digest claiming submitted).0.operations
append-merge-IsLog_example =
    append-merge-IsLog a_digest submitted claiming "op2" "lease_claim" "w" 2 (payload_for "t")
      (one_operation-IsLog "op1" a_submission (unfold operation_hash in refl))

submitted-IsReplica : IsReplica a_digest "c" submitted
submitted-IsReplica = record {
  first_version = refl;
  same_cluster = refl;
  bounded = refl;
  log = one_operation-IsLog "op1" a_submission (unfold operation_hash in refl);
}

claiming-IsReplica : IsReplica a_digest "c" claiming
claiming-IsReplica = record {
  first_version = refl;
  same_cluster = refl;
  bounded = refl;
  log = one_operation-IsLog "op2" a_claim (unfold operation_hash in refl);
}

only_key :
    (id k : String) (v o : Operation) → get k (one_operation id v).operations ≡ some o → k ≡ id
unfolding get
only_key id k v o e = ground (arith, e, eq_iff id k)

replicas-Agree : Agree a_digest submitted claiming
replicas-Agree id o p e f =
    let first : id ≡ "op1" = only_key "op1" id a_submission o e in
    let second : id ≡ "op2" = only_key "op2" id a_claim p f in
    let same : str_eq "op1" "op2" ≡ true = (eq_iff "op1" "op2").1 (sym first ∙ second) in cc same

merge_converges_example :
    (m n : ℕ) × ((merge a_digest claiming submitted).1 ≡ ok m)
    × ((merge a_digest submitted claiming).1 ≡ ok n)
    × (materialized (merge a_digest claiming submitted).0
        ≡ materialized (merge a_digest submitted claiming).0)
merge_converges_example =
    merge_converges a_digest "c" submitted claiming submitted-IsReplica claiming-IsReplica
      replicas-Agree

running_task-IsLast : IsLast 3 running_task.operations
unfolding get
running_task-IsLast id o e = ground (arith, e)

abbrev running_queue : Queue
running_queue = record {
  queued = [];
  running = ("t", record { task = a_task; worker_id = "w"; lease_id = "l"; lease_until = 60 }) ∷ [];
  completed = [];
  failed = [];
  contributions = [];
}

complete_task-ends_example :
    (after : Queue) × (r : Lease) × (materialized
        (complete_task a_digest "op3" 3 "t" "l" [] [] "w" running_task).0
      ≡ ok after)
    × (get "t" running_queue.running ≡ some r)
    × (lease_matches r (some "l") ≡ true)
    × (get "t" after.running ≡ none)
    × (get "t" after.queued ≡ none)
    × (get "t" after.completed
        ≡ some (record {
          lease = r;
          payload = record (payload_for "t") { lease_id = some "l"; rest = [] };
        }))
unfolding materialized complete_task get sort_by insert delete append
complete_task-ends_example =
    complete_task-ends a_digest running_task running_queue "op3" 3 "t" "l" "w" [] [] "op3"
      (refl, (refl, tt)) refl running_task-IsLast refl refl refl
