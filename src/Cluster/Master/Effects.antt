-- ===== src/Cluster/Master/Effects.antt =====
-- What an operation appended last does to the queue.
use zdx_paralell_pyxel_vm.Base.{
  ℕ, ◌≡◌, refl, ap, String, true, false, none, some, List, [], ◌∷◌, ◌++◌, ltb, str_eq, eq_iff,
  length, arith, Bool-cases, Option-cases, inl, inr,
}
use zdx_paralell_pyxel_vm.Base.Dict.{
  Dict, get, insert, get-insert, get-delete, IsDict, values, AllOf, values-AllOf,
}
use zdx_paralell_pyxel_vm.Base.Results.{Result, ok, err, ◌>>=◌, Result-cases}
use zdx_paralell_pyxel_vm.Base.Sort.{insert_by, sort_by}
use zdx_paralell_pyxel_vm.Compiler.Text.{Text}
use zdx_paralell_pyxel_vm.Cluster.Log.{Payload, Operation, Snapshot, ClusterError, append, built}
use zdx_paralell_pyxel_vm.Cluster.Queue.{
  earlier_operation, ordered_operations, materialized, apply_operations, apply_operation, Queue,
  Lease, empty_queue, lease_matches, complete_operation,
}
use zdx_paralell_pyxel_vm.Cluster.Master.{end_lease, complete_task, payload_for}

-- The clock is later than every operation of the log.
abbrev pub IsLast : ℕ → Dict Operation → Type 0
IsLast now log = (id : String) (o : Operation) → get id log ≡ some o → ltb o.timestamp now ≡ true

insert-absent :
    (id : String) (o : Operation) (log : Dict Operation)
    → get id log ≡ none
    → values (insert id o log) ≡ values log ++ (o ∷ [])
unfolding get insert
insert-absent id o [] h = refl
insert-absent id o ((j, p) ∷ log) h = elim (Bool-cases (str_eq j id)) [
  | inl same ↦ cc (rw (same, get) at h)
  | inr other ↦ rw (other, insert) (ap (λ t. p ∷ t) (insert-absent id o log (rw (other, get) at h)))
]

insert_by-last :
    (p o : Operation) (l : List Operation)
    → ltb p.timestamp o.timestamp ≡ true
    → insert_by earlier_operation p (l ++ (o ∷ [])) ≡ insert_by earlier_operation p l ++ (o ∷ [])
unfolding insert_by earlier_operation
insert_by-last p o [] h = ground (arith, h)
insert_by-last p o (q ∷ l) h = ground (arith, insert_by-last p o l h)

sort_by-last :
    (o : Operation) (l : List Operation)
    → AllOf (λ p. ltb p.timestamp o.timestamp ≡ true) l
    → sort_by earlier_operation (l ++ (o ∷ [])) ≡ sort_by earlier_operation l ++ (o ∷ [])
unfolding sort_by insert_by
sort_by-last o [] h = refl
sort_by-last o (p ∷ l) h =
    rw (sort_by-last o l h.1) (insert_by-last p o (sort_by earlier_operation l) h.0)

bind_ok_right : (r : Result ClusterError Queue) → (r >>= λ q. ok q) ≡ r
bind_ok_right (err e) = refl
bind_ok_right (ok q) = refl

apply_operations-last :
    (l : List Operation) (o : Operation) (q : Queue)
    → apply_operations (l ++ (o ∷ [])) q ≡ (apply_operations l q >>= apply_operation o)
unfolding apply_operations
apply_operations-last [] o q = bind_ok_right (apply_operation o q)
apply_operations-last (p ∷ l) o q = elim (Result-cases (apply_operation p q)) [
  | inl (e, h) ↦ rw h refl
  | inr (r, h) ↦ rw h (apply_operations-last l o r)
]

module _ (digest : Operation → String) where
  module _ (s : Snapshot) (id : String) (now : ℕ) (once : IsDict s.operations)
      (fresh : get id s.operations ≡ none) (last : IsLast now s.operations) where
    materialized-append :
        (kind origin : String) (payload : Payload) (x : String)
        → (append digest id now kind payload origin s).1 ≡ ok x
        → materialized (append digest id now kind payload origin s).0
          ≡ (materialized s >>= apply_operation (built digest id now kind payload origin))
    unfolding append materialized
    materialized-append kind origin payload x h =
        let o : Operation = built digest id now kind payload origin in
        let grown : (append digest id now kind payload origin s).0.operations
            ≡ insert id o s.operations =
          ground (arith, h) in
        rw
          (
            grown,
            insert-absent id o s.operations fresh,
            sort_by-last o (values s.operations)
                (values-AllOf (λ p. ltb p.timestamp now ≡ true) s.operations once last),
          )
          (apply_operations-last (ordered_operations s.operations) o empty_queue)

  -- A completion that succeeds is that of the lease that runs.
  module _ (s : Snapshot) (q : Queue) (fresh : String) (now : ℕ) (task_id lease origin : String)
      (result rest : Text) where
    abbrev pub completion : Payload
    completion = record (payload_for task_id) { lease_id = some lease; rest = rest }

    complete_task-appends :
        (x : String)
        → materialized s ≡ ok q
        → (complete_task digest fresh now task_id lease result rest origin s).1 ≡ ok x
        → (r : Lease) × (get task_id q.running ≡ some r)
          × (lease_matches r (some lease) ≡ true)
          × (complete_task digest fresh now task_id lease result rest origin s
              ≡ append digest fresh now "task_complete" completion origin s)
    unfolding complete_task end_lease
    complete_task-appends x m h = elim (Bool-cases (ltb 1048576 (length result))) [
      | inl big ↦ cc (rw (big, complete_task) at h)
      | inr fits ↦ elim (Option-cases (get task_id q.running)) [
        | inl none_runs ↦ cc (rw (fits, m, none_runs, complete_task, end_lease) at h)
        | inr (r, runs) ↦ elim (Bool-cases (lease_matches r (some lease))) [
          | inl held ↦ (r, runs, held, rw (fits, m, runs, held, complete_task, end_lease) refl)
          | inr stale ↦ cc (rw (fits, m, runs, stale, complete_task, end_lease) at h)
        ]
      ]
    ]

    complete_operation-lem :
        (r : Lease)
        → get task_id q.running ≡ some r
        → lease_matches r (some lease) ≡ true
        → (after : Queue) × (complete_operation task_id completion q ≡ after)
          × (get task_id after.running ≡ none)
          × (get task_id after.queued ≡ none)
          × (get task_id after.completed ≡ some (record { lease = r; payload = completion }))
    unfolding complete_operation
    complete_operation-lem r runs held = (
      complete_operation task_id completion q,
      refl,
      ground (arith, runs, held, get-delete task_id task_id q.running, eq_iff task_id task_id),
      ground (arith, runs, held, get-delete task_id task_id q.queued, eq_iff task_id task_id),
      ground (
        arith,
        runs,
        held,
        get-insert task_id task_id (record { lease = r; payload = completion }) q.completed,
        eq_iff task_id task_id,
      ),
    )

    -- A completion that succeeds, where the task has a name, the operation id is new and the clock is
    -- later than every operation of the log, ends the task: the running lease was the one given, and
    -- then the task is neither running nor queued, and completed with that lease and the given result.
    pub complete_task-ends :
        (x : String)
        → IsDict s.operations
        → get fresh s.operations ≡ none
        → IsLast now s.operations
        → materialized s ≡ ok q
        → str_eq task_id "" ≡ false
        → (complete_task digest fresh now task_id lease result rest origin s).1 ≡ ok x
        → (after : Queue) × (r : Lease) × (materialized
              (complete_task digest fresh now task_id lease result rest origin s).0
            ≡ ok after)
          × (get task_id q.running ≡ some r)
          × (lease_matches r (some lease) ≡ true)
          × (get task_id after.running ≡ none)
          × (get task_id after.queued ≡ none)
          × (get task_id after.completed ≡ some (record { lease = r; payload = completion }))
    unfolding apply_operation
    complete_task-ends x once absent last m named h =
        let (r, runs, held, same) = complete_task-appends x m h in
        let (after, is, gone, unqueued, ended) = complete_operation-lem r runs held in
        (
          after,
          r,
          rw
              (
                same,
                materialized-append s fresh now once absent last "task_complete" origin completion x
                    (rw same at h),
                m,
                apply_operation,
                named,
                is,
              )
              refl,
          runs,
          held,
          gone,
          unqueued,
          ended,
        )
