-- ===== src/Compute/Finish.antt =====
-- The ways in which a worker ends a lease: `complete`, `release` and `fail`.
use zdx_paralell_pyxel_vm.Base.{
  ℕ, String, Bool, true, not, Option, none, some, ltb, str_eq, if◌then◌else◌, length,
}
use zdx_paralell_pyxel_vm.Base.Dict.{get, insert, delete}
use zdx_paralell_pyxel_vm.Base.Results.{Result, ok, err}
use zdx_paralell_pyxel_vm.Compiler.Text.{Text}
use zdx_paralell_pyxel_vm.Compute.Task.{ComputeTask}
use zdx_paralell_pyxel_vm.Compute.Coordinator.{
  Running, Config, State, CoordinatorError, Reply, result_too_large, not_leased, stale_lease,
  max_result_bytes, attempts_of, retire,
}

-- `_validate_lease_locked`: a lease id that is not given is not checked.
abbrev pub lease_matches : Running → Option String → Bool
lease_matches r none = true
lease_matches r (some lease) = str_eq r.lease_id lease

-- The checks that the three operations begin with.
unfoldable pub leased : String → Option String → Option Running → Result CoordinatorError Running
leased worker lease none = err not_leased
leased worker lease (some r) =
    if not (str_eq r.worker_id worker)
    then err not_leased
    else if lease_matches r lease
    then ok r
    else err stale_lease

abbrev pub completed_state : ℕ → String → Text → Running → State → State
completed_state now id result r s = record s {
  running = delete id s.running;
  attempts = delete id s.attempts;
  completed =
      insert id
        (record { task = r.task; worker_id = r.worker_id; completed_at = now; result = result })
        s.completed;
}

unfoldable pub complete : ℕ → String → String → Text → Option String → State → Reply (Unit {0})
unfolding leased
complete now worker id result lease s =
    if ltb max_result_bytes (length result)
    then (s, err result_too_large)
    else elim (leased worker lease (get id s.running)) [
      | err e ↦ (s, err e)
      | ok r ↦ (completed_state now id result r s, ok tt)
    ]

abbrev pub with_reason : String → ComputeTask → ComputeTask
with_reason reason t = record t {
  metadata = record t.metadata { lease_id = none; last_release_reason = some reason };
}

unfoldable pub release :
    Config → ℕ → String → String → String → Option String → State → Reply (Unit {0})
unfolding leased
release k now worker id reason lease s = elim (leased worker lease (get id s.running)) [
  | err e ↦ (s, err e)
  | ok r ↦ (
    retire k id (with_reason reason r.task) r now reason (attempts_of (get id s.attempts) r)
        (record s { running = delete id s.running }),
    ok tt,
  )
]

abbrev pub failed_state : ℕ → String → String → Running → State → State
failed_state now id error r s = record s {
  running = delete id s.running;
  attempts = delete id s.attempts;
  failed =
      insert id
        (record {
          task = r.task;
          worker_id = r.worker_id;
          failed_at = now;
          error = error;
          attempts = attempts_of (get id s.attempts) r;
        })
        s.failed;
}

unfoldable pub fail : ℕ → String → String → String → Option String → State → Reply (Unit {0})
unfolding leased
fail now worker id error lease s = elim (leased worker lease (get id s.running)) [
  | err e ↦ (s, err e)
  | ok r ↦ (failed_state now id error r s, ok tt)
]
