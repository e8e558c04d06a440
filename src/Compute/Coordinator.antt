-- ===== src/Compute/Coordinator.antt =====
-- ComputeCoordinator: the state that it keeps and its operations. The readings of the clock and the
-- fresh lease ids are arguments. An operation returns the state that it leaves, also where it raises.
-- `_save`, which writes the state to its file, is left out.
use zdx_paralell_pyxel_vm.Base.{
  ℕ, max, String, Bool, ◌||◌, Option, none, some, List, [], ◌∷◌, leb, str_eq, if◌then◌else◌,
}
use zdx_paralell_pyxel_vm.Base.Dict.{Dict, get, contains, insert, delete}
use zdx_paralell_pyxel_vm.Base.Results.{Result, ok, err}
use zdx_paralell_pyxel_vm.Compiler.Text.{Text}
use zdx_paralell_pyxel_vm.Compute.Task.{ComputeTask, TaskError, validate}

-- The capabilities that `claim` reads: a limit is `none` where it is absent or no integer.
pub record Worker : Type 0 where
  pub memory_mb : Option ℕ
  pub memory_limit_mb : Option ℕ
  pub cpu_count : Option ℕ
  pub vm_features : List String
  pub last_seen : ℕ

pub record Running : Type 0 where
  pub task : ComputeTask
  pub worker_id : String
  pub leased_at : ℕ
  pub lease_until : ℕ
  pub lease_id : String
  pub attempts : ℕ

-- `result` is the JSON text, as UTF-8.
pub record Completed : Type 0 where
  pub task : ComputeTask
  pub worker_id : String
  pub completed_at : ℕ
  pub result : Text

pub record Failed : Type 0 where
  pub task : ComputeTask
  pub worker_id : String
  pub failed_at : ℕ
  pub error : String
  pub attempts : ℕ

pub record Config : Type 0 where
  pub lease_seconds : ℕ
  pub max_attempts : ℕ

pub record State : Type 0 where
  pub queued : Dict ComputeTask
  pub running : Dict Running
  pub completed : Dict Completed
  pub failed : Dict Failed
  pub workers : Dict Worker
  pub attempts : Dict ℕ

pub data CoordinatorError : Type 0 where
  invalid_task : TaskError → CoordinatorError
  task_exists worker_unknown : String → CoordinatorError
  worker_id_required not_leased stale_lease result_too_large : CoordinatorError

-- `__init__`, without a state file.
abbrev pub coordinator : ℕ → ℕ → Config
coordinator lease_seconds max_attempts = record {
  lease_seconds = max 1 lease_seconds;
  max_attempts = max 1 max_attempts;
}

abbrev pub empty_state : State
empty_state = record {
  queued = [];
  running = [];
  completed = [];
  failed = [];
  workers = [];
  attempts = [];
}

abbrev pub max_result_bytes : ℕ
max_result_bytes = 1048576

abbrev pub Reply : Type 0 → Type 0
Reply A = State × Result CoordinatorError A

abbrev pub is_known : String → State → Bool
is_known id s =
    contains id s.queued || contains id s.running || contains id s.completed || contains id s.failed

unfoldable pub submit : ComputeTask → State → Reply ComputeTask
submit t s = elim (validate t) [
  | err e ↦ (s, err (invalid_task e))
  | ok u ↦ if is_known u.task_id s then (s, err (task_exists u.task_id)) else (
    record s { queued = insert u.task_id u s.queued; attempts = insert u.task_id 0 s.attempts },
    ok u,
  )
]

unfoldable pub register_worker : String → Worker → State → Reply (Unit {0})
register_worker id w s =
    if str_eq id ""
    then (s, err worker_id_required)
    else (record s { workers = insert id w s.workers }, ok tt)

-- `int(self._state["attempts"].get(task_id, running.get("attempts", 1)))`
abbrev pub attempts_of : Option ℕ → Running → ℕ
attempts_of none r = r.attempts
attempts_of (some n) r = n

abbrev pub without_lease : ComputeTask → ComputeTask
without_lease t = record t { metadata = record t.metadata { lease_id = none } }

-- The end of an attempt that did not complete, once the record has left `running`: failed after the
-- last attempt, queued again before it.
abbrev pub retire : Config → String → ComputeTask → Running → ℕ → String → ℕ → State → State
retire k id t r now error n s =
    if leb k.max_attempts n
    then record s {
      failed =
          insert id
            (record {
              task = t;
              worker_id = r.worker_id;
              failed_at = now;
              error = error;
              attempts = n;
            })
            s.failed;
      attempts = delete id s.attempts;
    }
    else record s { queued = insert id t s.queued }

-- One round of `_requeue_expired_locked`.
unfoldable pub requeue_one : Config → ℕ → String → State → State
requeue_one k now id s = elim (get id s.running) [
  | none ↦ s
  | some r ↦
      retire k id (without_lease r.task) r now "lease expired" (attempts_of (get id s.attempts) r)
        (record s { running = delete id s.running })
]

unfoldable pub expired : ℕ → Dict Running → List String
expired now [] = []
expired now ((id, r) ∷ rs) =
    let rest = expired now rs in if leb r.lease_until now then id ∷ rest else rest

unfoldable pub requeue_all : Config → ℕ → List String → State → State
unfolding requeue_one
requeue_all k now [] s = s
requeue_all k now (id ∷ ids) s = requeue_all k now ids (requeue_one k now id s)

unfoldable pub requeue_expired : Config → ℕ → State → State
unfolding requeue_all expired
requeue_expired k now s = requeue_all k now (expired now s.running) s

-- `status` returns the state that it leaves.
unfoldable pub status : Config → ℕ → State → State
unfolding requeue_expired
status k now s = requeue_expired k now s
