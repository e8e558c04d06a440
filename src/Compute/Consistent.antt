-- ===== src/Compute/Consistent.antt =====
-- The invariant of the coordinator's state: a task is in one place, what is queued or running is valid
-- and filed under its own id, and attempts stay within the bound.
pub mod Steps
pub mod Claims
use zdx_paralell_pyxel_vm.Base.{
  ℕ, ◌+◌, ◌≤◌, ◌<◌, ◌≡◌, refl, String, true, false, Option, none, some, arith, leb, str_eq, eq_iff,
  if◌then◌else◌, Bool-cases, Option-cases, inl, inr,
}
use zdx_paralell_pyxel_vm.Base.Dict.{
  Dict, get, insert, delete, IsDict, insert-IsDict, delete-IsDict, get-insert, get-delete,
}
use zdx_paralell_pyxel_vm.Base.Results.{ok}
use zdx_paralell_pyxel_vm.Compute.Task.{ComputeTask, validate}
use zdx_paralell_pyxel_vm.Compute.Claim.{count_of}
use zdx_paralell_pyxel_vm.Compute.Coordinator.{
  Running, Completed, Failed, Config, State, retire, attempts_of,
}

abbrev pub one {ℓ} : {A : Type ℓ} → Option A → ℕ
one none = 0
one (some a) = 1

-- In how many of the four queues the id is.
abbrev pub places : String → State → ℕ
places id s =
    one (get id s.queued)
    + one (get id s.running)
    + one (get id s.completed)
    + one (get id s.failed)

abbrev pub IsWaiting : Config → String → ComputeTask → State → Type 0
IsWaiting k id t s =
    (t.task_id ≡ id) × (validate t ≡ ok t) × (count_of (get id s.attempts) < k.max_attempts)

abbrev pub IsLeased : Config → String → Running → State → Type 0
IsLeased k id r s =
    (r.task.task_id ≡ id)
    × (validate r.task ≡ ok r.task)
    × (get id s.attempts ≡ some r.attempts)
    × (r.attempts ≤ k.max_attempts)

pub record IsConsistent (k : Config) (known : String → ℕ) (s : State) : Type 0 where
  pub queue_keys : IsDict s.queued
  pub one_place : (id : String) → places id s ≤ 1
  pub kept : (id : String) → known id ≤ places id s
  pub waiting : (id : String) (t : ComputeTask) → get id s.queued ≡ some t → IsWaiting k id t s
  pub leases : (id : String) (r : Running) → get id s.running ≡ some r → IsLeased k id r s
  pub failures : (id : String) (f : Failed) → get id s.failed ≡ some f → f.attempts ≤ k.max_attempts

-- A task that runs under `id` leaves `running` for one of the other queues.
module _ (k : Config) (known : String → ℕ) (s : State) (c : IsConsistent k known s) (id : String)
    (r : Running) (runs : get id s.running ≡ some r) where
  pub failed-IsConsistent :
      (f : Failed)
      → f.attempts ≤ k.max_attempts
      → IsConsistent k known (record s {
        running = delete id s.running;
        attempts = delete id s.attempts;
        failed = insert id f s.failed;
      })
  failed-IsConsistent f bound = record {
    queue_keys = c.queue_keys;
    one_place = λ j. ground (
      arith,
      c.one_place j,
      get-insert id j f s.failed,
      get-delete id j s.running,
      eq_iff id j,
      runs,
    );
    kept = λ j. ground (
      arith,
      c.kept j,
      c.one_place j,
      get-insert id j f s.failed,
      get-delete id j s.running,
      eq_iff id j,
      runs,
    );
    waiting = λ j t e. ground (arith, c.waiting j t e, get-delete id j s.attempts);
    leases = λ j q e.
        ground (arith, c.leases j q, get-delete id j s.attempts, get-delete id j s.running, e);
    failures = λ j g e. ground (arith, get-insert id j f s.failed, c.failures j g, bound, e);
  }

  pub completed-IsConsistent :
      (d : Completed)
      → IsConsistent k known (record s {
        running = delete id s.running;
        attempts = delete id s.attempts;
        completed = insert id d s.completed;
      })
  completed-IsConsistent d = record {
    queue_keys = c.queue_keys;
    one_place = λ j. ground (
      arith,
      c.one_place j,
      get-insert id j d s.completed,
      get-delete id j s.running,
      eq_iff id j,
      runs,
    );
    kept = λ j. ground (
      arith,
      c.kept j,
      c.one_place j,
      get-insert id j d s.completed,
      get-delete id j s.running,
      eq_iff id j,
      runs,
    );
    waiting = λ j t e. ground (arith, c.waiting j t e, get-delete id j s.attempts);
    leases = λ j q e.
        ground (arith, c.leases j q, get-delete id j s.attempts, get-delete id j s.running, e);
    failures = c.failures;
  }

  queued-IsConsistent :
      (t : ComputeTask)
      → t.task_id ≡ id
      → validate t ≡ ok t
      → r.attempts < k.max_attempts
      → IsConsistent k known
          (record s { queued = insert id t s.queued; running = delete id s.running })
  queued-IsConsistent t own valid more = record {
    queue_keys = insert-IsDict id t s.queued c.queue_keys;
    one_place = λ j. ground (
      arith,
      c.one_place j,
      get-insert id j t s.queued,
      get-delete id j s.running,
      eq_iff id j,
      runs,
    );
    kept = λ j. ground (
      arith,
      c.kept j,
      c.one_place j,
      get-insert id j t s.queued,
      get-delete id j s.running,
      eq_iff id j,
      runs,
    );
    waiting = λ j u e. ground (
      arith,
      c.waiting j u,
      c.leases id r runs,
      get-insert id j t s.queued,
      eq_iff id j,
      e,
      own,
      valid,
    );
    leases = λ j q e. ground (arith, c.leases j q, get-delete id j s.running, e);
    failures = c.failures;
  }

  pub retire-IsConsistent :
      (t : ComputeTask) (now : ℕ) (error : String)
      → t.task_id ≡ id
      → validate t ≡ ok t
      → IsConsistent k known (
          retire k id t r now error
            (attempts_of (get id s.attempts) r)
            (record s { running = delete id s.running }))
  retire-IsConsistent t now error own valid =
      let counted : attempts_of (get id s.attempts) r ≡ r.attempts =
        ground (arith, c.leases id r runs) in
      elim (Bool-cases (leb k.max_attempts r.attempts)) [
        | inl last ↦ rw (counted, last) (failed-IsConsistent _ (ground (arith, c.leases id r runs)))
        | inr more ↦ rw (counted, more) (queued-IsConsistent t own valid (ground (arith, more)))
      ]
