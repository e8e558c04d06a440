-- ===== src/Compute/Claim.antt =====
-- `ComputeCoordinator.claim`: admission by memory, processors and features, in the order of creation.
-- The clock is read three times, for the expired leases, for the worker and for the lease.
pub mod Picks
pub mod Order
use zdx_paralell_pyxel_vm.Base.{
  ℕ, zero, suc, ◌+◌, ◌-◌, min, max, String, Bool, true, false, not, ◌&&◌, ◌||◌, Option, none, some,
  List, [], ◌∷◌, ltb, leb, ◌==◌, str_eq, if◌then◌else◌,
}
use zdx_paralell_pyxel_vm.Base.Dict.{Dict, get, insert, delete, values}
use zdx_paralell_pyxel_vm.Base.Results.{Result, ok, err}
use zdx_paralell_pyxel_vm.Compiler.Text.{codes, text_lt}
use zdx_paralell_pyxel_vm.Compute.Task.{ComputeTask, TaskError, member, validate}
use zdx_paralell_pyxel_vm.Compute.Coordinator.{
  Worker, Running, Config, State, Reply, invalid_task, worker_unknown, requeue_expired,
}

-- The order of the sort keys.
unfoldable pub sorts_before : ComputeTask → ComputeTask → Bool
unfolding text_lt
sorts_before t u =
    ltb t.created_at u.created_at
    || (t.created_at == u.created_at && text_lt (codes t.task_id) (codes u.task_id))

-- `sorted`, which is stable.
unfoldable pub insert_sorted : ComputeTask → List ComputeTask → List ComputeTask
unfolding sorts_before
insert_sorted t [] = t ∷ []
insert_sorted t (u ∷ us) =
    let rest = insert_sorted t us in if sorts_before u t then u ∷ rest else t ∷ u ∷ us

unfoldable pub sorted : List ComputeTask → List ComputeTask
unfolding insert_sorted
sorted [] = []
sorted (t ∷ ts) = insert_sorted t (sorted ts)

-- A limit that is positive caps the amount.
abbrev pub capped : Option ℕ → ℕ → ℕ
capped none n = n
capped (some limit) n = if ltb 0 limit then min n limit else n

-- The sum over the records that the worker runs.
unfoldable pub reserved : (ComputeTask → ℕ) → String → Dict Running → ℕ
reserved amount worker [] = 0
reserved amount worker ((id, r) ∷ rs) =
    let rest = reserved amount worker rs in
    if str_eq r.worker_id worker then amount r.task + rest else rest

abbrev pub memory_cap : Worker → ℕ → ℕ
memory_cap w available = capped w.memory_limit_mb (capped w.memory_mb available)

abbrev pub cpu_cap : Worker → ℕ → ℕ
cpu_cap w cpus = capped w.cpu_count (max 1 cpus)

abbrev pub effective_memory : String → Worker → ℕ → State → ℕ
effective_memory id w available s =
    memory_cap w available - reserved (λ t. t.memory_mb) id s.running

abbrev pub effective_cpu : String → Worker → ℕ → State → ℕ
effective_cpu id w cpus s = cpu_cap w cpus - reserved (λ t. t.threads) id s.running

unfoldable pub all_members : List String → List String → Bool
all_members [] have = true
all_members (f ∷ fs) have = member f have && all_members fs have

unfoldable pub fits : ℕ → ℕ → List String → ComputeTask → Bool
unfolding all_members
fits memory cpu features t =
    leb t.memory_mb memory
    && leb t.threads cpu
    && all_members t.metadata.required_vm_features features

-- The loop over the candidates, up to its `return`.
unfoldable pub pick : ℕ → ℕ → List String → List ComputeTask → Result TaskError (Option ComputeTask)
unfolding fits
pick memory cpu features [] = ok none
pick memory cpu features (raw ∷ rest) =
    let later = pick memory cpu features rest in
    elim (validate raw) [
      | err e ↦ err e
      | ok t ↦ if fits memory cpu features t then ok (some t) else later
    ]

abbrev pub with_lease : String → ComputeTask → ComputeTask
with_lease lease t = record t { metadata = record t.metadata { lease_id = some lease } }

abbrev pub count_of : Option ℕ → ℕ
count_of none = 0
count_of (some n) = n

abbrev pub lease_record : Config → String → String → ℕ → ℕ → ComputeTask → Running
lease_record k worker lease now n t = record {
  task = with_lease lease t;
  worker_id = worker;
  leased_at = now;
  lease_until = now + min k.lease_seconds t.max_seconds;
  lease_id = lease;
  attempts = n;
}

-- What `claim` does with the task that it picked.
unfoldable pub start : Config → String → String → ℕ → ComputeTask → State → State
start k worker lease now t s =
    let n = count_of (get t.task_id s.attempts) + 1 in
    record s {
      queued = delete t.task_id s.queued;
      attempts = insert t.task_id n s.attempts;
      running = insert t.task_id (lease_record k worker lease now n t) s.running;
    }

-- `last_seen` is set before the candidates are looked at.
abbrev pub seen : ℕ → String → Worker → State → State
seen now id w s = record s { workers = insert id (record w { last_seen = now }) s.workers }

abbrev pub candidate : String → Worker → ℕ → ℕ → State → Result TaskError (Option ComputeTask)
candidate id w available cpus s =
    pick (effective_memory id w available s) (effective_cpu id w cpus s) w.vm_features
      (sorted (values s.queued))

-- The part of `claim` after the look-up of the worker.
unfoldable pub claim_for :
    Config → ℕ → String → String → Worker → ℕ → ℕ → State → Reply (Option ComputeTask)
unfolding pick start reserved sorted
claim_for k now lease id w available cpus s = elim (candidate id w available cpus s) [
  | err e ↦ (s, err (invalid_task e))
  | ok none ↦ (s, ok none)
  | ok (some t) ↦ (start k id lease now t s, ok (some (with_lease lease t)))
]

-- `claim`; `expiry`, `visit` and `now` are the readings of the clock, and `lease` the fresh lease id.
unfoldable pub claim :
    Config → ℕ → ℕ → ℕ → String → String → ℕ → ℕ → State → Reply (Option ComputeTask)
unfolding claim_for
claim k expiry visit now lease id available cpus s =
    let r = requeue_expired k expiry s in
    elim (get id r.workers) [
      | none ↦ (r, err (worker_unknown id))
      | some w ↦ claim_for k now lease id w available cpus (seen visit id w r)
    ]
