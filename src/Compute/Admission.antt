-- ===== src/Compute/Admission.antt =====
-- The admission of tasks by `claim`: memory, threads, features, and the validation of what is queued.
use zdx_paralell_pyxel_vm.Base.{
  subst, ℕ, ◌+◌, ◌≤◌, ◌≡◌, refl, ◌∙◌, String, true, Option, none, some, List, [], ◌∷◌, arith, leb,
  eq_iff, Bool-cases, Option-cases, inl, inr, ap,
}
use zdx_paralell_pyxel_vm.Base.Dict.{Dict, get, insert, delete, AllOf, values, values-AllOf}
use zdx_paralell_pyxel_vm.Base.Results.{Result, ok, err}
use zdx_paralell_pyxel_vm.Compute.Task.{ComputeTask, TaskError, validate}
use zdx_paralell_pyxel_vm.Compute.Task.Valid.{validate_positive}
use zdx_paralell_pyxel_vm.Compute.Coordinator.{
  Running, Worker, Config, State, requeue_one, requeue_all, requeue_expired, expired, retire,
  attempts_of, without_lease,
}
use zdx_paralell_pyxel_vm.Compute.Claim.{
  reserved, memory_cap, cpu_cap, effective_memory, effective_cpu, all_members, fits, pick,
  candidate, start, seen, claim_for, claim, count_of, lease_record, sorted, with_lease,
}
use zdx_paralell_pyxel_vm.Compute.Claim.Picks.{sorted-AllOf}
use zdx_paralell_pyxel_vm.Compute.Consistent.{IsConsistent}
use zdx_paralell_pyxel_vm.Compute.Consistent.Steps.{requeue_expired-IsConsistent}
use zdx_paralell_pyxel_vm.Compute.Consistent.Claims.{candidate-found, seen-IsConsistent}

requeue_one-workers :
    (k : Config) (now : ℕ) (id : String) (s : State) → (requeue_one k now id s).workers ≡ s.workers
unfolding requeue_one
requeue_one-workers k now id s = elim (Option-cases (get id s.running)) [
  | inl gone ↦ rw (gone, requeue_one) refl
  | inr (r, runs) ↦ rw (runs, requeue_one) (kept (attempts_of (get id s.attempts) r) r)
]
  where
    kept :
        (n : ℕ) (r : Running)
        → (retire k id
            (without_lease r.task)
            r
            now
            "lease expired"
            n
            (record s { running = delete id s.running })).workers
          ≡ s.workers
    kept n r = elim (Bool-cases (leb k.max_attempts n)) [
      | inl last ↦ rw last refl
      | inr more ↦ rw more refl
    ]

requeue_all-workers :
    (k : Config) (now : ℕ) (ids : List String) (s : State)
    → (requeue_all k now ids s).workers ≡ s.workers
unfolding requeue_all
requeue_all-workers k now [] s = refl
requeue_all-workers k now (id ∷ ids) s =
    requeue_all-workers k now ids (requeue_one k now id s) ∙ requeue_one-workers k now id s

pub requeue_expired-workers :
    (k : Config) (now : ℕ) (s : State) → (requeue_expired k now s).workers ≡ s.workers
unfolding requeue_expired
requeue_expired-workers k now s = requeue_all-workers k now (expired now s.running) s

pick_answers :
    (memory cpu : ℕ) (features : List String) (raws : List ComputeTask)
    → AllOf (λ u. validate u ≡ ok u) raws
    → (o : Option ComputeTask) × (pick memory cpu features raws ≡ ok o)
unfolding pick
pick_answers memory cpu features [] a = (none, refl)
pick_answers memory cpu features (raw ∷ rest) a = elim (Bool-cases (fits memory cpu features raw)) [
  | inl fit ↦ (some raw, rw (a.0, fit, pick) refl)
  | inr over ↦ let (o, e) = pick_answers memory cpu features rest a.1 in (o, rw (a.0, over, pick) e)
]

reserved-insert :
    (amount : ComputeTask → ℕ) (worker id : String) (r : Running) (d : Dict Running)
    → get id d ≡ none
    → r.worker_id ≡ worker
    → reserved amount worker (insert id r d) ≡ reserved amount worker d + amount r.task
unfolding reserved get insert
reserved-insert amount worker id r [] h own = ground (arith, eq_iff r.worker_id worker, own)
reserved-insert amount worker id r ((j, q) ∷ d) h own =
    ground (arith, reserved-insert amount worker id r d, own, h)

abbrev pub HasRoom : String → Worker → ℕ → ℕ → ComputeTask → State → Type 0
HasRoom id w available cpus t s =
    (reserved (λ u. u.memory_mb) id s.running ≤ memory_cap w available)
    × (reserved (λ u. u.threads) id s.running ≤ cpu_cap w cpus)
    × (all_members t.metadata.required_vm_features w.vm_features ≡ true)

module _ (k : Config) (known : String → ℕ) (v : State) (c : IsConsistent k known v) where
  started_within :
      (now : ℕ) (lease id : String) (w : Worker) (available cpus : ℕ) (u : ComputeTask)
      → candidate id w available cpus v ≡ ok (some u)
      → HasRoom id w available cpus (with_lease lease u) (start k id lease now u v)
  unfolding start fits
  started_within now lease id w available cpus u found =
      let (waits, valid, fit) = candidate-found k known v id w available cpus u c found in
      let positive = validate_positive u u valid in
      let idle : get u.task_id v.running ≡ none = ground (arith, c.one_place u.task_id, waits) in
      let n = count_of (get u.task_id v.attempts) + 1 in
      let r = lease_record k id lease now n u in
      (
        ground (
          arith,
          reserved-insert (λ x. x.memory_mb) id u.task_id r v.running idle refl,
          fit,
          positive,
        ),
        ground (
          arith,
          reserved-insert (λ x. x.threads) id u.task_id r v.running idle refl,
          fit,
          positive,
        ),
        ground (arith, fit),
      )

  claim_for_within :
      (now : ℕ) (lease id : String) (w : Worker) (available cpus : ℕ) (t : ComputeTask)
      → (claim_for k now lease id w available cpus v).1 ≡ ok (some t)
      → HasRoom id w available cpus t (claim_for k now lease id w available cpus v).0
  unfolding claim_for
  claim_for_within now lease id w available cpus t given =
      split (candidate id w available cpus v) refl
    where
      split :
          (m : Result TaskError (Option ComputeTask))
          → candidate id w available cpus v ≡ m
          → HasRoom id w available cpus t (claim_for k now lease id w available cpus v).0
      split (err e) found = cc (rw (found, claim_for) at given)
      split (ok none) found = cc (rw (found, claim_for) at given)
      split (ok (some u)) found =
          let same : with_lease lease u ≡ t = cc (rw (found, claim_for) at given) in
          rw (found, claim_for)
            (subst (λ x. HasRoom id w available cpus x (start k id lease now u v)) same
              (started_within now lease id w available cpus u found))

module _ (k : Config) (known : String → ℕ) (s : State) (c : IsConsistent k known s) where
  -- From a consistent state the claim of a registered worker returns a task or None: it does not raise.
  pub claim_answers :
      (expiry visit now : ℕ) (lease id : String) (w : Worker) (available cpus : ℕ)
      → get id s.workers ≡ some w
      → (o : Option ComputeTask) × ((claim k expiry visit now lease id available cpus s).1 ≡ ok o)
  unfolding claim claim_for
  claim_answers expiry visit now lease id w available cpus there =
      let r = requeue_expired k expiry s in
      let kept = requeue_expired-IsConsistent k known expiry s c in
      let still : get id r.workers ≡ some w =
        ap (λ d. get id d) (requeue_expired-workers k expiry s) ∙ there in
      let v = seen visit id w r in
      let valid =
        sorted-AllOf (λ u. validate u ≡ ok u) (values r.queued)
          (values-AllOf (λ u. validate u ≡ ok u) r.queued kept.queue_keys
            (λ j u e. (kept.waiting j u e).1)) in
      let (o, found) =
        pick_answers (effective_memory id w available v) (effective_cpu id w cpus v) w.vm_features
          (sorted (values r.queued)) valid in
      answer still o found
    where
      answer :
          let r = requeue_expired k expiry s in
          get id r.workers ≡ some w
          → (o : Option ComputeTask) → candidate id w available cpus (seen visit id w r) ≡ ok o
          → (o' : Option ComputeTask) × ((claim k expiry visit now lease id available cpus s).1
              ≡ ok o')
      answer still none found = (none, rw (still, claim, found, claim_for) refl)
      answer still (some t) found =
          (some (with_lease lease t), rw (still, claim, found, claim_for) refl)

  -- A worker that is given a task then has no more memory and no more threads in its running tasks than
  -- the claim offers and its registered limits allow, and it has every feature that the task requires.
  pub claim_within_limits :
      (expiry visit now : ℕ) (lease id : String) (w : Worker) (available cpus : ℕ) (t : ComputeTask)
      → get id s.workers ≡ some w
      → (claim k expiry visit now lease id available cpus s).1 ≡ ok (some t)
      → HasRoom id w available cpus t (claim k expiry visit now lease id available cpus s).0
  unfolding claim
  claim_within_limits expiry visit now lease id w available cpus t there given =
      let r = requeue_expired k expiry s in
      let kept = requeue_expired-IsConsistent k known expiry s c in
      let still : get id r.workers ≡ some w =
        ap (λ d. get id d) (requeue_expired-workers k expiry s) ∙ there in
      rw (still, claim)
        (claim_for_within k known (seen visit id w r) (seen-IsConsistent k known visit id w r kept)
          now lease id w available cpus t (rw (still, claim) at given))
