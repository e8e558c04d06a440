-- ===== src/Compute/Consistent/Claims.antt =====
-- `claim` and the invariant of the state.
use zdx_paralell_pyxel_vm.Base.{
  ℕ, ◌+◌, ◌≡◌, refl, ◌∙◌, String, true, Option, none, some, arith, eq_iff, Option-cases, inl, inr,
  ap,
}
use zdx_paralell_pyxel_vm.Base.Dict.{
  get, insert, delete, delete-IsDict, get-insert, get-delete, values, values-AllOf,
}
use zdx_paralell_pyxel_vm.Base.Results.{ok, Result-cases}
use zdx_paralell_pyxel_vm.Compute.Task.{ComputeTask, validate}
use zdx_paralell_pyxel_vm.Compute.Task.Valid.{validate_lease}
use zdx_paralell_pyxel_vm.Compute.Coordinator.{Running, Worker, Config, State, requeue_expired}
use zdx_paralell_pyxel_vm.Compute.Claim.{
  count_of, candidate, start, seen, claim_for, claim, fits, effective_memory, effective_cpu, sorted,
}
use zdx_paralell_pyxel_vm.Compute.Claim.Picks.{sorted-AllOf, pick-found}
use zdx_paralell_pyxel_vm.Compute.Consistent.{IsConsistent}
use zdx_paralell_pyxel_vm.Compute.Consistent.Steps.{requeue_expired-IsConsistent}

module _ (k : Config) (known : String → ℕ) where
  leased-IsConsistent :
      (s : State) (id : String) (t : ComputeTask) (r : Running)
      → IsConsistent k known s
      → get id s.queued ≡ some t
      → r.task.task_id ≡ id
      → validate r.task ≡ ok r.task
      → r.attempts ≡ count_of (get id s.attempts) + 1
      → IsConsistent k known (record s {
        queued = delete id s.queued;
        attempts = insert id r.attempts s.attempts;
        running = insert id r s.running;
      })
  leased-IsConsistent s id t r c waits own valid counted = record {
    queue_keys = delete-IsDict id s.queued c.queue_keys;
    one_place = λ j. ground (
      arith,
      c.one_place j,
      get-delete id j s.queued,
      get-insert id j r s.running,
      eq_iff id j,
      waits,
    );
    kept = λ j. ground (
      arith,
      c.kept j,
      c.one_place j,
      get-delete id j s.queued,
      get-insert id j r s.running,
      eq_iff id j,
      waits,
    );
    waiting = λ j u e. ground (
      arith,
      c.waiting j u,
      e,
      get-delete id j s.queued,
      get-insert id j r.attempts s.attempts,
      eq_iff id j,
    );
    leases = λ j q e. ground (
      arith,
      c.leases j q,
      e,
      c.waiting id t waits,
      get-insert id j r s.running,
      get-insert id j r.attempts s.attempts,
      eq_iff id j,
      own,
      valid,
      counted,
    );
    failures = c.failures;
  }

  -- The task that the loop picks is queued under its id.
  pub candidate-found :
      (s : State) (id : String) (w : Worker) (available cpus : ℕ) (t : ComputeTask)
      → IsConsistent k known s
      → candidate id w available cpus s ≡ ok (some t)
      → (get t.task_id s.queued ≡ some t)
        × (validate t ≡ ok t)
        × (fits (effective_memory id w available s) (effective_cpu id w cpus s) w.vm_features t
            ≡ true)
  candidate-found s id w available cpus t c h =
      let P : ComputeTask → Type 0 = λ u. (get u.task_id s.queued ≡ some u) × (validate u ≡ ok u) in
      let filed = values-AllOf P s.queued c.queue_keys (λ j u e.
        let (own, valid, _) = c.waiting j u e in (ap (λ i. get i s.queued) own ∙ e, valid)) in
      let (raw, p, checked, fit) =
        pick-found P _ _ _ (sorted (values s.queued)) t (sorted-AllOf P (values s.queued) filed)
          h in
      let same : raw ≡ t = ground (arith, p.1, checked) in (rw same at p.0, rw same at p.1, fit)

  claim_for-IsConsistent :
      (now : ℕ) (lease id : String) (w : Worker) (available cpus : ℕ) (s : State)
      → IsConsistent k known s
      → IsConsistent k known (claim_for k now lease id w available cpus s).0
  unfolding claim_for start
  claim_for-IsConsistent now lease id w available cpus s c =
      elim (Result-cases (candidate id w available cpus s)) [
        | inl (e, refused) ↦ rw (refused, claim_for) c
        | inr (o, found) ↦ picked o found
      ]
    where
      picked :
          (o : Option ComputeTask)
          → candidate id w available cpus s ≡ ok o
          → IsConsistent k known (claim_for k now lease id w available cpus s).0
      picked none found = rw (found, claim_for) c
      picked (some t) found =
          let (waits, valid, _) = candidate-found s id w available cpus t c found in
          rw (found, claim_for)
            (leased-IsConsistent s t.task_id t _ c waits refl
              (validate_lease t (some lease) t.metadata.last_release_reason valid) refl)

  pub seen-IsConsistent :
      (visit : ℕ) (id : String) (w : Worker) (s : State)
      → IsConsistent k known s
      → IsConsistent k known (seen visit id w s)
  seen-IsConsistent visit id w s c = record {
    queue_keys = c.queue_keys;
    one_place = c.one_place;
    kept = c.kept;
    waiting = c.waiting;
    leases = c.leases;
    failures = c.failures;
  }

  pub claim-IsConsistent :
      (expiry visit now : ℕ) (lease id : String) (available cpus : ℕ) (s : State)
      → IsConsistent k known s
      → IsConsistent k known (claim k expiry visit now lease id available cpus s).0
  unfolding claim
  claim-IsConsistent expiry visit now lease id available cpus s c =
      let r = requeue_expired k expiry s in
      let kept : IsConsistent k known r = requeue_expired-IsConsistent k known expiry s c in
      elim (Option-cases (get id r.workers)) [
        | inl unknown ↦ rw (unknown, claim) kept
        | inr (w, there) ↦
            rw (there, claim)
              (claim_for-IsConsistent now lease id w available cpus (seen visit id w r)
                (seen-IsConsistent visit id w r kept))
      ]
