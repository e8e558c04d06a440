-- ===== src/Compute/Oldest.antt =====
-- Which of the tasks that fit `claim` takes.
use zdx_paralell_pyxel_vm.Base.{
  ℕ, ◌≡◌, ◌∙◌, refl, String, true, false, Option, none, some, ap, subst,
}
use zdx_paralell_pyxel_vm.Base.Dict.{get, values, values-AllOf}
use zdx_paralell_pyxel_vm.Base.Results.{Result, ok, err}
use zdx_paralell_pyxel_vm.Compute.Task.{ComputeTask, TaskError, validate}
use zdx_paralell_pyxel_vm.Compute.Coordinator.{Worker, Config, State, requeue_expired}
use zdx_paralell_pyxel_vm.Compute.Claim.{
  effective_memory, effective_cpu, fits, candidate, seen, claim_for, claim, sorts_before, sorted,
  with_lease,
}
use zdx_paralell_pyxel_vm.Compute.Claim.Picks.{sorted-AllOf}
use zdx_paralell_pyxel_vm.Compute.Claim.Order.{
  sorted-IsSorted, unsorted-AllOf, get-AllOf, pick-first,
}
use zdx_paralell_pyxel_vm.Compute.Consistent.{IsConsistent}
use zdx_paralell_pyxel_vm.Compute.Consistent.Steps.{requeue_expired-IsConsistent}
use zdx_paralell_pyxel_vm.Compute.Consistent.Claims.{seen-IsConsistent}
use zdx_paralell_pyxel_vm.Compute.Admission.{requeue_expired-workers}

module _ (k : Config) (known : String → ℕ) (v : State) (c : IsConsistent k known v) where
  candidate_oldest :
      (id : String) (w : Worker) (available cpus : ℕ) (t u : ComputeTask) (j : String)
      → candidate id w available cpus v ≡ ok (some t)
      → get j v.queued ≡ some u
      → fits (effective_memory id w available v) (effective_cpu id w cpus v) w.vm_features u ≡ true
      → sorts_before u t ≡ false
  candidate_oldest id w available cpus t u j found there fit =
      let memory = effective_memory id w available v in
      let cpu = effective_cpu id w cpus v in
      let P : ComputeTask → Type 0 =
        λ x. fits memory cpu w.vm_features x ≡ true → sorts_before x t ≡ false in
      let valid =
        sorted-AllOf (λ x. validate x ≡ ok x) (values v.queued)
          (values-AllOf (λ x. validate x ≡ ok x) v.queued c.queue_keys
            (λ i x e. (c.waiting i x e).1)) in
      let first =
        pick-first memory cpu w.vm_features (sorted (values v.queued)) t
          (sorted-IsSorted (values v.queued)) valid found in
      get-AllOf P v.queued j u (unsorted-AllOf P (values v.queued) first) there fit

  claim_for_oldest :
      (now : ℕ) (lease id : String) (w : Worker) (available cpus : ℕ) (t u : ComputeTask)
      (j : String)
      → (claim_for k now lease id w available cpus v).1 ≡ ok (some t)
      → get j v.queued ≡ some u
      → fits (effective_memory id w available v) (effective_cpu id w cpus v) w.vm_features u ≡ true
      → sorts_before u t ≡ false
  unfolding claim_for sorts_before
  claim_for_oldest now lease id w available cpus t u j given there fit =
      split (candidate id w available cpus v) refl
    where
      split :
          (m : Result TaskError (Option ComputeTask))
          → candidate id w available cpus v ≡ m
          → sorts_before u t ≡ false
      split (err e) found = cc (rw (found, claim_for) at given)
      split (ok none) found = cc (rw (found, claim_for) at given)
      split (ok (some x)) found =
          let same : with_lease lease x ≡ t = cc (rw (found, claim_for) at given) in
          subst (λ y. sorts_before u y ≡ false) same
            (candidate_oldest id w available cpus x u j found there fit)

module _ (k : Config) (known : String → ℕ) (s : State) (c : IsConsistent k known s) where
  -- The task that a registered worker is given is the oldest, and among the oldest the first by its id, of
  -- those that are queued after the sweep and fit the worker.
  pub claim_oldest :
      (expiry visit now : ℕ) (lease id : String) (w : Worker) (available cpus : ℕ)
      (t u : ComputeTask) (j : String)
      → get id s.workers ≡ some w
      → (claim k expiry visit now lease id available cpus s).1 ≡ ok (some t)
      → get j (requeue_expired k expiry s).queued ≡ some u
      → fits
          (effective_memory id w available (requeue_expired k expiry s))
          (effective_cpu id w cpus (requeue_expired k expiry s))
          w.vm_features
          u
        ≡ true
      → sorts_before u t ≡ false
  unfolding claim
  claim_oldest expiry visit now lease id w available cpus t u j there given waits fit =
      let r = requeue_expired k expiry s in
      let kept = requeue_expired-IsConsistent k known expiry s c in
      let still : get id r.workers ≡ some w =
        ap (λ d. get id d) (requeue_expired-workers k expiry s) ∙ there in
      claim_for_oldest k known (seen visit id w r) (seen-IsConsistent k known visit id w r kept) now
        lease id w available cpus t u j (rw (still, claim) at given) waits fit
