-- ===== src/Compute/Consistent/Steps.antt =====
-- The operations other than `claim` and the invariant of the state.
use zdx_paralell_pyxel_vm.Base.{
  ℕ, ◌<◌, ◌≡◌, String, false, Option, none, some, List, [], ◌∷◌, arith, str_eq, eq_iff, Bool-cases,
  Option-cases, inl, inr, ltb, length,
}
use zdx_paralell_pyxel_vm.Base.Dict.{get, insert, insert-IsDict, get-insert, contains_lem}
use zdx_paralell_pyxel_vm.Base.Results.{ok, Result-cases}
use zdx_paralell_pyxel_vm.Compiler.Text.{Text}
use zdx_paralell_pyxel_vm.Compute.Task.{ComputeTask, validate}
use zdx_paralell_pyxel_vm.Compute.Task.Valid.{validate_again, validate_lease}
use zdx_paralell_pyxel_vm.Compute.Coordinator.{
  Running, Worker, Config, State, without_lease, submit, register_worker, requeue_one, requeue_all,
  requeue_expired, expired, is_known, max_result_bytes,
}
use zdx_paralell_pyxel_vm.Compute.Finish.{leased, complete, release, fail, with_reason}
use zdx_paralell_pyxel_vm.Compute.Consistent.{
  IsConsistent, retire-IsConsistent, failed-IsConsistent, completed-IsConsistent,
}

module _ (k : Config) (known : String → ℕ) where
  requeue_one-IsConsistent :
      (now : ℕ) (id : String) (s : State)
      → IsConsistent k known s
      → IsConsistent k known (requeue_one k now id s)
  unfolding requeue_one
  requeue_one-IsConsistent now id s c = elim (Option-cases (get id s.running)) [
    | inl gone ↦ rw (gone, requeue_one) c
    | inr (r, runs) ↦
        let (own, valid, _, _) = c.leases id r runs in
        rw (runs, requeue_one)
          (retire-IsConsistent k known s c id r runs (without_lease r.task) now "lease expired" own
            (validate_lease r.task none r.task.metadata.last_release_reason valid))
  ]

  requeue_all-IsConsistent :
      (now : ℕ) (ids : List String) (s : State)
      → IsConsistent k known s
      → IsConsistent k known (requeue_all k now ids s)
  unfolding requeue_all
  requeue_all-IsConsistent now [] s c = c
  requeue_all-IsConsistent now (id ∷ ids) s c =
      requeue_all-IsConsistent now ids (requeue_one k now id s)
        (requeue_one-IsConsistent now id s c)

  pub requeue_expired-IsConsistent :
      (now : ℕ) (s : State)
      → IsConsistent k known s
      → IsConsistent k known (requeue_expired k now s)
  unfolding requeue_expired
  requeue_expired-IsConsistent now s c = requeue_all-IsConsistent now (expired now s.running) s c

  leased_runs :
      (worker : String) (lease : Option String) (o : Option Running) (r : Running)
      → leased worker lease o ≡ ok r
      → o ≡ some r
  unfolding leased
  leased_runs worker lease none r h = cc
  leased_runs worker lease (some q) r h = ground (arith, h)

  pub complete-IsConsistent :
      (now : ℕ) (worker id : String) (result : Text) (lease : Option String) (s : State)
      → IsConsistent k known s
      → IsConsistent k known (complete now worker id result lease s).0
  unfolding complete
  complete-IsConsistent now worker id result lease s c =
      elim (Bool-cases (ltb max_result_bytes (length result))) [
        | inl long ↦ rw (long, complete) c
        | inr short ↦ elim (Result-cases (leased worker lease (get id s.running))) [
          | inl (e, refused) ↦ rw (short, refused, complete) c
          | inr (r, granted) ↦
              rw (short, granted, complete)
                (completed-IsConsistent k known s c id r
                  (leased_runs worker lease (get id s.running) r granted) _)
        ]
      ]

  pub release-IsConsistent :
      (now : ℕ) (worker id reason : String) (lease : Option String) (s : State)
      → IsConsistent k known s
      → IsConsistent k known (release k now worker id reason lease s).0
  unfolding release
  release-IsConsistent now worker id reason lease s c =
      elim (Result-cases (leased worker lease (get id s.running))) [
        | inl (e, refused) ↦ rw (refused, release) c
        | inr (r, granted) ↦
            let runs = leased_runs worker lease (get id s.running) r granted in
            let (own, valid, _, _) = c.leases id r runs in
            rw (granted, release)
              (retire-IsConsistent k known s c id r runs (with_reason reason r.task) now reason own
                (validate_lease r.task none (some reason) valid))
      ]

  pub fail-IsConsistent :
      (now : ℕ) (worker id error : String) (lease : Option String) (s : State)
      → IsConsistent k known s
      → IsConsistent k known (fail now worker id error lease s).0
  unfolding fail
  fail-IsConsistent now worker id error lease s c =
      elim (Result-cases (leased worker lease (get id s.running))) [
        | inl (e, refused) ↦ rw (refused, fail) c
        | inr (r, granted) ↦
            let runs = leased_runs worker lease (get id s.running) r granted in
            rw (granted, fail)
              (failed-IsConsistent k known s c id r runs _ (ground (arith, c.leases id r runs)))
      ]

  pub submit-IsConsistent :
      (t : ComputeTask) (s : State)
      → 0 < k.max_attempts
      → IsConsistent k known s
      → IsConsistent k known (submit t s).0
  unfolding submit
  submit-IsConsistent t s some_attempt c = elim (Result-cases (validate t)) [
    | inl (e, refused) ↦ rw (refused, submit) c
    | inr (u, valid) ↦ elim (Bool-cases (is_known u.task_id s)) [
      | inl old ↦ rw (valid, old, submit) c
      | inr new ↦ rw (valid, new, submit) (fresh u (validate_again t u valid) new)
    ]
  ]
    where
      fresh :
          (u : ComputeTask)
          → validate u ≡ ok u
          → is_known u.task_id s ≡ false
          → IsConsistent k known (record s {
            queued = insert u.task_id u s.queued;
            attempts = insert u.task_id 0 s.attempts;
          })
      fresh u valid new =
          let id = u.task_id in
          record {
            queue_keys = insert-IsDict id u s.queued c.queue_keys;
            one_place = λ j. ground (
              arith,
              c.one_place j,
              get-insert id j u s.queued,
              eq_iff id j,
              contains_lem id s.queued,
              contains_lem id s.running,
              contains_lem id s.completed,
              contains_lem id s.failed,
              new,
            );
            kept = λ j. ground (
              arith,
              c.kept j,
              c.one_place j,
              get-insert id j u s.queued,
              eq_iff id j,
              contains_lem id s.queued,
              contains_lem id s.running,
              contains_lem id s.completed,
              contains_lem id s.failed,
              new,
            );
            waiting = λ j w e. ground (
              arith,
              c.waiting j w,
              get-insert id j u s.queued,
              get-insert id j 0 s.attempts,
              eq_iff id j,
              e,
              valid,
              some_attempt,
            );
            leases = λ j r e. ground (
              arith,
              c.leases j r e,
              get-insert id j 0 s.attempts,
              eq_iff id j,
              contains_lem id s.running,
              new,
            );
            failures = c.failures;
          }

  pub register_worker-IsConsistent :
      (id : String) (w : Worker) (s : State)
      → IsConsistent k known s
      → IsConsistent k known (register_worker id w s).0
  unfolding register_worker
  register_worker-IsConsistent id w s c = elim (Bool-cases (str_eq id "")) [
    | inl empty ↦ rw (empty, register_worker) c
    | inr named ↦
        rw (named, register_worker)
          (record {
            queue_keys = c.queue_keys;
            one_place = c.one_place;
            kept = c.kept;
            waiting = c.waiting;
            leases = c.leases;
            failures = c.failures;
          })
  ]
