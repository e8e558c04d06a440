-- ===== src/Compute/Leases.antt =====
-- Leases: the sweep of the expired ones, and the check of a worker that ends one.
use zdx_paralell_pyxel_vm.Base.{
  ℕ, ◌<◌, ◌≡◌, ◌≢◌, refl, String, Bool, true, false, Option, none, some, List, [], ◌∷◌, arith, leb,
  ltb, length, str_eq, eq_iff, if◌then◌else◌, Bool-cases, Option-cases, inl, inr, ◌⊎◌,
}
use zdx_paralell_pyxel_vm.Base.Dict.{Dict, get, delete, get-delete}
use zdx_paralell_pyxel_vm.Base.Results.{ok, err}
use zdx_paralell_pyxel_vm.Compiler.Text.{Text}
use zdx_paralell_pyxel_vm.Compute.Coordinator.{
  Running, Config, State, requeue_one, requeue_all, requeue_expired, expired, retire, attempts_of,
  max_result_bytes, not_leased, stale_lease, CoordinatorError,
}
use zdx_paralell_pyxel_vm.Compute.Finish.{leased, complete, release, fail}

-- A sweep takes no id into `running`, and leaves none of those that it is given.
requeue_one-running :
    (k : Config) (now : ℕ) (id : String) (s : State)
    → (requeue_one k now id s).running
      ≡ (elim (get id s.running) [ none ↦ s.running | some r ↦ delete id s.running ])
unfolding requeue_one
requeue_one-running k now id s = elim (Option-cases (get id s.running)) [
  | inl gone ↦ rw (gone, requeue_one) refl
  | inr (r, runs) ↦ rw (runs, requeue_one) (kept (attempts_of (get id s.attempts) r) r)
]
  where
    kept :
        (n : ℕ) (r : Running)
        → (retire k id
            (record r.task { metadata = record r.task.metadata { lease_id = none } })
            r
            now
            "lease expired"
            n
            (record s { running = delete id s.running })).running
          ≡ delete id s.running
    kept n r = elim (Bool-cases (leb k.max_attempts n)) [
      | inl last ↦ rw last refl
      | inr more ↦ rw more refl
    ]

requeue_one-get :
    (k : Config) (now : ℕ) (id j : String) (s : State)
    → get j (requeue_one k now id s).running ≡ (if str_eq id j then none else get j s.running)
requeue_one-get k now id j s = ground (
  arith,
  requeue_one-running k now id s,
  get-delete id j s.running,
  Option-cases (get id s.running),
  eq_iff id j,
)

unfoldable among : String → List String → Bool
among j [] = false
among j (i ∷ is) = if str_eq i j then true else among j is

requeue_all-get :
    (k : Config) (now : ℕ) (ids : List String) (j : String) (s : State)
    → get j (requeue_all k now ids s).running ≡ (if among j ids then none else get j s.running)
unfolding requeue_all among
requeue_all-get k now [] j s = refl
requeue_all-get k now (id ∷ ids) j s =
    ground
      (arith, requeue_all-get k now ids j (requeue_one k now id s), requeue_one-get k now id j s)

-- What `get` finds running and is not listed as expired has time left.
expired-time :
    (now : ℕ) (rs : Dict Running) (j : String) (r : Running)
    → get j rs ≡ some r
    → among j (expired now rs) ≡ false
    → now < r.lease_until
unfolding get expired among
expired-time now [] j r e h = cc
expired-time now ((id, q) ∷ rs) j r e h = ground (arith, expired-time now rs j r, eq_iff id j)

-- After a sweep every running task has time left on its lease, and is a task that ran before it.
requeue_expired-time :
    (k : Config) (now : ℕ) (s : State) (id : String) (r : Running)
    → get id (requeue_expired k now s).running ≡ some r
    → (now < r.lease_until) × (get id s.running ≡ some r)
unfolding requeue_expired
requeue_expired-time k now s id r e = ground (
  arith,
  requeue_all-get k now (expired now s.running) id s,
  expired-time now s.running id r,
  Bool-cases (among id (expired now s.running)),
)

-- Without the lease a worker changes nothing: where the task does not run, runs for another worker, or
-- runs under another lease id than the one that is given, `complete`, `release` and `fail` raise and
-- leave the state as it was.
pub unleased_refused :
    (k : Config) (now : ℕ) (worker id reason : String) (result : Text) (lease : String) (s : State)
    → ((r : Running) → get id s.running ≡ some r → (r.worker_id ≢ worker) ⊎ (r.lease_id ≢ lease))
    → ((complete now worker id result (some lease) s).0 ≡ s)
      × ((release k now worker id reason (some lease) s).0 ≡ s)
      × ((fail now worker id reason (some lease) s).0 ≡ s)
      × ((complete now worker id result (some lease) s).1 ≢ ok tt)
      × ((release k now worker id reason (some lease) s).1 ≢ ok tt)
      × ((fail now worker id reason (some lease) s).1 ≢ ok tt)
unfolding complete release fail
unleased_refused k now worker id reason result lease s other =
    let (e, refused) = no_lease (get id s.running) other in
    elim (Bool-cases (ltb max_result_bytes (length result))) [
      | inl long ↦
          rw (long, refused, complete, release, fail) (refl, refl, refl, λ h. cc, λ h. cc, λ h. cc)
      | inr short ↦
          rw (short, refused, complete, release, fail) (refl, refl, refl, λ h. cc, λ h. cc, λ h. cc)
    ]
  where
    no_lease :
        (o : Option Running)
        → ((r : Running) → o ≡ some r → (r.worker_id ≢ worker) ⊎ (r.lease_id ≢ lease))
        → (e : CoordinatorError) × (leased worker (some lease) o ≡ err e)
    no_lease none h = (not_leased, unfold leased in refl)
    no_lease (some r) h = elim (h r refl) [
      | inl worker_differs ↦
          (not_leased, unfold leased in ground (arith, eq_iff r.worker_id worker, worker_differs))
      | inr lease_differs ↦ elim (Bool-cases (str_eq r.worker_id worker)) [
        | inl same ↦ (
          stale_lease,
          unfold leased in ground (arith, eq_iff r.lease_id lease, lease_differs, same),
        )
        | inr differs ↦ (not_leased, unfold leased in ground (arith, differs))
      ]
    ]
