-- ===== src/Compute/Requests.antt =====
-- The coordinator as its callers use it: a sequence of requests, each with its readings of the clock.
use zdx_paralell_pyxel_vm.Base.{ℕ, ◌<◌, ◌≡◌, String, Option, List, [], ◌∷◌, arith}
use zdx_paralell_pyxel_vm.Base.Dict.{get}
use zdx_paralell_pyxel_vm.Compiler.Text.{Text}
use zdx_paralell_pyxel_vm.Compute.Task.{ComputeTask}
use zdx_paralell_pyxel_vm.Compute.Coordinator.{
  Worker, Config, State, coordinator, empty_state, submit, register_worker, status,
}
use zdx_paralell_pyxel_vm.Compute.Claim.{claim}
use zdx_paralell_pyxel_vm.Compute.Finish.{complete, release, fail}
use zdx_paralell_pyxel_vm.Compute.Consistent.{IsConsistent, places}
use zdx_paralell_pyxel_vm.Compute.Consistent.Steps.{
  submit-IsConsistent, register_worker-IsConsistent, complete-IsConsistent, release-IsConsistent,
  fail-IsConsistent, requeue_expired-IsConsistent,
}
use zdx_paralell_pyxel_vm.Compute.Consistent.Claims.{claim-IsConsistent}

-- The public methods that change the state.
pub data Request : Type 0 where
  submitting : ComputeTask → Request
  registering : String → Worker → Request
  claiming : ℕ → ℕ → ℕ → String → String → ℕ → ℕ → Request
  completing : ℕ → String → String → Text → Option String → Request
  releasing failing : ℕ → String → String → String → Option String → Request
  asking : ℕ → Request

-- The state that a request leaves, answered or refused.
unfoldable pub serve : Config → State → Request → State
serve k s (submitting t) = (submit t s).0
serve k s (registering id w) = (register_worker id w s).0
serve k s (claiming expiry visit now lease id available cpus) =
    (claim k expiry visit now lease id available cpus s).0
serve k s (completing now worker id result lease) = (complete now worker id result lease s).0
serve k s (releasing now worker id reason lease) = (release k now worker id reason lease s).0
serve k s (failing now worker id error lease) = (fail now worker id error lease s).0
serve k s (asking now) = status k now s

unfoldable pub serve_all : Config → State → List Request → State
unfolding serve
serve_all k s [] = s
serve_all k s (q ∷ qs) = serve_all k (serve k s q) qs

serve-IsConsistent :
    (k : Config) (known : String → ℕ) (s : State) (q : Request)
    → 0 < k.max_attempts
    → IsConsistent k known s
    → IsConsistent k known (serve k s q)
unfolding serve status
serve-IsConsistent k known s (submitting t) h c = submit-IsConsistent k known t s h c
serve-IsConsistent k known s (registering id w) h c = register_worker-IsConsistent k known id w s c
serve-IsConsistent k known s (claiming expiry visit now lease id available cpus) h c =
    claim-IsConsistent k known expiry visit now lease id available cpus s c
serve-IsConsistent k known s (completing now worker id result lease) h c =
    complete-IsConsistent k known now worker id result lease s c
serve-IsConsistent k known s (releasing now worker id reason lease) h c =
    release-IsConsistent k known now worker id reason lease s c
serve-IsConsistent k known s (failing now worker id error lease) h c =
    fail-IsConsistent k known now worker id error lease s c
serve-IsConsistent k known s (asking now) h c = requeue_expired-IsConsistent k known now s c

serve_all-IsConsistent :
    (k : Config) (known : String → ℕ) (s : State) (qs : List Request)
    → 0 < k.max_attempts
    → IsConsistent k known s
    → IsConsistent k known (serve_all k s qs)
unfolding serve_all
serve_all-IsConsistent k known s [] h c = c
serve_all-IsConsistent k known s (q ∷ qs) h c =
    serve_all-IsConsistent k known (serve k s q) qs h (serve-IsConsistent k known s q h c)

empty-IsConsistent : (k : Config) → IsConsistent k (λ id. 0) empty_state
unfolding get
empty-IsConsistent k = record {
  queue_keys = tt;
  one_place = λ id. omega arith;
  kept = λ id. omega arith;
  waiting = λ id t e. cc;
  leases = λ id r e. cc;
  failures = λ id f e. cc;
}

-- Whatever requests a coordinator without a state file has served, with whatever clock readings, and
-- whichever of them it refused: no task is in two of its queues; what is queued or running is valid and
-- filed under its own id; a queued task has attempts left; a running task's count of attempts, and a
-- failed task's, is within max_attempts.
pub served-IsConsistent :
    (lease_seconds max_attempts : ℕ) (qs : List Request)
    → IsConsistent
        (coordinator lease_seconds max_attempts)
        (λ id. 0)
        (serve_all (coordinator lease_seconds max_attempts) empty_state qs)
served-IsConsistent lease_seconds max_attempts qs =
    let k = coordinator lease_seconds max_attempts in
    serve_all-IsConsistent k (λ id. 0) empty_state qs (omega arith) (empty-IsConsistent k)

-- No request loses a task: an id that is in one of the four queues after some requests is in exactly one
-- of them after any further requests.
pub served_task_stays :
    (lease_seconds max_attempts : ℕ) (qs more : List Request) (id : String)
    → places id (serve_all (coordinator lease_seconds max_attempts) empty_state qs) ≡ 1
    → places id (
        serve_all
          (coordinator lease_seconds max_attempts)
          (serve_all (coordinator lease_seconds max_attempts) empty_state qs)
          more)
      ≡ 1
served_task_stays lease_seconds max_attempts qs more id h =
    let k = coordinator lease_seconds max_attempts in
    let s = serve_all k empty_state qs in
    let c = served-IsConsistent lease_seconds max_attempts qs in
    let start : IsConsistent k (λ j. places j s) s = record {
      queue_keys = c.queue_keys;
      one_place = c.one_place;
      kept = λ j. omega arith;
      waiting = c.waiting;
      leases = c.leases;
      failures = c.failures;
    } in
    let after = serve_all-IsConsistent k (λ j. places j s) s more (omega arith) start in
    omega (arith, h, after.one_place id, after.kept id)
