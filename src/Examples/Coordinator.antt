-- ===== src/Examples/Coordinator.antt =====
-- A coordinator with two tasks and one worker.
use zdx_paralell_pyxel_vm.Base.{
  false, ℕ, ◌≡◌, ◌≢◌, refl, String, Option, none, some, List, [], ◌∷◌, arith, eq_iff, inr,
}
use zdx_paralell_pyxel_vm.Base.Dict.{get, insert, contains}
use zdx_paralell_pyxel_vm.Base.Results.{ok}
use zdx_paralell_pyxel_vm.Compiler.Text.{codes, text_lt}
use zdx_paralell_pyxel_vm.Compute.Task.{
  ComputeTask, Metadata, validate, with_digests, with_artifact, check_limits, with_spatial, lower,
  all_hex, member,
}
use zdx_paralell_pyxel_vm.Compute.Coordinator.{
  Worker, Running, State, coordinator, empty_state, submit, register_worker, requeue_expired,
  requeue_all, expired,
}
use zdx_paralell_pyxel_vm.Compute.Claim.{
  claim, claim_for, pick, fits, start, reserved, sorted, insert_sorted, sorts_before, all_members,
  with_lease,
}
use zdx_paralell_pyxel_vm.Compute.Finish.{complete, release, fail}
use zdx_paralell_pyxel_vm.Compute.Consistent.{IsConsistent, places}
use zdx_paralell_pyxel_vm.Compute.Requests.{
  Request, submitting, registering, claiming, releasing, asking, serve, serve_all,
  served-IsConsistent, served_task_stays,
}
use zdx_paralell_pyxel_vm.Compute.Admission.{HasRoom, claim_answers, claim_within_limits}
use zdx_paralell_pyxel_vm.Compute.Oldest.{claim_oldest}
use zdx_paralell_pyxel_vm.Compute.Leases.{unleased_refused}

abbrev plain_metadata : Metadata
plain_metadata = record {
  execution_model = none;
  required_vm_features = "spatial-png-v1" ∷ [];
  spatial_layout = none;
  spatial_version = none;
  lease_id = none;
  last_release_reason = none;
}

abbrev task : String → ℕ → ComputeTask
task id created_at = record {
  frame_path = "frame.png";
  frame_sha256 = [];
  artifact_digest = none;
  memory_mb = 256;
  threads = 2;
  task_id = id;
  max_seconds = 300;
  created_at = created_at;
  metadata = plain_metadata;
}

abbrev worker : Worker
worker = record {
  memory_mb = some 1024;
  memory_limit_mb = some 512;
  cpu_count = some 8;
  vm_features = "spatial-png-v1" ∷ [];
  last_seen = 0;
}

abbrev setup : List Request
setup = submitting (task "a" 2) ∷ submitting (task "b" 1) ∷ registering "w" worker ∷ []

abbrev ready : State
ready = serve_all (coordinator 60 3) empty_state setup

ready-IsConsistent : IsConsistent (coordinator 60 3) (λ id. 0) ready
ready-IsConsistent = served-IsConsistent 60 3 setup

-- The older task is claimed, released, claimed again, and its lease runs out.
abbrev busy : List Request
busy =
    claiming 10 10 10 "l1" "w" 4096 4
    ∷ releasing 20 "w" "b" "low memory" (some "l1")
    ∷ claiming 30 30 30 "l2" "w" 4096 4
    ∷ asking 200
    ∷ []

served-IsConsistent_example :
    IsConsistent (coordinator 60 3) (λ id. 0) (serve_all (coordinator 60 3) empty_state busy)
served-IsConsistent_example = served-IsConsistent 60 3 busy

served_task_stays_example : places "b" (serve_all (coordinator 60 3) ready busy) ≡ 1
unfolding serve_all serve submit register_worker validate with_digests check_limits with_spatial
    lower member contains get insert
served_task_stays_example = served_task_stays 60 3 setup busy "b" refl

claim_answers_example :
    (o : Option ComputeTask) × ((claim (coordinator 60 3) 10 10 10 "l1" "w" 4096 4 ready).1 ≡ ok o)
unfolding serve_all serve submit register_worker validate with_digests check_limits with_spatial
    lower member contains get insert
claim_answers_example =
    claim_answers (coordinator 60 3) (λ id. 0) ready ready-IsConsistent 10 10 10 "l1" "w" worker
      4096 4 refl

claim_within_limits_example :
    HasRoom "w" worker 4096 4
      (with_lease "l1" (task "b" 1))
      (claim (coordinator 60 3) 10 10 10 "l1" "w" 4096 4 ready).0
unfolding serve_all serve submit register_worker validate with_digests check_limits with_spatial
    lower member contains get insert claim claim_for pick fits start reserved sorted insert_sorted
    sorts_before text_lt all_members requeue_expired requeue_all expired
claim_within_limits_example =
    claim_within_limits (coordinator 60 3) (λ id. 0) ready ready-IsConsistent 10 10 10 "l1" "w"
      worker 4096 4 (with_lease "l1" (task "b" 1)) refl refl

claim_oldest_example : sorts_before (task "a" 2) (with_lease "l1" (task "b" 1)) ≡ false
unfolding serve_all serve submit register_worker validate with_digests check_limits with_spatial
    lower member contains get insert claim claim_for pick fits start reserved sorted insert_sorted
    sorts_before text_lt all_members requeue_expired requeue_all expired
claim_oldest_example =
    claim_oldest (coordinator 60 3) (λ id. 0) ready ready-IsConsistent 10 10 10 "l1" "w" worker 4096
      4 (with_lease "l1" (task "b" 1)) (task "a" 2) "a" refl refl refl refl

abbrev lease_of_b : Running
lease_of_b = record {
  task = with_lease "l1" (task "b" 1);
  worker_id = "w";
  leased_at = 10;
  lease_until = 70;
  lease_id = "l1";
  attempts = 1;
}

abbrev running_b : State
running_b = record empty_state { running = ("b", lease_of_b) ∷ [] }

only_lease : (r : Running) → get "b" running_b.running ≡ some r → r.lease_id ≡ "l1"
unfolding get
only_lease r e = ground (arith, e)

unleased_refused_example :
    ((complete 20 "w" "b" [] (some "l0") running_b).0 ≡ running_b)
    × ((release (coordinator 60 3) 20 "w" "b" "done" (some "l0") running_b).0 ≡ running_b)
    × ((fail 20 "w" "b" "done" (some "l0") running_b).0 ≡ running_b)
    × ((complete 20 "w" "b" [] (some "l0") running_b).1 ≢ ok tt)
    × ((release (coordinator 60 3) 20 "w" "b" "done" (some "l0") running_b).1 ≢ ok tt)
    × ((fail 20 "w" "b" "done" (some "l0") running_b).1 ≢ ok tt)
unleased_refused_example =
    unleased_refused (coordinator 60 3) 20 "w" "b" "done" [] "l0" running_b
      (λ r e. inr (λ same. ground (arith, only_lease r e, same, eq_iff "l1" "l0")))

-- A digest in upper case is stored in lower case.
abbrev shouted : ComputeTask
shouted = record (task "a" 2) {
  artifact_digest = some (codes "ABCDEF0123456789ABCDEF0123456789ABCDEF0123456789ABCDEF0123456789");
}

abbrev lowered : ComputeTask
lowered = record (task "a" 2) {
  frame_sha256 = codes "abcdef0123456789abcdef0123456789abcdef0123456789abcdef0123456789";
  artifact_digest = some (codes "abcdef0123456789abcdef0123456789abcdef0123456789abcdef0123456789");
}

digest_lowered : validate shouted ≡ ok lowered
unfolding validate with_digests with_artifact check_limits with_spatial lower all_hex member
digest_lowered = refl
