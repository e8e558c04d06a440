-- ===== src/Compute/Task/Valid.antt =====
-- `validate` on a task that it has returned.
use zdx_paralell_pyxel_vm.Base.{
  ◌<◌, ◌≡◌, refl, Bool, true, false, not, ◌&&◌, ◌||◌, Option, none, some, List, [], ◌∷◌, ◌++◌,
  arith, str_eq, eq_iff, String, Option-cases,
}
use zdx_paralell_pyxel_vm.Base.Results.{ok, ◌>>◌, refuse_if, bind_ok}
use zdx_paralell_pyxel_vm.Compiler.Text.{Text}
use zdx_paralell_pyxel_vm.Compiler.TextOrder.{same_text_refl}
use zdx_paralell_pyxel_vm.Compute.Task.{
  ComputeTask, lower, is_empty, is_digest, member, with_artifact, with_digests, check_limits,
  with_feature, with_layout, with_spatial, validate, spatial_png_feature, no_artifact,
  missing_fields,
}

lower-lower : (s : Text) → lower (lower s) ≡ lower s
unfolding lower
lower-lower [] = refl
lower-lower (c ∷ s) = ground (arith, lower-lower s)

with_artifact_again :
    (t u : ComputeTask) (artifact : Option Text)
    → lower t.frame_sha256 ≡ t.frame_sha256
    → (not (is_empty t.frame_sha256) && not (is_digest t.frame_sha256)) ≡ false
    → t.artifact_digest ≡ artifact
    → with_artifact t artifact ≡ ok u
    → with_digests u ≡ ok u
unfolding with_artifact with_digests
with_artifact_again t u none low hex a h = ground arith
with_artifact_again t u (some d) low hex a h =
    ground (arith, lower-lower d, same_text_refl (lower d), h)

with_digests_again : (t u : ComputeTask) → with_digests t ≡ ok u → with_digests u ≡ ok u
unfolding with_digests
with_digests_again t u h =
    let sha = lower t.frame_sha256 in
    with_artifact_again (record t { frame_sha256 = sha }) u t.artifact_digest
      (lower-lower t.frame_sha256) (ground (arith, h)) refl (ground (arith, h))

member-append : (s : String) (ts : List String) → member s (ts ++ s ∷ []) ≡ true
unfolding member
member-append s [] = ground (arith, eq_iff s s)
member-append s (t ∷ ts) = ground (arith, member-append s ts)

member_other :
    (s e : String) (ts : List String)
    → str_eq e s ≡ false
    → member s ts ≡ false
    → member s (ts ++ e ∷ []) ≡ false
unfolding member
member_other s e [] h k = ground arith
member_other s e (t ∷ ts) h k = ground (arith, member_other s e ts h)

with_feature_again : (ts : List String) → with_feature (with_feature ts) ≡ with_feature ts
with_feature_again ts = ground (arith, member-append spatial_png_feature ts)

with_spatial_again :
    (t u : ComputeTask)
    → check_limits t ≡ ok tt
    → with_spatial t ≡ ok u
    → (check_limits u ≡ ok tt) × (with_spatial u ≡ ok u)
unfolding check_limits with_spatial with_layout
with_spatial_again t u c h = ground (
  arith,
  with_feature_again t.metadata.required_vm_features,
  member_other "" spatial_png_feature t.metadata.required_vm_features refl,
)

-- The digests do not depend on the metadata.
with_digests_metadata :
    (w u : ComputeTask) → with_digests w ≡ ok w → with_spatial w ≡ ok u → with_digests u ≡ ok u
unfolding with_digests with_artifact with_spatial with_layout
with_digests_metadata w u d h = ground (arith, Option-cases w.artifact_digest)

abbrev lacks_fields : ComputeTask → Bool
lacks_fields t = str_eq t.task_id "" || (str_eq t.frame_path "" && no_artifact t.artifact_digest)

with_artifact_fields :
    (t w : ComputeTask) (artifact : Option Text)
    → t.artifact_digest ≡ artifact
    → lacks_fields t ≡ false
    → with_artifact t artifact ≡ ok w
    → lacks_fields w ≡ false
unfolding with_artifact
with_artifact_fields t w none a f h = ground arith
with_artifact_fields t w (some []) a f h = unfold lower in ground arith
with_artifact_fields t w (some (c ∷ d)) a f h = unfold lower in ground arith

with_digests_fields :
    (t w : ComputeTask) → lacks_fields t ≡ false → with_digests t ≡ ok w → lacks_fields w ≡ false
unfolding with_digests
with_digests_fields t w f h =
    with_artifact_fields (record t { frame_sha256 = lower t.frame_sha256 }) w t.artifact_digest refl
      f (ground (arith, h))

with_spatial_fields :
    (w u : ComputeTask) → lacks_fields w ≡ false → with_spatial w ≡ ok u → lacks_fields u ≡ false
unfolding with_spatial with_layout
with_spatial_fields w u f h = ground arith

validate-parts :
    (t u : ComputeTask)
    → validate t ≡ ok u
    → (lacks_fields t ≡ false)
      × (w : ComputeTask) × (with_digests t ≡ ok w)
      × (check_limits w ≡ ok tt)
      × (with_spatial w ≡ ok u)
unfolding validate
validate-parts t u h =
    let (w, e, rest) =
      bind_ok (refuse_if (lacks_fields t) missing_fields >> with_digests t)
        (λ v. check_limits v >> with_spatial v) h in
    let (x, present, digests) =
      bind_ok (refuse_if (lacks_fields t) missing_fields) (λ _. with_digests t) e in
    let (y, limits, spatial) = bind_ok (check_limits w) (λ _. with_spatial w) rest in
    (ground (arith, present), w, digests, limits, spatial)

-- Validating a task that `validate` has returned changes nothing and does not raise.
pub validate_again : (t u : ComputeTask) → validate t ≡ ok u → validate u ≡ ok u
unfolding validate
validate_again t u h =
    let (fields, w, digests, limits, spatial) = validate-parts t u h in
    let present = with_spatial_fields w u (with_digests_fields t w fields digests) spatial in
    let same = with_digests_metadata w u (with_digests_again t w digests) spatial in
    let (still, settled) = with_spatial_again w u limits spatial in
    rw (present, same, still) settled

-- The lease id and the release reason play no part in the validation.
pub validate_lease :
    (t : ComputeTask) (lease reason : Option String)
    → validate t ≡ ok t
    → let u = record t {
      metadata = record t.metadata { lease_id = lease; last_release_reason = reason };
    } in
      validate u ≡ ok u
unfolding validate with_digests with_artifact check_limits with_spatial with_layout
validate_lease t lease reason h =
    ground (arith, Option-cases t.artifact_digest, Option-cases t.metadata.spatial_layout)

pub validate_positive :
    (t u : ComputeTask)
    → validate t ≡ ok u
    → (0 < u.memory_mb) × (0 < u.threads) × (0 < u.max_seconds)
unfolding check_limits
validate_positive t u h =
    let (_, w, _, limits, spatial) = validate-parts t u h in
    let (still, _) = with_spatial_again w u limits spatial in ground (arith, still)
