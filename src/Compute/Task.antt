-- ===== src/Compute/Task.antt =====
-- ComputeTask and its `validate`. Of the metadata, the model has the entries that the coordinator or
-- `validate` reads or writes, each of its right type; an entry that is absent is `none`, and absent
-- features are the empty list. Digests are lists of character codes.
pub mod Valid
use zdx_paralell_pyxel_vm.Base.{
  ℕ, ◌*◌, String, Bool, true, false, not, ◌&&◌, ◌||◌, Option, none, some, List, [], ◌∷◌, ◌++◌, ltb,
  leb, ◌==◌, ◌+◌, str_eq, if◌then◌else◌, length,
}
use zdx_paralell_pyxel_vm.Base.Results.{Result, ok, err, ◌>>=◌, ◌>>◌, refuse_if}
use zdx_paralell_pyxel_vm.Compiler.Text.{Text, same_text}
use zdx_paralell_pyxel_vm.Spatial.Layout.{Layout, LayoutError, post_init, raw_capacity_bytes}

pub record Metadata : Type 0 where
  pub execution_model : Option String
  pub required_vm_features : List String
  pub spatial_layout : Option Layout
  pub spatial_version : Option ℕ
  pub lease_id : Option String
  pub last_release_reason : Option String

pub record ComputeTask : Type 0 where
  pub frame_path : String
  pub frame_sha256 : Text
  pub artifact_digest : Option Text
  pub memory_mb : ℕ
  pub threads : ℕ
  pub task_id : String
  pub max_seconds : ℕ
  pub created_at : ℕ
  pub metadata : Metadata

pub data TaskError : Type 0 where
  missing_fields bad_frame_sha256 bad_artifact_digest digests_differ not_positive : TaskError
  bad_execution_model bad_feature missing_layout bad_spatial_version : TaskError
  wrong_threads working_set_too_large : TaskError
  bad_layout : LayoutError → TaskError

-- `str.lower` of ASCII.
unfoldable pub lower : Text → Text
lower [] = []
lower (c ∷ s) = (if leb b'A' c && leb c b'Z' then c + 32 else c) ∷ lower s

abbrev pub is_empty : Text → Bool
is_empty [] = true
is_empty (c ∷ s) = false

unfoldable pub all_hex : Text → Bool
all_hex [] = true
all_hex (c ∷ s) = ((leb b'0' c && leb c b'9') || (leb b'a' c && leb c b'f')) && all_hex s

abbrev pub is_digest : Text → Bool
is_digest s = length s == 64 && all_hex s

abbrev pub spatial_png_feature : String
spatial_png_feature = "spatial-png-v1"

abbrev pub spatial_frame_version : ℕ
spatial_frame_version = 1

unfoldable pub member : String → List String → Bool
member s [] = false
member s (t ∷ ts) = str_eq t s || member s ts

abbrev pub no_artifact : Option Text → Bool
no_artifact none = true
no_artifact (some d) = is_empty d

-- The digests in lower case; an artifact's digest is the frame's.
unfoldable pub with_artifact : ComputeTask → Option Text → Result TaskError ComputeTask
with_artifact t none = ok t
with_artifact t (some d) =
    let digest = lower d in
    refuse_if (not (is_digest digest)) bad_artifact_digest
    >> refuse_if (not (is_empty t.frame_sha256) && not (same_text t.frame_sha256 digest))
        digests_differ
    >> ok (record t { artifact_digest = some digest; frame_sha256 = digest })

unfoldable pub with_digests : ComputeTask → Result TaskError ComputeTask
unfolding with_artifact
with_digests t =
    let sha = lower t.frame_sha256 in
    refuse_if (not (is_empty sha) && not (is_digest sha)) bad_frame_sha256
    >> with_artifact (record t { frame_sha256 = sha }) t.artifact_digest

abbrev pub known_model : Option String → Bool
known_model none = true
known_model (some m) = str_eq m "pixel-frame" || str_eq m "spatial-png"

abbrev pub is_spatial : Option String → Bool
is_spatial none = false
is_spatial (some m) = str_eq m "spatial-png"

abbrev pub right_version : Option ℕ → Bool
right_version none = true
right_version (some v) = v == spatial_frame_version

unfoldable pub check_limits : ComputeTask → Result TaskError (Unit {0})
check_limits t = do
  refuse_if (ltb t.memory_mb 1 || ltb t.threads 1 || ltb t.max_seconds 1) not_positive
  refuse_if (not (known_model t.metadata.execution_model)) bad_execution_model
  refuse_if (member "" t.metadata.required_vm_features) bad_feature

abbrev pub with_feature : List String → List String
with_feature required =
    if member spatial_png_feature required then required else required ++ spatial_png_feature ∷ []

abbrev pub accept_layout : Result LayoutError (Unit {0}) → Result TaskError (Unit {0})
accept_layout (ok u) = ok u
accept_layout (err e) = err (bad_layout e)

-- The checks of a spatial task and the metadata that it ends with.
unfoldable pub with_layout : ComputeTask → Option Layout → Result TaskError ComputeTask
with_layout t none = err missing_layout
with_layout t (some l) =
    accept_layout (post_init l)
    >> refuse_if (not (right_version t.metadata.spatial_version)) bad_spatial_version
    >> refuse_if (not (t.threads == l.execution_rows)) wrong_threads
    >> refuse_if (ltb (t.memory_mb * 1024 * 1024) (raw_capacity_bytes l * 4)) working_set_too_large
    >> ok (record t {
      metadata = record t.metadata {
        spatial_version = some spatial_frame_version;
        spatial_layout = some l;
        required_vm_features = with_feature t.metadata.required_vm_features;
      };
    })

unfoldable pub with_spatial : ComputeTask → Result TaskError ComputeTask
unfolding with_layout
with_spatial t =
    if is_spatial t.metadata.execution_model then with_layout t t.metadata.spatial_layout else ok t

-- `validate`: the task as it leaves it, or the ValueError.
unfoldable pub validate : ComputeTask → Result TaskError ComputeTask
unfolding with_digests check_limits with_spatial
validate t =
    refuse_if (str_eq t.task_id "" || (str_eq t.frame_path "" && no_artifact t.artifact_digest))
      missing_fields
    >> with_digests t
    >>= λ u. check_limits u >> with_spatial u
