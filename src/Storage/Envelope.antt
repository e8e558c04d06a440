-- ===== src/Storage/Envelope.antt =====
-- src/zdx_storage.py: the envelope of a state file, and `StateStore._envelope` and `_decode`.
--
-- `Data` is the JSON values. A document is what `json.loads` gives, told apart as far as `_decode`
-- tells it apart; a metadata field is `none` where the object has no such key, and otherwise has the type
-- that `_envelope` writes: metadata with a value of another type is outside the model.
use zdx_paralell_pyxel_vm.Base.{
  ℕ, List, [], Bool, true, false, not, ◌&&◌, ◌||◌, Option, none, some, if◌then◌else◌, String,
  str_eq, ltb, ◌∷◌,
}
use zdx_paralell_pyxel_vm.Compiler.Text.{Text, codes}
use zdx_paralell_pyxel_vm.Storage.Disk.{Failure, not_canonical, type_error, json_error}
use zdx_paralell_pyxel_vm.Base.Results.{Result, ok, err}
use zdx_paralell_pyxel_vm.Storage.Migrations.{LogEntry}

pub record Metadata (Data : Type 0) : Type 0 where
  pub format : Option String
  pub envelope_version : Option ℕ
  pub schema : Option String
  pub schema_version : Option ℕ
  pub created_at : Option String
  pub updated_at : Option String
  pub compatibility : Option Data
  pub migrations : Option (List LogEntry)
  pub checksum : Option String

-- `object` is an object whose keys are not just `metadata` and `data`; an `envelope` has these
-- two, and `none` where its metadata is no object.
pub data Document (Data : Type 0) : Type 0 where
  not_object : Document Data
  object : Data → Document Data
  envelope : Option (Metadata Data) → Data → Document Data

-- The reasons of a `CorruptStateError`.
pub data CorruptState : Type 0 where
  not_json root_not_object metadata_not_object incomplete mismatch bad_checksum : CorruptState

-- What `_decode` raises: a `CorruptStateError`, which its callers catch, or another exception.
pub data DecodeError : Type 0 where
  corrupt_state : CorruptState → DecodeError
  escapes : Failure → DecodeError

-- What `raw.decode("utf-8")` and `json.loads` raise: an error that `_decode` catches, or another one,
-- for a number with too many digits or a nesting that is too deep.
pub data LoadError : Type 0 where
  invalid refused : LoadError

-- Every character is in ASCII.
abbrev pub all_ascii : Text → Bool
all_ascii [] = true
all_ascii (c ∷ s) = ltb c 128 && all_ascii s

abbrev pub is_ascii : String → Bool
is_ascii s = all_ascii (codes s)

abbrev pub format_name : String
format_name = "zdx-state"

abbrev pub is_text : String → Option String → Bool
is_text s none = false
is_text s (some t) = str_eq t s

abbrev pub has_key : {A : Type 0} → Option A → Bool
has_key none = false
has_key (some v) = true

-- `created_at or now`
abbrev pub or_now : String → Option String → String
or_now now none = now
or_now now (some t) = if str_eq t "" then now else t

-- What a `StateStore` is made with, and what it calls: `json.dumps`, `none` where it raises the TypeError
-- or ValueError that `_canonical` makes a StorageError, and `json.loads`; the hexadecimal SHA-256 of bytes, and the clock `now`.
pub record Setting (Byte Data : Type 0) : Type 0 where
  pub schema : String
  pub version : ℕ
  pub compatible : Data
  pub now : String
  pub canonical : Document Data → Option (List Byte)
  pub loads : List Byte → Result LoadError (Document Data)
  pub digest : List Byte → String

module _ {Data : Type 0} where
  abbrev pub unsigned : Metadata Data → Metadata Data
  unsigned m = record m { checksum = none }

  -- `required.issubset(metadata)`
  abbrev pub is_complete : Metadata Data → Bool
  is_complete m =
      has_key m.format
      && has_key m.envelope_version
      && has_key m.schema
      && has_key m.schema_version
      && has_key m.created_at
      && has_key m.updated_at
      && has_key m.compatibility
      && has_key m.migrations
      && has_key m.checksum

  -- The claimed checksum against the computed one: `secrets.compare_digest` refuses texts that are
  -- not in ASCII.
  abbrev pub compare_checksums :
      Option String
      → String
      → Metadata Data
      → Data
      → Result DecodeError (Data × Metadata Data × Bool)
  compare_checksums none sum m data_value = err (corrupt_state incomplete)
  compare_checksums (some claimed) sum m data_value =
      if not (is_ascii claimed && is_ascii sum)
      then err (escapes type_error)
      else if not (str_eq claimed sum)
      then err (corrupt_state bad_checksum)
      else ok (data_value, m, false)

  abbrev pub unloaded : LoadError → Result DecodeError (Data × Metadata Data × Bool)
  unloaded invalid = err (corrupt_state not_json)
  unloaded refused = err (escapes json_error)

module _ {Byte Data : Type 0} where
  -- The metadata of a new envelope, without its checksum and with it.
  abbrev pub new_metadata : Setting Byte Data → Option String → List LogEntry → Metadata Data
  new_metadata s created migration_log = record {
    format = some format_name;
    envelope_version = some 1;
    schema = some s.schema;
    schema_version = some s.version;
    created_at = some (or_now s.now created);
    updated_at = some s.now;
    compatibility = some s.compatible;
    migrations = some migration_log;
    checksum = none;
  }

  -- `_checksum`, of metadata without a checksum: `none` is the StorageError of `_canonical`.
  unfoldable pub checksum_of : Setting Byte Data → Metadata Data → Data → Option String
  checksum_of s m value = elim (s.canonical (envelope (some m) value)) [
    | none ↦ none
    | some raw ↦ some (s.digest raw)
  ]

  abbrev pub signed_metadata :
      Setting Byte Data → Option String → List LogEntry → String → Metadata Data
  signed_metadata s created migration_log sum = record (new_metadata s created migration_log) {
    checksum = some sum;
  }

  -- `_envelope`: `none` is the StorageError of `_checksum`.
  unfoldable pub make_envelope :
      Setting Byte Data → Data → Option String → List LogEntry → Option (Document Data)
  unfolding checksum_of
  make_envelope s value created migration_log =
      elim (checksum_of s (new_metadata s created migration_log) value) [
        | none ↦ none
        | some sum ↦ some (envelope (some (signed_metadata s created migration_log sum)) value)
      ]

  -- `_canonical(self._envelope(...))`
  unfoldable pub encoded :
      Setting Byte Data → Data → Option String → List LogEntry → Option (List Byte)
  unfolding make_envelope
  encoded s value created migration_log = elim (make_envelope s value created migration_log) [
    | none ↦ none
    | some document ↦ s.canonical document
  ]

  -- The metadata that `_decode` gives a document without an envelope.
  abbrev pub legacy_metadata : Setting Byte Data → Metadata Data
  legacy_metadata s = record {
    format = none;
    envelope_version = none;
    schema = some s.schema;
    schema_version = some 0;
    created_at = some s.now;
    updated_at = none;
    compatibility = none;
    migrations = some [];
    checksum = none;
  }

  unfoldable pub decode_envelope :
      Setting Byte Data → Metadata Data → Data → Result DecodeError (Data × Metadata Data × Bool)
  unfolding checksum_of
  decode_envelope s m data_value =
      if not (is_complete m)
      then err (corrupt_state incomplete)
      else if not (is_text format_name m.format) || not (is_text s.schema m.schema)
      then err (corrupt_state mismatch)
      else elim (checksum_of s (unsigned m) data_value) [
        | none ↦ err (escapes not_canonical)
        | some sum ↦ compare_checksums m.checksum sum m data_value
      ]

  unfoldable pub decode :
      Setting Byte Data → List Byte → Result DecodeError (Data × Metadata Data × Bool)
  decode s raw = elim (s.loads raw) [
    | err e ↦ unloaded e
    | ok document ↦ elim document [
      | not_object ↦ err (corrupt_state root_not_object)
      | object value ↦ ok (value, legacy_metadata s, true)
      | envelope metadata data_value ↦ elim metadata [
        | none ↦ err (corrupt_state metadata_not_object)
        | some m ↦ decode_envelope s m data_value
      ]
    ]
  ]
