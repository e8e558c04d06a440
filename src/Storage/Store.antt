-- ===== src/Storage/Store.antt =====
-- src/zdx_storage.py, `StateStore`: loading, saving and updating one state file. The lock is held
-- throughout. `last_recovery` and the metrics, which nothing here reads, are left out.
use zdx_paralell_pyxel_vm.Base.{
  ℕ, zero, suc, List, [], ◌∷◌, ◌++◌, Bool, true, false, Option, none, some, if◌then◌else◌, String,
  ltb, ◌==◌, ◌-◌, get_elem?,
}
use zdx_paralell_pyxel_vm.Base.Results.{Result, ok, err}
use zdx_paralell_pyxel_vm.Compiler.Text.{Text, codes}
use zdx_paralell_pyxel_vm.Storage.Disk.{
  Disk, Outcome, Point, Failure, corrupt, newer_state, migration_error, not_canonical, give, raise,
  perform, catching, andthen, ◌>>◌, ◌>>=◌, os_error,
}
use zdx_paralell_pyxel_vm.Storage.Commit.{atomic_write_bytes, untouched}
use zdx_paralell_pyxel_vm.Storage.Migrations.{LogEntry, Registry, upgrade}
use zdx_paralell_pyxel_vm.Storage.Envelope.{
  Metadata, Setting, encoded, decode, DecodeError, corrupt_state, escapes,
}
pub mod Reads
pub mod Safe
pub mod Recovery
pub mod Returns

abbrev pub drop_at : {A : Type 0} → ℕ → List A → List A
drop_at n [] = []
drop_at zero (x ∷ xs) = xs
drop_at (suc n) (x ∷ xs) = x ∷ drop_at n xs

abbrev pub default_list : {A : Type 0} → Option (List A) → List A
default_list none = []
default_list (some xs) = xs

abbrev pub default_zero : Option ℕ → ℕ
default_zero none = 0
default_zero (some n) = n

-- `except CorruptStateError: handler`, where `_decode` has raised `e`
abbrev pub on_corrupt :
    {Byte : Type 0} {A : Type 0}
    → DecodeError
    → (Disk Byte → Disk Byte × Outcome A)
    → Disk Byte
    → Disk Byte × Outcome A
on_corrupt (corrupt_state why) handler = handler
on_corrupt (escapes f) handler = raise f

-- An injector that never raises.
abbrev pub no_injector : Point → Bool
no_injector p = false

abbrev pub pushed : {A : Type 0} → Option A → List A → List A
pushed none xs = xs
pushed (some x) xs = x ∷ xs

module _ {Byte : Type 0} where
  -- `temporary.unlink()` of the temporary in the place `n`, with `suppress(OSError)`: how many
  -- are left before the next.
  unfoldable pub unlink_at : ℕ → Disk Byte → Disk Byte × Outcome ℕ
  unlink_at n d =
      catching
        (andthen (perform (λ e. record e { temporaries = drop_at n e.temporaries }) d)
          (λ _. give n))
        (λ f. give (suc n))

  -- the loop of `_load_locked` over the `*.tmp` files
  unfoldable pub remove_temporaries :
      ℕ → List (List Byte) → Disk Byte → Disk Byte × Outcome (Unit {0})
  remove_temporaries n [] = give tt
  remove_temporaries n (t ∷ ts) = unlink_at n >>= λ left. remove_temporaries left ts

  -- `_quarantine(self.path, reason)`
  unfoldable pub quarantine_target : Disk Byte → Disk Byte × Outcome (Unit {0})
  quarantine_target =
      perform (λ d. record d { target = none; quarantined = pushed d.target d.quarantined })
      >> perform untouched

  -- `_quarantine(self.backup_path, reason)`
  unfoldable pub quarantine_backup : Disk Byte → Disk Byte × Outcome (Unit {0})
  quarantine_backup =
      perform (λ d. record d { backup = none; quarantined = pushed d.backup d.quarantined })
      >> perform untouched

module _ {Byte Data : Type 0} (s : Setting Byte Data) (r : Registry Data)
    (injector : Point → Bool) where
  -- Writes the envelope of `value` over the state file.
  unfoldable pub write_envelope :
      Data → Option String → List LogEntry → Disk Byte → Disk Byte × Outcome (Unit {0})
  write_envelope value created log = elim (encoded s value created log) [
    | none ↦ raise not_canonical
    | some raw ↦ atomic_write_bytes injector true raw
  ]

  -- The log entry of the step from version 0 to 1.
  abbrev pub legacy_log : ℕ → List LogEntry
  legacy_log zero =
      let entry : LogEntry = record {
        name = codes s.schema ++ codes ":legacy-envelope";
        from_version = 0;
        to_version = 1;
        applied_at = s.now;
      } in
      entry ∷ []
  legacy_log (suc v) = []

  abbrev pub after_legacy : ℕ → ℕ
  after_legacy zero = 1
  after_legacy (suc v) = suc v

  -- `if source_version < self.version: ...self.migrations.upgrade(...)`
  unfoldable pub migrated : Data → ℕ → Result Failure (Data × List LogEntry)
  migrated value source =
      if ltb source s.version
      then elim (upgrade r s.now s.schema value source s.version) [
        | err e ↦ err migration_error
        | ok x ↦ ok x
      ]
      else ok (value, [])

  -- `_load_locked` once it has the data and the metadata
  unfoldable pub finish_load :
      Bool → Data → Metadata Data → Disk Byte → Disk Byte × Outcome (Option Data)
  finish_load auto_migrate value m =
      let source = default_zero m.schema_version in
      if ltb s.version source
      then raise newer_state
      else if ltb source s.version
      then if auto_migrate
        then elim (migrated value (after_legacy source)) [
          | err f ↦ raise f
          | ok x ↦
              write_envelope x.0 m.created_at
                (default_list m.migrations ++ (legacy_log source ++ x.1))
              >> give (some x.0)
        ]
        else give (some value)
      else give (some value)

  -- `elif default is not None: return default`, `else: raise`
  abbrev pub default_or_raise : Option Data → Disk Byte → Disk Byte × Outcome (Option Data)
  default_or_raise none = raise corrupt
  default_or_raise (some v) = give (some v)

  -- The backup, read after the state file was found corrupt.
  unfoldable pub load_recovering : Bool → List Byte → Disk Byte → Disk Byte × Outcome (Option Data)
  load_recovering auto_migrate raw = perform untouched >> elim (decode s raw) [
    | ok x ↦
        perform untouched
        >> (atomic_write_bytes no_injector true raw >> finish_load auto_migrate x.0 x.1)
    | err e ↦ on_corrupt e (quarantine_backup >> raise corrupt)
  ]

  unfoldable pub load_primary :
      Option Data → Bool → List Byte → Disk Byte → Disk Byte × Outcome (Option Data)
  load_primary default auto_migrate raw = perform untouched >> elim (decode s raw) [
    | ok x ↦ finish_load auto_migrate x.0 x.1
    | err e ↦ on_corrupt e (
        quarantine_target >> λ d. elim d.backup [
          | some copy ↦ load_recovering auto_migrate copy d
          | none ↦ default_or_raise default d
        ])
  ]

  -- The backup, read since there is no state file.
  unfoldable pub load_backup :
      Option Data → Bool → List Byte → Disk Byte → Disk Byte × Outcome (Option Data)
  load_backup default auto_migrate raw = perform untouched >> elim (decode s raw) [
    | ok x ↦ finish_load auto_migrate x.0 x.1
    | err e ↦ on_corrupt e (quarantine_backup >> default_or_raise default)
  ]

  -- `_load_locked`, the body of `load`
  unfoldable pub load_locked : Option Data → Bool → Disk Byte → Disk Byte × Outcome (Option Data)
  load_locked default auto_migrate d = andthen (remove_temporaries 0 d.temporaries d) (λ _ e.
      elim e.target [
        | some raw ↦ load_primary default auto_migrate raw e
        | none ↦ elim e.backup [
          | some raw ↦ load_backup default auto_migrate raw e
          | none ↦ give default e
        ]
      ])

  unfoldable pub save : Data → Disk Byte → Disk Byte × Outcome (Unit {0})
  save value d = elim d.target [
    | none ↦ write_envelope value none [] d
    | some raw ↦ andthen (perform untouched d) (λ _. elim (decode s raw) [
      | ok x ↦ write_envelope value x.1.created_at (default_list x.1.migrations)
      | err e ↦ on_corrupt e (quarantine_target >> write_envelope value none [])
    ])
  ]

  -- the part of `update` after `transform`
  unfoldable pub store_updated : Data → Disk Byte → Disk Byte × Outcome (Unit {0})
  store_updated value d = elim d.target [
    | none ↦ write_envelope value none [] d
    | some raw ↦ andthen (perform untouched d) (λ _. elim (decode s raw) [
      | ok x ↦ write_envelope value x.1.created_at (default_list x.1.migrations)
      | err e ↦ on_corrupt e (raise corrupt)
    ])
  ]

  unfoldable pub update : (Option Data → Data) → Option Data → Disk Byte → Disk Byte × Outcome Data
  update transform default = load_locked default true >>= λ current.
      store_updated (transform current) >> give (transform current)
