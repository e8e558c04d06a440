-- ===== src/Storage/Migrations.antt =====
-- src/zdx_storage.py, `MigrationRegistry`: the migrations of each schema, one version at a time.
--
-- A migration is a function on the data that may raise (`none`). The calls of `rollback` are left
-- out: what they return or raise is thrown away, and the data they are given is not used again.
use zdx_paralell_pyxel_vm.Base.{
  ℕ, zero, suc, ◌+◌, ◌-◌, List, [], ◌∷◌, ◌++◌, Bool, true, false, not, ◌&&◌, Option, none, some,
  if◌then◌else◌, String, str_eq, ltb, ◌==◌,
}
use zdx_paralell_pyxel_vm.Base.Results.{Result, ok, err}
use zdx_paralell_pyxel_vm.Compiler.Text.{Text, codes, decimal}
pub mod Chain

pub record Migration (Data : Type 0) : Type 0 where
  pub schema : String
  pub from_version : ℕ
  pub to_version : ℕ
  pub migrate : Data → Option Data
  pub name : Text

-- An entry of the `migrations` of an envelope.
pub record LogEntry : Type 0 where
  pub name : Text
  pub from_version : ℕ
  pub to_version : ℕ
  pub applied_at : String

pub data RegisterError : Type 0 where
  not_one_version already_registered : RegisterError

-- `out_of_fuel` is the model's own: the loop has no end.
pub data UpgradeError : Type 0 where
  newer_than_reader missing_migration migration_failed out_of_fuel : UpgradeError

-- `dict[tuple[str, int], Migration]`
abbrev pub Registry : Type 0 → Type 0
Registry Data = List ((String × ℕ) × Migration Data)

-- `migration.name or default`
abbrev pub entry_name : Text → Text → Text
entry_name [] default = default
entry_name (c ∷ s) default = c ∷ s

module _ {Data : Type 0} where
  unfoldable pub migration_for : Registry Data → String → ℕ → Option (Migration Data)
  migration_for [] schema version = none
  migration_for ((k, m) ∷ r) schema version =
      if str_eq k.0 schema && (k.1 == version) then some m else migration_for r schema version

  unfoldable pub register_migration :
      Migration Data → Registry Data → Result RegisterError (Registry Data)
  register_migration m r =
      if not (m.to_version == m.from_version + 1)
      then err not_one_version
      else elim (migration_for r m.schema m.from_version) [
        | some other ↦ err already_registered
        | none ↦ ok (r ++ (((m.schema, m.from_version), m) ∷ []))
      ]

  -- What `upgrade` logs of a migration, at the time `now`.
  unfoldable pub entry_of : String → String → Migration Data → LogEntry
  entry_of now schema m = record {
    name =
        entry_name m.name (
          codes schema
          ++ codes ":"
          ++ decimal m.from_version
          ++ codes "->"
          ++ decimal m.to_version);
    from_version = m.from_version;
    to_version = m.to_version;
    applied_at = now;
  }

  module _ (r : Registry Data) (now schema : String) where
    -- `while source < target`
    unfoldable pub upgrade_loop :
        ℕ → Data → ℕ → ℕ → List LogEntry → Result UpgradeError (Data × List LogEntry)
    upgrade_loop zero current source target log =
        if ltb source target then err out_of_fuel else ok (current, log)
    upgrade_loop (suc fuel) current source target log = elim (ltb source target) [
      | false ↦ ok (current, log)
      | true ↦ elim (migration_for r schema source) [
        | none ↦ err missing_migration
        | some m ↦ elim (m.migrate current) [
          | none ↦ err migration_failed
          | some next ↦
              upgrade_loop fuel next m.to_version target (log ++ (entry_of now schema m ∷ []))
        ]
      ]
    ]

    unfoldable pub upgrade : Data → ℕ → ℕ → Result UpgradeError (Data × List LogEntry)
    upgrade current source target =
        if ltb target source
        then err newer_than_reader
        else upgrade_loop (target - source) current source target []
