-- ===== src/Storage/Migrations/Chain.antt =====
-- src/zdx_storage.py, `MigrationRegistry.upgrade`: the chain of migrations that an upgrade runs.
use zdx_paralell_pyxel_vm.Base.{
  ℕ, zero, suc, ◌+◌, ◌-◌, ◌≤◌, ◌<◌, ◌≡◌, refl, sym, subst, ◌∙◌, ap, List, [], ◌∷◌, ◌++◌, true, ◌&&◌,
  none, some, String, str_eq, ltb, lt→ltb, ltb→lt, ◌==◌, ==_iff, arith, inl, inr, ◌⊎◌, Bool-cases,
  Option-cases,
}
use zdx_paralell_pyxel_vm.Base.Results.{Result, ok, err}
use zdx_paralell_pyxel_vm.Storage.Migrations.{
  Migration, LogEntry, UpgradeError, newer_than_reader, missing_migration, migration_failed,
  Registry, migration_for, register_migration, entry_of, upgrade_loop, upgrade,
}
use mathlib.Core.List.{append_assoc, append-nil}

module _ {Data : Type 0} where
  -- Every migration stands under its own key and advances one version.
  abbrev pub IsSequential : Registry Data → Type 0
  IsSequential [] = Unit
  IsSequential ((k, m) ∷ r) =
      (k.0 ≡ m.schema)
      × (k.1 ≡ m.from_version)
      × (m.to_version ≡ m.from_version + 1)
      × IsSequential r

  IsSequential-append :
      (r s : Registry Data) → IsSequential r → IsSequential s → IsSequential (r ++ s)
  IsSequential-append [] s h k = k
  IsSequential-append ((k, m) ∷ r) s h i = (h.0, h.1, h.2, IsSequential-append r s h.3 i)

  pub register_migration-IsSequential :
      (m : Migration Data) (r s : Registry Data)
      → IsSequential r
      → register_migration m r ≡ ok s
      → IsSequential s
  unfolding register_migration
  register_migration-IsSequential m r s h e =
      elim (Bool-cases (m.to_version == m.from_version + 1)) [
        | inr other ↦ cc
        | inl next ↦ elim (Option-cases (migration_for r m.schema m.from_version)) [
          | inr (o, there) ↦ cc
          | inl free ↦
              let is : r ++ (((m.schema, m.from_version), m) ∷ []) ≡ s =
                ground (arith, rw (next, free, register_migration) at e) in
              subst IsSequential is
                (IsSequential-append r _ h (refl, refl, (==_iff _ _).0 next, tt))
        ]
      ]

  migration_for-Advances :
      (r : Registry Data) (schema : String) (version : ℕ) (m : Migration Data)
      → IsSequential r
      → migration_for r schema version ≡ some m
      → m.to_version ≡ version + 1
  unfolding migration_for
  migration_for-Advances [] schema version m h e = cc
  migration_for-Advances ((k, o) ∷ r) schema version m h e =
      elim (Bool-cases (str_eq k.0 schema && (k.1 == version))) [
        | inl here ↦ ground (arith, ==_iff k.1 version)
        | inr other ↦ migration_for-Advances r schema version m h.3 (rw (other, migration_for) at e)
      ]

  module _ (r : Registry Data) (now schema : String) where
    -- The log entries, in their order, are the registered migrations from `source` to `target`,
    -- and `end` is what they make of `start`.
    abbrev pub Chain : List LogEntry → Data → ℕ → Data → ℕ → Type 0
    Chain [] start source end target = (start ≡ end) × (source ≡ target)
    Chain (e ∷ log) start source end target =
        (m : Migration Data) × (next : Data) × (migration_for r schema source ≡ some m)
        × (m.migrate start ≡ some next)
        × (e ≡ entry_of now schema m)
        × Chain log next (source + 1) end target

    -- What stops an upgrade: a version that has no migration, or one that raises.
    abbrev pub Stops : UpgradeError → ℕ → ℕ → Type 0
    Stops e source target =
        (k : ℕ) × (source ≤ k)
        × (k < target)
        × (((e ≡ missing_migration) × (migration_for r schema k ≡ none))
            ⊎ ((e ≡ migration_failed)
                × ((m : Migration Data) × (v : Data) × (migration_for r schema k ≡ some m)
                    × (m.migrate v ≡ none))))

    abbrev Runs : Data → ℕ → ℕ → List LogEntry → Result UpgradeError (Data × List LogEntry) → Type 0
    Runs start source target log result =
        ((end : Data) × (more : List LogEntry) × (result ≡ ok (end, log ++ more))
          × Chain more start source end target)
        ⊎ ((e : UpgradeError) × (result ≡ err e) × Stops e source target)

    later :
        (start next : Data) (source target : ℕ) (m : Migration Data) (log : List LogEntry)
        (result : Result UpgradeError (Data × List LogEntry))
        → migration_for r schema source ≡ some m
        → m.migrate start ≡ some next
        → Runs next (source + 1) target (log ++ (entry_of now schema m ∷ [])) result
        → Runs start source target log result
    later start next source target m log result found runs (inl (end, more, is, chain)) = inl (
      end,
      entry_of now schema m ∷ more,
      is ∙ ap (λ l. ok (end, l)) (append_assoc log (entry_of now schema m ∷ []) more),
      (m, next, found, runs, refl, chain),
    )
    later start next source target m log result found runs (inr (e, is, (k, low, high, why))) =
        inr (e, is, (k, omega arith, high, why))

    upgrade_loop-Runs :
        IsSequential r
        → (fuel : ℕ) (current : Data) (source target : ℕ) (log : List LogEntry)
        → target ≡ source + fuel
        → Runs current source target log (upgrade_loop r now schema fuel current source target log)
    unfolding upgrade_loop
    upgrade_loop-Runs sequential zero current source target log h =
        inl (current, [], rw (append-nil log) (ground arith), (refl, omega arith))
    upgrade_loop-Runs sequential (suc fuel) current source target log h =
        let runs : ltb source target ≡ true = lt→ltb source target (omega arith) in
        elim (Option-cases (migration_for r schema source)) [
          | inl missing ↦ inr (
            missing_migration,
            rw (runs, missing, upgrade_loop) refl,
            (source, omega arith, omega arith, inl (refl, missing)),
          )
          | inr (m, found) ↦ elim (Option-cases (m.migrate current)) [
            | inl raises ↦ inr (
              migration_failed,
              rw (runs, found, raises, upgrade_loop) refl,
              (source, omega arith, omega arith, inr (refl, (m, current, found, raises))),
            )
            | inr (next, gives) ↦
                rw (runs, found, gives, upgrade_loop)
                  (later current next source target m log _ found gives (
                    subst
                      (λ v. Runs next (source + 1) target (log ++ (entry_of now schema m ∷ [])) (
                        upgrade_loop r now schema fuel next v target
                          (log ++ (entry_of now schema m ∷ []))))
                      (sym (migration_for-Advances r schema source m sequential found))
                      (upgrade_loop-Runs sequential fuel next (source + 1) target
                        (log ++ (entry_of now schema m ∷ [])) (omega arith))))
          ]
        ]

    abbrev pub IsUpgraded : Data → ℕ → ℕ → Result UpgradeError (Data × List LogEntry) → Type 0
    IsUpgraded current source target result =
        ((target < source) × (result ≡ err newer_than_reader))
        ⊎ ((source ≤ target) × Runs current source target [] result)

    -- An upgrade of a registry whose migrations are sequential ends in one of three ways. Where
    -- the state is newer than the reader it is refused. Otherwise either it gives the data that
    -- the registered migrations make one after the other, exactly one for each version from the
    -- old to the new, with their log, or it is refused for a version between the two that has no
    -- migration or whose migration raises.
    pub upgrade-IsUpgraded :
        (current : Data) (source target : ℕ)
        → IsSequential r
        → IsUpgraded current source target (upgrade r now schema current source target)
    unfolding upgrade
    upgrade-IsUpgraded current source target sequential = elim (Bool-cases (ltb target source)) [
      | inl newer ↦ inl (ltb→lt target source newer, rw (newer, upgrade) refl)
      | inr older ↦ inr (
        ground arith,
        rw (older, upgrade)
            (upgrade_loop-Runs sequential (target - source) current source target []
              (ground arith)),
      )
    ]
