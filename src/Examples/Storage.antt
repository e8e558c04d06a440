-- ===== src/Examples/Storage.antt =====
-- The storage at concrete inputs.
use zdx_paralell_pyxel_vm.Base.{
  ℕ, ◌+◌, ◌≡◌, refl, true, false, ◌⊎◌, List, [], ◌∷◌, Option, none, some,
}
use zdx_paralell_pyxel_vm.Base.Results.{Result, ok, err}
use zdx_paralell_pyxel_vm.Storage.Disk.{
  Disk, type_error, Fault, goes, fails, dies, quiet, Ends, returned, andthen, catching, finally_do,
  perform,
}
use zdx_paralell_pyxel_vm.Storage.Commit.{
  atomic_write_bytes, commit_body, write_all, move_old, put_back, clean_up,
}
use zdx_paralell_pyxel_vm.Storage.Commit.Crash.{
  Committed, Safe, recoverable, atomic_write_bytes-IsSafe,
}
use zdx_paralell_pyxel_vm.Storage.Migrations.{Migration, Registry, upgrade}
use zdx_paralell_pyxel_vm.Storage.Migrations.Chain.{IsSequential, IsUpgraded, upgrade-IsUpgraded}
use zdx_paralell_pyxel_vm.Storage.Envelope.{
  Document, envelope, Setting, LoadError, invalid, decode, decode_envelope, checksum_of, not_json,
  signed_metadata, escapes,
}
use zdx_paralell_pyxel_vm.Storage.Store.{load_locked, save, update, no_injector}
use zdx_paralell_pyxel_vm.Storage.Store.Reads.{IsState, RoundTrips}
use zdx_paralell_pyxel_vm.Storage.Store.Safe.{Loads, Either, Updated, save-Loads, update-Loads}
use zdx_paralell_pyxel_vm.Storage.Store.Recovery.{load_locked-recovers}
use zdx_paralell_pyxel_vm.Storage.Store.Returns.{Stores, Escapes, save-Stores}

-- The process dies when it is about to move the new file into its place.
abbrev dying_disk : Disk ℕ
dying_disk = record (quiet (some (1 ∷ [])) (some (0 ∷ [])) [] false false []) {
  faults = goes ∷ goes ∷ goes ∷ goes ∷ goes ∷ dies ∷ [];
}

-- The target is gone then, and the backup is the old target.
dying_disk_ends :
    ((atomic_write_bytes no_injector true (2 ∷ []) dying_disk).0.target ≡ none)
    × (recoverable (atomic_write_bytes no_injector true (2 ∷ []) dying_disk).0 ≡ some (1 ∷ []))
unfolding atomic_write_bytes commit_body write_all move_old put_back clean_up andthen catching
    finally_do perform
dying_disk_ends = (refl, refl)

atomic_write_bytes-IsSafe_example :
    Ends
      (Committed no_injector true (2 ∷ []) dying_disk)
      (Safe (2 ∷ []) dying_disk)
      (atomic_write_bytes no_injector true (2 ∷ []) dying_disk)
atomic_write_bytes-IsSafe_example = atomic_write_bytes-IsSafe no_injector true (2 ∷ []) dying_disk

abbrev add_ten : Migration ℕ
add_ten = record {
  schema = "s";
  from_version = 1;
  to_version = 2;
  migrate = λ v. some (v + 10);
  name = [];
}

abbrev one_migration : Registry ℕ
one_migration = (("s", 1), add_ten) ∷ []

one_migration-IsSequential : IsSequential one_migration
one_migration-IsSequential = (refl, refl, refl, tt)

upgrade-IsUpgraded_example :
    IsUpgraded one_migration "now" "s" 5 1 2 (upgrade one_migration "now" "s" 5 1 2)
upgrade-IsUpgraded_example =
    upgrade-IsUpgraded one_migration "now" "s" 5 1 2 one_migration-IsSequential

-- A file holds one document, or is not JSON.
abbrev document_of : List (Document ℕ) → Result LoadError (Document ℕ)
document_of [] = err invalid
document_of (doc ∷ docs) = ok doc

abbrev setting : Setting (Document ℕ) ℕ
setting = record {
  schema = "s";
  version = 2;
  compatible = 0;
  now = "now";
  canonical = λ doc. some (doc ∷ []);
  loads = document_of;
  digest = λ raw. "sum";
}

abbrev file_of : ℕ → List (Document ℕ)
file_of v = envelope (some (signed_metadata setting none [] "sum")) v ∷ []

setting-RoundTrips : (v : ℕ) → RoundTrips setting v
setting-RoundTrips v = (λ raw. refl, λ m c. (envelope (some m) v ∷ [], refl, refl))

abbrev stored_disk : List Fault → Disk (Document ℕ)
stored_disk fs = record (quiet (some (file_of 7)) none [] false false []) { faults = fs }

stored_disk-IsState : (fs : List Fault) → IsState setting 7 (stored_disk fs)
unfolding decode decode_envelope checksum_of
stored_disk-IsState fs = (file_of 7, signed_metadata setting none [] "sum", false, refl, refl, refl)

abbrev some_faults : List Fault
some_faults = goes ∷ goes ∷ goes ∷ goes ∷ goes ∷ goes ∷ fails ∷ fails ∷ []

save-Loads_example :
    Ends
      (λ _. Loads setting one_migration no_injector 8)
      (Either setting one_migration no_injector 7 8)
      (save setting one_migration no_injector 8 (stored_disk some_faults))
save-Loads_example =
    save-Loads setting one_migration no_injector 7 8 (setting-RoundTrips 8)
      (stored_disk some_faults) (stored_disk-IsState some_faults)

abbrev next_of : Option ℕ → ℕ
next_of none = 0
next_of (some v) = v + 1

update-Loads_example :
    Ends
      (Updated setting one_migration no_injector 8)
      (Either setting one_migration no_injector 7 8)
      (update setting one_migration no_injector next_of none (stored_disk some_faults))
update-Loads_example =
    update-Loads setting one_migration no_injector next_of none 7 (stored_disk some_faults)
      (setting-RoundTrips 8) (stored_disk-IsState some_faults)

save-Stores_example :
    Stores setting one_migration 8
      (save setting one_migration no_injector 8 (quiet (some []) none [] false false []))
    ⊎ Escapes setting one_migration 8
        (some [])
        (quiet (some []) none [] false false [])
        (save setting one_migration no_injector 8 (quiet (some []) none [] false false []))
save-Stores_example =
    save-Stores setting one_migration 8 (some []) none [] [] false false (setting-RoundTrips 8)

load_locked-recovers_example :
    load_locked setting one_migration no_injector none true
      (quiet (some []) (some (file_of 7)) [] false false [])
    ≡ (quiet (some (file_of 7)) (some (file_of 7)) ([] ∷ []) false false [], returned (some 7))
unfolding decode decode_envelope checksum_of
load_locked-recovers_example =
    load_locked-recovers setting one_migration no_injector none true [] not_json [] [] false false
      (file_of 7) 7 (signed_metadata setting none [] "sum") false refl refl refl

-- A complete envelope whose checksum is not in ASCII.
abbrev umlaut_file : List (Document ℕ)
umlaut_file = envelope (some (signed_metadata setting none [] "ä")) 7 ∷ []

umlaut_escapes : decode setting umlaut_file ≡ err (escapes type_error)
unfolding decode decode_envelope checksum_of
umlaut_escapes = refl
