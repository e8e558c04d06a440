-- ===== src/Storage/Store/Recovery.antt =====
-- src/zdx_storage.py, `_load_locked` where the state file is corrupt and nothing fails.
use zdx_paralell_pyxel_vm.Base.{◌≡◌, refl, List, [], ◌∷◌, Bool, true, false, Option, none, some}
use zdx_paralell_pyxel_vm.Base.Results.{ok, err}
use zdx_paralell_pyxel_vm.Storage.Disk.{
  Point, quiet, returned, raised, corrupt, perform, andthen, catching, finally_do,
}
use zdx_paralell_pyxel_vm.Storage.Commit.{
  atomic_write_bytes, commit_body, move_old, put_back, clean_up,
}
use zdx_paralell_pyxel_vm.Storage.Commit.Injected.{write_all-quiet}
use zdx_paralell_pyxel_vm.Storage.Migrations.{Registry}
use zdx_paralell_pyxel_vm.Storage.Envelope.{Metadata, Setting, decode, CorruptState, corrupt_state}
use zdx_paralell_pyxel_vm.Storage.Store.{
  load_locked, load_primary, load_recovering, quarantine_target, quarantine_backup, no_injector,
}
use zdx_paralell_pyxel_vm.Storage.Store.Reads.{remove_temporaries-quiet, finish_load-current}

module _ {Byte : Type 0} (b : Option (List Byte)) (q : List (List Byte)) (raw : List Byte) where
  -- A commit over no state file, with nothing to go wrong, writes the file and nothing else.
  pub atomic_write_bytes-quiet :
      (own moved : Bool)
      → atomic_write_bytes no_injector true raw (quiet none b q own moved [])
        ≡ (quiet (some raw) b q false false [], returned tt)
  unfolding atomic_write_bytes commit_body move_old put_back clean_up andthen catching finally_do
      perform
  atomic_write_bytes-quiet own moved = rw (write_all-quiet none b [] q [] raw) refl

module _ {Byte Data : Type 0} (s : Setting Byte Data) (r : Registry Data) (injector : Point → Bool)
    (default : Option Data) (auto_migrate : Bool) (bad : List Byte) (why : CorruptState)
    (ts q : List (List Byte)) (own moved : Bool) where
  -- Where `_decode` raises a CorruptStateError on the state file, and no other exception, and the
  -- backup holds a state in the current version, a `load` in which nothing fails returns that state,
  -- whatever the default; the backup is the state file again, and the corrupt file is quarantined.
  pub load_locked-recovers :
      (copy : List Byte) (v : Data) (m : Metadata Data) (legacy : Bool)
      → decode s bad ≡ err (corrupt_state why)
      → decode s copy ≡ ok (v, m, legacy)
      → m.schema_version ≡ some s.version
      → load_locked s r injector default auto_migrate (quiet (some bad) (some copy) q own moved ts)
        ≡ (quiet (some copy) (some copy) (bad ∷ q) false false [], returned (some v))
  unfolding load_locked load_primary load_recovering quarantine_target perform andthen
  load_locked-recovers copy v m legacy broken decodes current =
      rw
        (
          remove_temporaries-quiet (some bad) (some copy) q ts own moved,
          broken,
          decodes,
          atomic_write_bytes-quiet (some copy) (bad ∷ q) copy own moved,
          finish_load-current s r injector auto_migrate v m current,
        )
        refl

  -- Where both are corrupt, both are quarantined and the error is raised.
  load_locked-both_corrupt :
      (copy : List Byte) (also : CorruptState)
      → decode s bad ≡ err (corrupt_state why)
      → decode s copy ≡ err (corrupt_state also)
      → load_locked s r injector default auto_migrate (quiet (some bad) (some copy) q own moved ts)
        ≡ (quiet none none (copy ∷ bad ∷ q) own moved [], raised corrupt)
  unfolding load_locked load_primary load_recovering quarantine_target quarantine_backup perform
      andthen
  load_locked-both_corrupt copy also broken broken_too =
      rw (remove_temporaries-quiet (some bad) (some copy) q ts own moved, broken, broken_too) refl
