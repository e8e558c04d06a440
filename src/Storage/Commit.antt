-- ===== src/Storage/Commit.antt =====
-- src/zdx_storage.py, `atomic_write_bytes`: a new file beside the target, the old target moved to
-- `.bak`, the new file moved into its place, and the handlers that put the old one back. The lock
-- is held throughout. `failure_injector` is a test of the points where it raises.
use zdx_paralell_pyxel_vm.Base.{
  List, [], ◌∷◌, ◌++◌, Bool, true, false, not, ◌&&◌, Option, none, some, if◌then◌else◌,
}
use zdx_paralell_pyxel_vm.Storage.Disk.{
  Disk, Outcome, Point, after_temp_fsync, after_backup, before_replace, injected, Failure, give,
  raise, perform, catching, finally_do, ◌>>◌, ◌>>=◌,
}
pub mod Crash
pub mod Injected

abbrev pub is_file : {Byte : Type 0} → Option (List Byte) → Bool
is_file none = false
is_file (some b) = true

abbrev pub grow : {Byte : Type 0} → Byte → List (List Byte) → List (List Byte)
grow b [] = []
grow b (t ∷ ts) = (t ++ (b ∷ [])) ∷ ts

abbrev pub rest_of : {Byte : Type 0} → List (List Byte) → List (List Byte)
rest_of [] = []
rest_of (t ∷ ts) = ts

abbrev pub newest : {Byte : Type 0} → List (List Byte) → Option (List Byte)
newest [] = none
newest (t ∷ ts) = some t

module _ {Byte : Type 0} where
  -- `tempfile.mkstemp`, with the assignment of `temporary`
  abbrev pub add_temporary : Disk Byte → Disk Byte
  add_temporary d = record d { temporaries = [] ∷ d.temporaries; temporary = true }

  -- A byte more of the payload is in the file.
  abbrev pub add_byte : Byte → Disk Byte → Disk Byte
  add_byte b d = record d { temporaries = grow b d.temporaries }

  -- `handle.write(payload)`: the process may die after any byte of it
  unfoldable pub write_all : List Byte → Disk Byte → Disk Byte × Outcome (Unit {0})
  write_all [] = give tt
  write_all (b ∷ bs) = do perform (add_byte b); write_all bs

  -- `os.fchmod`, `os.fsync`, `os.chmod`, `_fsync_directory`: they may fail, and no file changes.
  abbrev pub untouched : Disk Byte → Disk Byte
  untouched d = d

  -- `os.replace(target, backup)` and `moved_old = True`
  abbrev pub move_target : Disk Byte → Disk Byte
  move_target d = record d { target = none; backup = d.target; moved_old = true }

  -- `os.replace(temporary, target)` and `temporary = None`
  abbrev pub commit_temporary : Disk Byte → Disk Byte
  commit_temporary d = record d {
    target = newest d.temporaries;
    temporaries = rest_of d.temporaries;
    temporary = false;
  }

  -- `os.replace(backup, target)`
  abbrev pub restore_backup : Disk Byte → Disk Byte
  restore_backup d = record d { target = d.backup; backup = none }

  -- `temporary.unlink()`
  abbrev pub drop_temporary : Disk Byte → Disk Byte
  drop_temporary d = record d { temporaries = rest_of d.temporaries }

  -- `failure_injector.hit(point)`
  abbrev pub hit : (Point → Bool) → Point → Disk Byte → Disk Byte × Outcome (Unit {0})
  hit injector point = if injector point then raise (injected point) else give tt

  -- `except Exception: ...; raise`
  unfoldable pub put_back : Failure → Disk Byte → Disk Byte × Outcome (Unit {0})
  put_back f d =
      (if d.moved_old && not (is_file d.target) && is_file d.backup
          then perform restore_backup >> (perform untouched >> raise f)
          else raise f)
        d

  -- `finally: if temporary is not None: ...`
  unfoldable pub clean_up : Disk Byte → Disk Byte × Outcome (Unit {0})
  clean_up d = (if d.temporary then perform drop_temporary else give tt) d

  module _ (injector : Point → Bool) (keep_backup : Bool) where
    -- `if target.exists() and keep_backup: ...`
    unfoldable pub move_old : Disk Byte → Disk Byte × Outcome (Unit {0})
    move_old d =
        (if is_file d.target && keep_backup
            then perform move_target >> hit injector after_backup
            else give tt)
          d

    -- the body of the `try`
    unfoldable pub commit_body : List Byte → Disk Byte → Disk Byte × Outcome (Unit {0})
    commit_body payload = do
      perform add_temporary
      perform untouched
      write_all payload
      perform untouched
      hit injector after_temp_fsync
      move_old
      hit injector before_replace
      perform commit_temporary
      perform untouched
      perform untouched

    unfoldable pub atomic_write_bytes : List Byte → Disk Byte → Disk Byte × Outcome (Unit {0})
    atomic_write_bytes payload d =
        let started = record d { temporary = false; moved_old = false } in
        finally_do (catching (commit_body payload started) put_back) clean_up
