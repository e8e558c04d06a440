-- ===== src/Storage/Store/Returns.antt =====
-- src/zdx_storage.py, `StateStore.save` where nothing fails.
use zdx_paralell_pyxel_vm.Base.{
  ◌≡◌, refl, arith, List, [], Bool, true, false, Option, none, some, String, inl, inr, ◌⊎◌,
}
use zdx_paralell_pyxel_vm.Base.Results.{Result-cases, err}
use zdx_paralell_pyxel_vm.Storage.Disk.{
  Disk, Outcome, Failure, quiet, returned, raised, perform, andthen,
}
use zdx_paralell_pyxel_vm.Storage.Commit.{atomic_write_bytes}
use zdx_paralell_pyxel_vm.Storage.Commit.Crash.{target-recoverable}
use zdx_paralell_pyxel_vm.Storage.Commit.Injected.{atomic_write_bytes-Settled}
use zdx_paralell_pyxel_vm.Storage.Migrations.{LogEntry, Registry}
use zdx_paralell_pyxel_vm.Storage.Envelope.{Setting, decode, corrupt_state, escapes}
use zdx_paralell_pyxel_vm.Storage.Store.{
  write_envelope, save, quarantine_target, no_injector, default_list,
}
use zdx_paralell_pyxel_vm.Storage.Store.Reads.{RoundTrips, encoded-Written}
use zdx_paralell_pyxel_vm.Storage.Store.Safe.{Loads, IsState-Loads, write_envelope_written}

module _ {Byte Data : Type 0} (s : Setting Byte Data) (r : Registry Data) (v : Data) where
  -- The action returns, and a reader then gets `v`.
  abbrev pub Stores : Disk Byte × Outcome (Unit {0}) → Type 0
  Stores end = (end.1 ≡ returned tt) × Loads s r no_injector v end.0

  write_envelope-Stores :
      (created : Option String) (log : List LogEntry) (t b : Option (List Byte))
      (q ts : List (List Byte)) (own moved : Bool)
      → RoundTrips s v
      → Stores (write_envelope s r no_injector v created log (quiet t b q own moved ts))
  unfolding atomic_write_bytes
  write_envelope-Stores created log t b q ts own moved law =
      let (raw, (m, writes, decodes, current)) = encoded-Written s v created log law in
      let ended = atomic_write_bytes no_injector true raw (quiet t b q own moved ts) in
      rw
        (write_envelope_written s r no_injector v created log raw (quiet t b q own moved ts) writes)
        (elim (atomic_write_bytes-Settled no_injector raw true t b ts q own moved) [
          | inr (p, raises, never, rest, left) ↦ absurd (ground (arith, never))
          | inl (returns, first, last, there, left) ↦ (
            returns,
            IsState-Loads s r no_injector v ended.0
                (raw, m, false, target-recoverable ended.0 raw there, decodes, current),
          )
        ])

  -- The action raises what `_decode` raises on the old file besides a CorruptStateError, and leaves
  -- the files as they were.
  abbrev pub Escapes : Option (List Byte) → Disk Byte → Disk Byte × Outcome (Unit {0}) → Type 0
  Escapes t d end =
      (raw : List Byte) × (f : Failure) × (t ≡ some raw)
      × (decode s raw ≡ err (escapes f))
      × (end ≡ (d, raised f))

  -- Where nothing fails, the digest is in ASCII and the codec writes an envelope of `v` and gives it
  -- back, one of two things happens. A `save` of `v` returns, and a process started anew loads `v`: so
  -- over no file, over one that `_decode` reads and over one for which it raises a CorruptStateError. Or
  -- `_decode` raises another exception on the old file, and the `save` raises that and leaves all files
  -- as they were.
  pub save-Stores :
      (t b : Option (List Byte)) (q ts : List (List Byte)) (own moved : Bool)
      → RoundTrips s v
      → Stores (save s r no_injector v (quiet t b q own moved ts))
        ⊎ Escapes t (quiet t b q own moved ts) (save s r no_injector v (quiet t b q own moved ts))
  unfolding save quarantine_target perform andthen
  save-Stores none b q ts own moved law =
      inl (write_envelope-Stores none [] none b q ts own moved law)
  save-Stores (some raw) b q ts own moved law = elim (Result-cases (decode s raw)) [
    | inl (corrupt_state why, corrupt) ↦
        inl (rw corrupt (write_envelope-Stores none [] none b _ ts own moved law))
    | inl (escapes f, escaped) ↦ inr (raw, f, refl, escaped, rw escaped refl)
    | inr (x, read) ↦ inl (
        rw read (
          write_envelope-Stores x.1.created_at (default_list x.1.migrations) (some raw) b q ts own
            moved law))
  ]
