-- ===== src/Storage/Store/Safe.antt =====
-- src/zdx_storage.py, `StateStore`: what a reader gets after a `save` or an `update` that ends in
-- any way.
use zdx_paralell_pyxel_vm.Base.{
  ◌≡◌, refl, ◌∙◌, List, [], Bool, true, false, Option, none, some, String, arith, inl, inr, ◌⊎◌,
}
use zdx_paralell_pyxel_vm.Base.Results.{ok, err}
use zdx_paralell_pyxel_vm.Storage.Disk.{
  Disk, Outcome, Point, quiet, corrupt, returned, raise, perform, andthen, Ends, andthen-Ends,
  perform_then, weaken-Ends, ◌>>◌,
}
use zdx_paralell_pyxel_vm.Storage.Commit.{untouched, atomic_write_bytes}
use zdx_paralell_pyxel_vm.Storage.Commit.Crash.{
  recoverable, Committed, Safe, atomic_write_bytes-IsSafe,
}
use zdx_paralell_pyxel_vm.Storage.Migrations.{LogEntry, Registry}
use zdx_paralell_pyxel_vm.Storage.Envelope.{Setting, encoded, decode}
use zdx_paralell_pyxel_vm.Storage.Store.{
  write_envelope, quarantine_target, load_locked, save, store_updated, update, default_list,
  on_corrupt,
}
use zdx_paralell_pyxel_vm.Storage.Store.Reads.{
  IsState, RoundTrips, Written, Keeps, encoded-Written, load_locked-Ends, load_locked-quiet,
}

module _ {Byte Data : Type 0} (s : Setting Byte Data) (r : Registry Data)
    (injector : Point → Bool) where
  -- What `load` gives a process started anew, for which nothing goes wrong.
  abbrev pub Loads : Data → Disk Byte → Type 0
  Loads v d =
      (default : Option Data) (auto_migrate : Bool)
      → load_locked s r injector default auto_migrate
          (quiet d.target d.backup d.quarantined d.temporary d.moved_old d.temporaries)
        ≡ (quiet d.target d.backup d.quarantined d.temporary d.moved_old [], returned (some v))

  pub IsState-Loads : (v : Data) (d : Disk Byte) → IsState s v d → Loads v d
  IsState-Loads v d h default auto_migrate =
      load_locked-quiet s r injector default auto_migrate v d.target d.backup d.quarantined
        d.temporaries d.temporary d.moved_old h

  pub write_envelope_written :
      (v : Data) (created : Option String) (log : List LogEntry) (raw : List Byte) (d : Disk Byte)
      → encoded s v created log ≡ some raw
      → write_envelope s r injector v created log d ≡ atomic_write_bytes injector true raw d
  unfolding write_envelope
  write_envelope_written v created log raw d writes = rw (writes, write_envelope) refl

  -- The state is `v`, or `u` as it was.
  abbrev pub Either : Data → Data → Disk Byte → Type 0
  Either u v d = Loads u d ⊎ Loads v d

  same-Loads :
      (u : Data) (o d : Disk Byte) → IsState s u o → recoverable d ≡ recoverable o → Loads u d
  same-Loads u o d (raw, m, legacy, found, decodes, current) same =
      IsState-Loads u d (raw, m, legacy, same ∙ found, decodes, current)

  module _ (u v : Data) (law : RoundTrips s v) (o : Disk Byte) (before : IsState s u o) where
    Written-Loads :
        (created : Option String) (log : List LogEntry) (raw : List Byte) (d : Disk Byte)
        → Written s v created log raw
        → recoverable d ≡ some raw
        → Loads v d
    Written-Loads created log raw d (m, writes, decodes, current) there =
        IsState-Loads v d (raw, m, false, there, decodes, current)

    write_envelope-Ends :
        (created : Option String) (log : List LogEntry) (d : Disk Byte)
        → Keeps o d
        → Ends (λ _. Loads v) (Either u v) (write_envelope s r injector v created log d)
    write_envelope-Ends created log d keeps =
        let (raw, written) = encoded-Written s v created log law in
        let kept : recoverable d ≡ recoverable o = ground (arith, keeps) in
        rw (write_envelope_written v created log raw d written.1) (
          weaken-Ends (Committed injector true raw d) (λ _. Loads v) (Safe raw d) (Either u v)
            (atomic_write_bytes injector true raw d) (atomic_write_bytes-IsSafe injector true raw d)
            (λ x e g. Written-Loads created log raw e written (ground arith))
            (λ e g. elim g [
              | inl old ↦ inl (same-Loads u o e before (old ∙ kept))
              | inr new ↦ inr (Written-Loads created log raw e written new)
            ]))

    -- A file that is read before the write holds the state as it was.
    rewriting-Ends :
        (fallback : Disk Byte → Disk Byte × Outcome (Unit {0})) (d : Disk Byte)
        (t : Option (List Byte))
        → d.target ≡ t
        → Keeps o d
        → Ends {A = Unit {0}}
            (λ _. Loads v)
            (Either u v)
            (elim t [
              | none ↦ write_envelope s r injector v none [] d
              | some raw ↦ andthen (perform untouched d) (λ _. elim (decode s raw) [
                | ok x ↦ write_envelope s r injector v x.1.created_at (default_list x.1.migrations)
                | err e ↦ on_corrupt e fallback
              ])
            ])
    rewriting-Ends fallback d none is keeps = write_envelope-Ends none [] d keeps
    rewriting-Ends fallback d (some x) is keeps =
        let (raw, m, legacy, found, decodes, current) = before in
        let same : x ≡ raw = ground (arith, found, is, keeps) in
        rw (same, decodes)
          (perform_then (Either u v) (λ _. Keeps o) (λ _. Loads v) untouched d _ (λ fs. keeps)
            (λ fs. inl (same-Loads u o (record d { faults = fs }) before (ground (arith, keeps))))
            (λ e g. write_envelope-Ends m.created_at (default_list m.migrations) e g))

    -- A `save` of `v` over a state `u` that a reader finds in the current version, where the digest is
    -- in ASCII and the codec writes an envelope of `v` and gives it back: whatever operations of the
    -- system fail in it, wherever the injector raises and wherever the process dies, a process started
    -- anew loads `v` where the `save` returned, and `u` or `v` where it did not.
    pub save-Loads : Ends (λ _. Loads v) (Either u v) (save s r injector v o)
    unfolding save
    save-Loads =
        rewriting-Ends (quarantine_target >> write_envelope s r injector v none []) o o.target refl
          (refl, refl)

  abbrev pub Updated : Data → Data → Disk Byte → Type 0
  Updated v w d = (w ≡ v) × Loads v d

  -- An `update` of a state `u` that a reader finds in the current version, where the digest is in ASCII
  -- and the codec writes an envelope of what `transform` makes of `u` and gives it back: where it returns
  -- it returns that, and a process started anew loads that; where it does not return, whatever failed in
  -- it or killed it, a process started anew loads that or `u`.
  pub update-Loads :
      (transform : Option Data → Data) (default : Option Data) (u : Data) (o : Disk Byte)
      → RoundTrips s (transform (some u))
      → IsState s u o
      → Ends
          (Updated (transform (some u)))
          (Either u (transform (some u)))
          (update s r injector transform default o)
  unfolding update store_updated
  update-Loads transform default u o law before =
      let v = transform (some u) in
      andthen-Ends (Either u v) (λ w d. (w ≡ some u) × Keeps o d) (Updated v) _ _
        (weaken-Ends (λ w d. (w ≡ some u) × Keeps o d) (λ w d. (w ≡ some u) × Keeps o d) (Keeps o)
          (Either u v) (load_locked s r injector default true o)
          (load_locked-Ends s r injector default true u o before) (λ w d h. h)
          (λ d h. inl (same-Loads u o d before (ground (arith, h)))))
        (λ w d h. rw h.0 (
          andthen-Ends (Either u v) (λ _. Loads v) (Updated v) _ _
            (rewriting-Ends u v law o before (raise corrupt) d d.target refl h.1)
            (λ x e g. (refl, g))))
