-- ===== src/Storage/Store/Reads.antt =====
-- src/zdx_storage.py, `StateStore`: what a disk that holds a state gives a reader.
use zdx_paralell_pyxel_vm.Base.{
  ℕ, suc, ◌≡◌, refl, ap, List, [], ◌∷◌, Bool, true, false, Option, none, some, String, eq_iff, ltb,
  arith, inl, inr, Option-cases,
}
use zdx_paralell_pyxel_vm.Base.Results.{ok}
use zdx_paralell_pyxel_vm.Storage.Disk.{
  Disk, Point, quiet, returned, give, perform, andthen, catching, Ends, andthen-Ends, catching-Ends,
  perform_then,
}
use zdx_paralell_pyxel_vm.Storage.Commit.{untouched}
use zdx_paralell_pyxel_vm.Storage.Commit.Crash.{recoverable}
use zdx_paralell_pyxel_vm.Storage.Migrations.{LogEntry, Registry}
use zdx_paralell_pyxel_vm.Storage.Envelope.{
  Metadata, envelope, Setting, make_envelope, encoded, checksum_of, decode, decode_envelope,
  new_metadata, signed_metadata, is_ascii,
}
use zdx_paralell_pyxel_vm.Storage.Store.{
  unlink_at, remove_temporaries, finish_load, load_primary, load_backup, load_locked, default_zero,
}

module _ {Byte Data : Type 0} (s : Setting Byte Data) where
  -- A reader that finds the file finds an envelope of `v` in the version of the store.
  abbrev pub IsState : Data → Disk Byte → Type 0
  IsState v d =
      (raw : List Byte) × (m : Metadata Data) × (legacy : Bool) × (recoverable d ≡ some raw)
      × (decode s raw ≡ ok (v, m, legacy))
      × (m.schema_version ≡ some s.version)

  -- The digest is in ASCII, an envelope of `v` with the compatibility of the store is canonical JSON,
  -- and `json.loads` of what `json.dumps` gives for it is that envelope.
  abbrev pub RoundTrips : Data → Type 0
  RoundTrips v =
      ((raw : List Byte) → is_ascii (s.digest raw) ≡ true)
      × ((m : Metadata Data)
          → m.compatibility ≡ some s.compatible
          → (raw : List Byte) × (s.canonical (envelope (some m) v) ≡ some raw)
            × (s.loads raw ≡ ok (envelope (some m) v)))

  -- What is written of `v`, and that `_decode` reads it.
  abbrev pub Written : Data → Option String → List LogEntry → List Byte → Type 0
  Written v created log raw =
      (m : Metadata Data) × (encoded s v created log ≡ some raw)
      × (decode s raw ≡ ok (v, m, false))
      × (m.schema_version ≡ some s.version)

  pub encoded-Written :
      (v : Data) (created : Option String) (log : List LogEntry)
      → RoundTrips v
      → (raw : List Byte) × Written v created log raw
  unfolding encoded make_envelope checksum_of decode decode_envelope
  encoded-Written v created log (ascii, codec) =
      let (body, signs, unread) = codec (new_metadata s created log) refl in
      let sum = s.digest body in
      let m = signed_metadata s created log sum in
      let (raw, written, loads) = codec m refl in
      (
        raw,
        (
          m,
          rw (signs, checksum_of, make_envelope, encoded) (rw written refl),
          rw (loads, decode)
              (rw ((eq_iff s.schema s.schema).1 refl, signs, checksum_of, decode_envelope)
                (rw (ascii body, (eq_iff sum sum).1 refl) refl)),
          refl,
        ),
      )

module _ {Byte : Type 0} where
  -- The loop over the temporaries leaves the state file and its backup.
  abbrev pub Keeps : Disk Byte → Disk Byte → Type 0
  Keeps o d = (d.target ≡ o.target) × (d.backup ≡ o.backup)

  pub remove_temporaries-Keeps :
      (o : Disk Byte) (n : ℕ) (ts : List (List Byte)) (d : Disk Byte)
      → Keeps o d
      → Ends (λ _. Keeps o) (Keeps o) (remove_temporaries n ts d)
  unfolding remove_temporaries unlink_at
  remove_temporaries-Keeps o n [] d h = h
  remove_temporaries-Keeps o n (t ∷ ts) d h =
      andthen-Ends (Keeps o) (λ _. Keeps o) (λ _. Keeps o) _ _
        (catching-Ends (Keeps o) (λ _. Keeps o) (Keeps o) _ (λ f. give (suc n))
          (perform_then (Keeps o) (λ _. Keeps o) (λ _. Keeps o) _ d _ (λ fs. h) (λ fs. h)
            (λ e g. g))
          (λ e g. g) (λ f e g. g))
        (λ left e g. remove_temporaries-Keeps o left ts e g)

  pub remove_temporaries-quiet :
      (t b : Option (List Byte)) (q ts : List (List Byte)) (own moved : Bool)
      → remove_temporaries 0 ts (quiet t b q own moved ts) ≡ (quiet t b q own moved [], returned tt)
  unfolding remove_temporaries unlink_at perform andthen catching
  remove_temporaries-quiet t b q [] own moved = refl
  remove_temporaries-quiet t b q (x ∷ ts) own moved = remove_temporaries-quiet t b q ts own moved

module _ {Byte Data : Type 0} (s : Setting Byte Data) (r : Registry Data)
    (injector : Point → Bool) where
  pub finish_load-current :
      (auto_migrate : Bool) (v : Data) (m : Metadata Data)
      → m.schema_version ≡ some s.version
      → finish_load s r injector auto_migrate v m ≡ give (some v)
  unfolding finish_load
  finish_load-current auto_migrate v m h =
      let same : default_zero m.schema_version ≡ s.version = ap default_zero h in
      let newer : ltb s.version (default_zero m.schema_version) ≡ false = ground (arith, same) in
      let older : ltb (default_zero m.schema_version) s.version ≡ false = ground (arith, same) in
      rw (newer, older, finish_load) refl

  -- The two ways to read, where what is read is an envelope of `v`.
  module _ (auto_migrate : Bool) (v : Data) (raw : List Byte) (m : Metadata Data) (legacy : Bool)
      (o : Disk Byte) where
    abbrev Gives : Option Data → Disk Byte → Type 0
    Gives w d = (w ≡ some v) × Keeps o d

    reading-Ends :
        (d : Disk Byte)
        → m.schema_version ≡ some s.version
        → Keeps o d
        → Ends Gives
            (Keeps o)
            (andthen (perform untouched d) (λ _. finish_load s r injector auto_migrate v m))
    reading-Ends d current keeps =
        perform_then (Keeps o) (λ _. Keeps o) Gives untouched d _ (λ fs. keeps) (λ fs. keeps)
          (λ e g. rw (finish_load-current auto_migrate v m current) (refl, g))

    chosen-Ends :
        (default : Option Data) (d : Disk Byte)
        → recoverable o ≡ some raw
        → decode s raw ≡ ok (v, m, legacy)
        → m.schema_version ≡ some s.version
        → Keeps o d
        → Ends Gives (Keeps o) (elim d.target [
          | some raw ↦ load_primary s r injector default auto_migrate raw d
          | none ↦ elim d.backup [
            | some raw ↦ load_backup s r injector default auto_migrate raw d
            | none ↦ give default d
          ]
        ])
    unfolding load_primary load_backup
    chosen-Ends default d found decodes current keeps = elim (Option-cases d.target) [
      | inr (x, there) ↦ rw there (
          let same : x ≡ raw = ground (arith, found, there) in
          rw (same, decodes) (reading-Ends d current keeps))
      | inl absent ↦ elim (Option-cases d.backup) [
        | inl empty ↦ absurd (ground (arith, found, absent, empty))
        | inr (x, there) ↦
            let same : x ≡ raw = ground (arith, found, absent, there) in
            rw (absent, there, same, decodes) (reading-Ends d current keeps)
      ]
    ]

  pub load_locked-Ends :
      (default : Option Data) (auto_migrate : Bool) (v : Data) (o : Disk Byte)
      → IsState s v o
      → Ends
          (λ w d. (w ≡ some v) × Keeps o d)
          (Keeps o)
          (load_locked s r injector default auto_migrate o)
  unfolding load_locked
  load_locked-Ends default auto_migrate v o h =
      let (raw, m, legacy, found, decodes, current) = h in
      andthen-Ends (Keeps o) (λ _. Keeps o) (Gives auto_migrate v raw m legacy o) _ _
        (remove_temporaries-Keeps o 0 o.temporaries o (refl, refl))
        (λ u e g. chosen-Ends auto_migrate v raw m legacy o default e found decodes current g)

  pub load_locked-quiet :
      (default : Option Data) (auto_migrate : Bool) (v : Data) (t b : Option (List Byte))
      (q ts : List (List Byte)) (own moved : Bool)
      → IsState s v (quiet t b q own moved ts)
      → load_locked s r injector default auto_migrate (quiet t b q own moved ts)
        ≡ (quiet t b q own moved [], returned (some v))
  unfolding load_locked load_primary load_backup perform andthen
  load_locked-quiet default auto_migrate v (some x) b q ts own moved
        (raw, m, legacy, found, decodes, current) =
      let same : x ≡ raw = ground (arith, found) in
      rw
        (
          remove_temporaries-quiet (some x) b q ts own moved,
          same,
          decodes,
          finish_load-current auto_migrate v m current,
        )
        refl
  load_locked-quiet default auto_migrate v none none q ts own moved
        (raw, m, legacy, found, decodes, current) =
      absurd (ground (arith, found))
  load_locked-quiet default auto_migrate v none (some x) q ts own moved
        (raw, m, legacy, found, decodes, current) =
      let same : x ≡ raw = ground (arith, found) in
      rw
        (
          remove_temporaries-quiet none (some x) q ts own moved,
          same,
          decodes,
          finish_load-current auto_migrate v m current,
        )
        refl
