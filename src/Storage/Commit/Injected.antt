-- ===== src/Storage/Commit/Injected.antt =====
-- src/zdx_storage.py, `atomic_write_bytes`, where every operation of the system goes well: it
-- returns, or raises at a point of the failure injector.
use zdx_paralell_pyxel_vm.Base.{
  List, [], ◌∷◌, ◌++◌, Bool, true, false, Option, none, some, ◌≡◌, refl, ◌⊎◌, inl, inr, Bool-cases,
  sym,
}
use zdx_paralell_pyxel_vm.Storage.Disk.{
  Disk, Outcome, Point, after_temp_fsync, after_backup, before_replace, injected, perform, returned,
  raised, quiet, andthen, catching, finally_do,
}
use zdx_paralell_pyxel_vm.Storage.Commit.{
  write_all, move_old, commit_body, put_back, clean_up, atomic_write_bytes,
}
use mathlib.Core.List.{append_assoc, append-nil}

module _ {Byte : Type 0} (t b : Option (List Byte)) (ts q : List (List Byte)) where
  pub write_all-quiet :
      (w bs : List Byte)
      → write_all bs (quiet t b q true false (w ∷ ts))
        ≡ (quiet t b q true false ((w ++ bs) ∷ ts), returned tt)
  unfolding write_all perform andthen
  write_all-quiet w [] = rw (append-nil w) refl
  write_all-quiet w (x ∷ bs) =
      rw (sym (append_assoc w (x ∷ []) bs)) (write_all-quiet (w ++ (x ∷ [])) bs)

module _ {Byte : Type 0} (injector : Point → Bool) (payload : List Byte) where
  -- How a commit with nothing to go wrong but the injector ends.
  abbrev pub Settled :
      Option (List Byte) → List (List Byte) → Disk Byte × Outcome (Unit {0}) → Type 0
  Settled t ts (d, o) =
      ((o ≡ returned tt)
        × (injector after_temp_fsync ≡ false)
        × (injector before_replace ≡ false)
        × (d.target ≡ some payload)
        × (d.temporaries ≡ ts))
      ⊎ ((p : Point) × (o ≡ raised (injected p))
          × (injector p ≡ true)
          × (d.target ≡ t)
          × (d.temporaries ≡ ts))

  -- A commit in which no operation of the system fails either returns, with the payload as the
  -- target, where the injector passes the points that are always reached; or raises what the
  -- injector raised at a point, and the target is what it was. Its temporary is gone either way.
  pub atomic_write_bytes-Settled :
      (keep : Bool) (t b : Option (List Byte)) (ts q : List (List Byte)) (own moved : Bool)
      → Settled t ts (atomic_write_bytes injector keep payload (quiet t b q own moved ts))
  unfolding atomic_write_bytes commit_body move_old put_back clean_up andthen catching finally_do
      perform
  atomic_write_bytes-Settled keep none b ts q own moved =
      rw (write_all-quiet none b ts q [] payload) (elim (Bool-cases (injector after_temp_fsync)) [
        | inl a ↦ rw a (inr (after_temp_fsync, refl, a, refl, refl))
        | inr a ↦ elim (Bool-cases (injector before_replace)) [
          | inl c ↦ rw (a, c) (inr (before_replace, refl, c, refl, refl))
          | inr c ↦ rw (a, c) (inl (refl, refl, refl, refl, refl))
        ]
      ])
  atomic_write_bytes-Settled false (some old) b ts q own moved =
      rw (write_all-quiet (some old) b ts q [] payload)
        (elim (Bool-cases (injector after_temp_fsync)) [
          | inl a ↦ rw a (inr (after_temp_fsync, refl, a, refl, refl))
          | inr a ↦ elim (Bool-cases (injector before_replace)) [
            | inl c ↦ rw (a, c) (inr (before_replace, refl, c, refl, refl))
            | inr c ↦ rw (a, c) (inl (refl, refl, refl, refl, refl))
          ]
        ])
  atomic_write_bytes-Settled true (some old) b ts q own moved =
      rw (write_all-quiet (some old) b ts q [] payload)
        (elim (Bool-cases (injector after_temp_fsync)) [
          | inl a ↦ rw a (inr (after_temp_fsync, refl, a, refl, refl))
          | inr a ↦ elim (Bool-cases (injector after_backup)) [
            | inl m ↦ rw (a, m) (inr (after_backup, refl, m, refl, refl))
            | inr m ↦ elim (Bool-cases (injector before_replace)) [
              | inl c ↦ rw (a, m, c) (inr (before_replace, refl, c, refl, refl))
              | inr c ↦ rw (a, m, c) (inl (refl, refl, refl, refl, refl))
            ]
          ]
        ])
