-- ===== src/Storage/Commit/Crash.antt =====
-- src/zdx_storage.py, `atomic_write_bytes`: what the files hold where it returns, raises, or is
-- cut off by the death of the process.
use zdx_paralell_pyxel_vm.Base.{
  List, [], ◌∷◌, ◌++◌, Bool, true, false, not, ◌&&◌, Option, none, some, if◌then◌else◌, ◌≡◌, refl,
  ◌⊎◌, inl, inr, Bool-cases, arith, sym, ap,
}
use zdx_paralell_pyxel_vm.Storage.Disk.{
  Disk, Point, Failure, after_temp_fsync, after_backup, before_replace, give, raise, perform, ◌>>◌,
  Ends, andthen-Ends, catching-Ends, finally_do-Ends, perform-Ends, choose-Ends, perform_then,
  andthen,
}
use zdx_paralell_pyxel_vm.Storage.Commit.{
  is_file, grow, add_temporary, add_byte, write_all, untouched, move_target, commit_temporary,
  restore_backup, drop_temporary, hit, move_old, commit_body, put_back, clean_up,
  atomic_write_bytes,
}
use mathlib.Core.List.{append_assoc, append-nil}

pub hit-Ends :
    {Byte : Type 0} (injector : Point → Bool) (point : Point) (Bad : Disk Byte → Type 0)
    (Good : Unit {0} → Disk Byte → Type 0) (d : Disk Byte)
    → Good tt d
    → Bad d
    → Ends Good Bad (hit injector point d)
hit-Ends injector point Bad Good d good bad = elim (Bool-cases (injector point)) [
  | inl raises ↦ rw raises bad
  | inr passes ↦ rw passes good
]

-- What a reader finds: the state file, or its backup where there is none.
abbrev pub recoverable : {Byte : Type 0} → Disk Byte → Option (List Byte)
recoverable d = elim d.target [ none ↦ d.backup | some b ↦ some b ]

pub target-recoverable :
    {Byte : Type 0} (d : Disk Byte) (raw : List Byte)
    → d.target ≡ some raw
    → recoverable d ≡ some raw
target-recoverable d raw there = ground arith

module _ {Byte : Type 0} (payload : List Byte) (o : Disk Byte) where
  -- A reader finds what it found before, or the new payload.
  abbrev pub Safe : Disk Byte → Type 0
  Safe d = (recoverable d ≡ recoverable o) ⊎ (recoverable d ≡ some payload)

  -- Nothing but the new temporary is there, with `w` written in it.
  abbrev Writing : List Byte → Unit {0} → Disk Byte → Type 0
  Writing w u d =
      (d.target ≡ o.target)
      × (d.backup ≡ o.backup)
      × (d.temporaries ≡ w ∷ o.temporaries)
      × (d.temporary ≡ true)

  Writing-Safe : (w : List Byte) (d : Disk Byte) → Writing w tt d → Safe d
  Writing-Safe w d h = ground arith

  write_all-Ends :
      (w bs : List Byte) (d : Disk Byte)
      → Writing w tt d
      → Ends (Writing (w ++ bs)) Safe (write_all bs d)
  unfolding write_all
  write_all-Ends w [] d h = rw (append-nil w) h
  write_all-Ends w (b ∷ bs) d h =
      andthen-Ends Safe (Writing (w ++ (b ∷ []))) (Writing (w ++ (b ∷ bs))) _ _
        (perform-Ends Safe (Writing (w ++ (b ∷ []))) (add_byte b) d
          (λ fs. (h.0, h.1, ap (grow b) h.2, h.3)) (λ fs. Writing-Safe w d h))
        (λ v e g. rw (sym (append_assoc w (b ∷ []) bs)) (write_all-Ends (w ++ (b ∷ [])) bs e g))

  put_back-Ends :
      (Good : Unit {0} → Disk Byte → Type 0) (f : Failure) (d : Disk Byte)
      → Safe d
      → Ends Good Safe (put_back f d)
  unfolding put_back
  put_back-Ends Good f d h =
      choose-Ends Safe Good (d.moved_old && not (is_file d.target) && is_file d.backup)
        (perform restore_backup >> (perform untouched >> raise f)) (raise f) d
        (λ restores.
          andthen-Ends Safe (λ _. Safe) Good _ _
            (perform-Ends Safe (λ _. Safe) restore_backup d (λ fs. ground arith) (λ fs. h))
            (λ v e g.
              andthen-Ends Safe (λ _. Safe) Good _ _
                (perform-Ends Safe (λ _. Safe) untouched e (λ fs. g) (λ fs. g)) (λ _ _ q. q)))
        (λ leaves. h)

  clean_up-Ends : (d : Disk Byte) → Safe d → Ends (λ _. Safe) Safe (clean_up d)
  unfolding clean_up
  clean_up-Ends d h =
      choose-Ends Safe (λ _. Safe) d.temporary (perform drop_temporary) (give tt) d
        (λ own. perform-Ends Safe (λ _. Safe) drop_temporary d (λ fs. h) (λ fs. h)) (λ other. h)

module _ {Byte : Type 0} (injector : Point → Bool) (keep : Bool) (payload : List Byte)
    (o : Disk Byte) where
  abbrev pub backup_after : Option (List Byte)
  backup_after = if is_file o.target && keep then o.target else o.backup

  abbrev Moved : Unit {0} → Disk Byte → Type 0
  Moved u d =
      (recoverable d ≡ recoverable o)
      × (d.backup ≡ backup_after)
      × (d.temporaries ≡ payload ∷ o.temporaries)

  abbrev pub Committed : Unit {0} → Disk Byte → Type 0
  Committed u d =
      (d.target ≡ some payload)
      × (d.backup ≡ backup_after)
      × (d.temporaries ≡ o.temporaries)
      × (d.temporary ≡ false)

  move_old-Ends :
      (d : Disk Byte)
      → Writing payload o payload tt d
      → Ends Moved (Safe payload o) (move_old injector keep d)
  unfolding move_old
  move_old-Ends d h =
      choose-Ends (Safe payload o) Moved (is_file d.target && keep)
        (perform move_target >> hit injector after_backup) (give tt) d
        (λ moves.
          andthen-Ends (Safe payload o) Moved Moved _ _
            (perform-Ends (Safe payload o) Moved move_target d (λ fs. ground arith)
              (λ fs. Writing-Safe payload o payload d h))
            (λ v e g. hit-Ends injector after_backup (Safe payload o) Moved e g (inl g.0)))
        (λ stays. ground arith)

  abbrev BadSafe : Disk Byte → Type 0
  BadSafe = Safe payload o

  -- From the move of the new file into its place on.
  replaced-Ends :
      (d : Disk Byte)
      → Moved tt d
      → Ends Committed
          (Safe payload o)
          (andthen (perform commit_temporary d) (λ _. perform untouched >> perform untouched))
  replaced-Ends d h =
      perform_then BadSafe Committed Committed commit_temporary d _ (λ fs. ground arith)
        (λ fs. inl h.0)
        (λ e g.
          perform_then BadSafe Committed Committed untouched e _ (λ fs. g)
            (λ fs. inr (ground arith))
            (λ f k.
              perform-Ends BadSafe Committed untouched f (λ fs. k) (λ fs. inr (ground arith))))

  pub commit_body-Ends :
      (d : Disk Byte)
      → (d.target ≡ o.target) × (d.backup ≡ o.backup) × (d.temporaries ≡ o.temporaries)
      → Ends Committed (Safe payload o) (commit_body injector keep payload d)
  unfolding commit_body
  commit_body-Ends d h =
      let torn : (w : List Byte) (e : Disk Byte) → Writing payload o w tt e → Safe payload o e =
        Writing-Safe payload o in
      perform_then BadSafe (Writing payload o []) Committed add_temporary d _ (λ fs. ground arith)
        (λ fs. inl (ground arith))
        (λ e g.
          perform_then BadSafe (Writing payload o []) Committed untouched e _ (λ fs. g)
            (λ fs. torn [] e g)
            (λ f k.
              andthen-Ends BadSafe (Writing payload o payload) Committed _ _
                (write_all-Ends payload o [] payload f k)
                (λ v i m.
                  perform_then BadSafe (Writing payload o payload) Committed untouched i _ (λ fs. m)
                    (λ fs. torn payload i m)
                    (λ j n.
                      andthen-Ends BadSafe (Writing payload o payload) Committed _ _
                        (hit-Ends injector after_temp_fsync BadSafe (Writing payload o payload) j n
                          (torn payload j n))
                        (λ v q r.
                          andthen-Ends BadSafe Moved Committed _ _ (move_old-Ends q r) (λ v s t.
                            andthen-Ends BadSafe Moved Committed _ _
                              (hit-Ends injector before_replace BadSafe Moved s t (inl t.0))
                              (λ v x y. replaced-Ends x y)))))))

  -- Whatever operations of the system fail, wherever the injector raises and wherever the process
  -- dies: a commit that returns has left the payload as the target, the old target as the backup
  -- where there was one that is kept (the old backup otherwise) and no temporary of its own, and
  -- after a commit that does not return a reader finds what it found before or the payload.
  pub atomic_write_bytes-IsSafe :
      Ends Committed (Safe payload o) (atomic_write_bytes injector keep payload o)
  unfolding atomic_write_bytes clean_up
  atomic_write_bytes-IsSafe =
      finally_do-Ends BadSafe Committed Committed _ clean_up
        (catching-Ends BadSafe Committed BadSafe _ put_back (commit_body-Ends _ (refl, refl, refl))
          (λ d h. h) (λ f d h. put_back-Ends payload o Committed f d h))
        (λ v d h. keeps d h) (λ d h. clean_up-Ends payload o d h)
    where
      keeps : (d : Disk Byte) → Committed tt d → Ends Committed BadSafe (clean_up d)
      keeps d h = ground arith
