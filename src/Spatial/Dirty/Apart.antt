-- ===== src/Spatial/Dirty/Apart.antt =====
-- The rounds of the merge, and the distance of the rectangles that it leaves.
use mathlib.Core.List.{append_assoc, append-nil}
use zdx_paralell_pyxel_vm.Base.{
  ℕ, zero, suc, ◌+◌, ◌≤◌, ◌<◌, ◌≡◌, refl, sym, ◌∙◌, inl, inr, true, false, some, List, [], ◌∷◌,
  ◌++◌, arith, length, length-append, Bool-cases,
}
use zdx_paralell_pyxel_vm.Base.Results.{ok}
use zdx_paralell_pyxel_vm.Spatial.Layout.{Layout}
use zdx_paralell_pyxel_vm.Spatial.Dirty.Step.{joined, kept_on, sweep_far, sweep_near}
use zdx_paralell_pyxel_vm.Spatial.Dirty.{Rect, Pass, separated, sweep, settle, mark}

-- Every pair of rectangles of the list is separated by at least one row or column.
abbrev pub FarFrom : Rect → List Rect → Type 0
FarFrom r [] = Unit
FarFrom r (c ∷ cs) = (separated r c ≡ true) × FarFrom r cs

abbrev pub AllApart : List Rect → Type 0
AllApart [] = Unit
AllApart (r ∷ rs) = FarFrom r rs × AllApart rs

AllApart-drop :
    (ps : List Rect) (c : Rect) (qs : List Rect) → AllApart (ps ++ c ∷ qs) → AllApart (ps ++ qs)
AllApart-drop [] c qs a = a.1
AllApart-drop (p ∷ ps) c qs a = (FarFrom-drop p ps c qs a.0, AllApart-drop ps c qs a.1)
  where
    FarFrom-drop :
        (p : Rect) (ps : List Rect) (c : Rect) (qs : List Rect)
        → FarFrom p (ps ++ c ∷ qs)
        → FarFrom p (ps ++ qs)
    FarFrom-drop p [] c qs f = f.1
    FarFrom-drop p (q ∷ ps) c qs f = (f.0, FarFrom-drop p ps c qs f.1)

sweep-AllApart :
    (s : Pass) (rest : List Rect) → AllApart (s.kept ++ rest) → AllApart (sweep s rest).kept
unfolding sweep
sweep-AllApart s [] a = rw append-nil at a
sweep-AllApart s (c ∷ rest) a = elim (Bool-cases (separated s.pending c)) [
  | inl far ↦
      rw (sweep_far s c rest far)
        (sweep-AllApart (kept_on s c) rest (rw (append_assoc s.kept (c ∷ []) rest) a))
  | inr near ↦
      rw (sweep_near s c rest near)
        (sweep-AllApart (joined s c) rest (AllApart-drop s.kept c rest a))
]

changed_stays : (s : Pass) (rest : List Rect) → s.changed ≡ true → (sweep s rest).changed ≡ true
unfolding sweep
changed_stays s [] h = h
changed_stays s (c ∷ rest) h = elim (Bool-cases (separated s.pending c)) [
  | inl far ↦ rw (sweep_far s c rest far) (changed_stays (kept_on s c) rest h)
  | inr near ↦ rw (sweep_near s c rest near) (changed_stays (joined s c) rest refl)
]

sweep_size :
    (s : Pass) (rest : List Rect) → length (sweep s rest).kept ≤ length s.kept + length rest
unfolding sweep
sweep_size s [] = omega arith
sweep_size s (c ∷ rest) = elim (Bool-cases (separated s.pending c)) [
  | inl far ↦
      rw (sweep_far s c rest far)
        (omega (arith, sweep_size (kept_on s c) rest, length-append s.kept (c ∷ [])))
  | inr near ↦ rw (sweep_near s c rest near) (omega (arith, sweep_size (joined s c) rest))
]

-- A pass that joins a rectangle keeps fewer.
sweep_shrinks :
    (s : Pass) (rest : List Rect)
    → s.changed ≡ false
    → (sweep s rest).changed ≡ true
    → length (sweep s rest).kept < length s.kept + length rest
unfolding sweep
sweep_shrinks s [] h k = cc
sweep_shrinks s (c ∷ rest) h k = elim (Bool-cases (separated s.pending c)) [
  | inl far ↦
      let shorter = sweep_shrinks (kept_on s c) rest h (rw (sweep_far s c rest far) at k) in
      rw (sweep_far s c rest far) (omega (arith, shorter, length-append s.kept (c ∷ [])))
  | inr near ↦ rw (sweep_near s c rest near) (omega (arith, sweep_size (joined s c) rest))
]

-- A pass that joins nothing keeps everything, and the pending rectangle is far from all of it.
sweep_quiet :
    (s : Pass) (rest : List Rect)
    → (sweep s rest).changed ≡ false
    → ((sweep s rest).pending ≡ s.pending)
      × ((sweep s rest).kept ≡ s.kept ++ rest)
      × FarFrom s.pending rest
unfolding sweep
sweep_quiet s [] k = (refl, sym (append-nil s.kept), tt)
sweep_quiet s (c ∷ rest) k = elim (Bool-cases (separated s.pending c)) [
  | inl far ↦
      let step = sweep_far s c rest far in
      let (p, q, f) = sweep_quiet (kept_on s c) rest (rw step at k) in
      (rw step p, rw step (q ∙ append_assoc s.kept (c ∷ []) rest), (far, f))
  | inr near ↦ cc (changed_stays (joined s c) rest refl, sweep_near s c rest near)
]

separated_sym : (p c : Rect) → separated p c ≡ separated c p
unfolding separated
separated_sym p c = ground arith

AllApart-snoc : (ps : List Rect) (r : Rect) → AllApart ps → FarFrom r ps → AllApart (ps ++ r ∷ [])
AllApart-snoc [] r a f = (tt, tt)
AllApart-snoc (p ∷ ps) r a f = (FarFrom-snoc ps a.0, AllApart-snoc ps r a.1 f.1)
  where
    FarFrom-snoc : (qs : List Rect) → FarFrom p qs → FarFrom p (qs ++ r ∷ [])
    FarFrom-snoc [] g = (separated_sym p r ∙ f.0, tt)
    FarFrom-snoc (q ∷ qs) g = (g.0, FarFrom-snoc qs g.1)

-- With one round more than there are rectangles the loop ends, and what it leaves is apart.
settle_ends :
    (fuel : ℕ) (pending : Rect) (remaining : List Rect)
    → length remaining < fuel
    → AllApart remaining
    → (rects : List Rect) × (settle fuel pending remaining ≡ some rects) × AllApart rects
unfolding settle
settle_ends zero pending remaining enough a = absurd (omega arith)
settle_ends (suc fuel) pending remaining enough a =
    let start : Pass = record { pending = pending; kept = []; changed = false } in
    let s = sweep start remaining in
    elim (Bool-cases s.changed) [
      | inl again ↦
          let shorter = sweep_shrinks start remaining refl again in
          let (rects, e, apart) =
            settle_ends fuel s.pending s.kept (omega (arith, shorter, enough))
              (sweep-AllApart start remaining a) in
          (rects, rw (again, settle) e, apart)
      | inr quiet ↦
          let (p, q, f) = sweep_quiet start remaining quiet in
          let far : FarFrom s.pending s.kept = rw (p, q) f in
          (
            s.kept ++ s.pending ∷ [],
            rw (quiet, settle) refl,
            AllApart-snoc s.kept s.pending (sweep-AllApart start remaining a) far,
          )
    ]

-- Marking a rectangle in the frame when the dirty rectangles are apart from each other (no two of them overlap
-- or touch) ends, and the rectangles that it leaves are apart from each other.
pub mark_apart :
    (l : Layout) (r : Rect) (dirty : List Rect)
    → r.x0 < r.x1
    → r.x1 ≤ l.width
    → r.y0 < r.y1
    → r.y1 ≤ l.height
    → AllApart dirty
    → (rects : List Rect) × (mark l r dirty ≡ ok rects) × AllApart rects
unfolding mark
mark_apart l r dirty wide in_x high in_y a =
    let (rects, e, apart) = settle_ends (suc (length dirty)) r dirty (omega arith) a in
    (rects, ground (arith, e), apart)
