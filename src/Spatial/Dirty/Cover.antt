-- ===== src/Spatial/Dirty/Cover.antt =====
-- The cells that the dirty rectangles cover.
use zdx_paralell_pyxel_vm.Base.{
  ℕ, zero, suc, ◌≡◌, refl, inl, inr, Bool, true, false, ◌&&◌, ◌||◌, some, List, [], ◌∷◌, ◌++◌,
  arith, ltb, leb, length, Option-cases, Bool-cases,
}
use zdx_paralell_pyxel_vm.Base.Results.{ok}
use zdx_paralell_pyxel_vm.Spatial.Layout.{Layout}
use zdx_paralell_pyxel_vm.Spatial.Dirty.Step.{joined, kept_on, sweep_far, sweep_near}
use zdx_paralell_pyxel_vm.Spatial.Dirty.{Rect, Pass, separated, join, sweep, settle, mark}

-- The cell lies in the rectangle, or in one of the list.
abbrev pub in_rect : ℕ → ℕ → Rect → Bool
in_rect x y r = leb r.x0 x && ltb x r.x1 && leb r.y0 y && ltb y r.y1

abbrev pub covered : ℕ → ℕ → List Rect → Bool
covered x y [] = false
covered x y (r ∷ rs) = in_rect x y r || covered x y rs

covered-append :
    (x y : ℕ) (ps qs : List Rect) → covered x y (ps ++ qs) ≡ (covered x y ps || covered x y qs)
covered-append x y [] qs = refl
covered-append x y (p ∷ ps) qs = ground (arith, covered-append x y ps qs)

join_covers :
    (x y : ℕ) (p c : Rect) → (in_rect x y p || in_rect x y c) ≡ true → in_rect x y (join p c) ≡ true
unfolding join
join_covers x y p c h = ground arith

-- A pass loses no cell.
sweep_covers :
    (x y : ℕ) (s : Pass) (rest : List Rect)
    → (in_rect x y s.pending || covered x y s.kept || covered x y rest) ≡ true
    → (in_rect x y (sweep s rest).pending || covered x y (sweep s rest).kept) ≡ true
unfolding sweep
sweep_covers x y s [] h = ground arith
sweep_covers x y s (c ∷ rest) h = elim (Bool-cases (separated s.pending c)) [
  | inl far ↦
      rw (sweep_far s c rest far)
        (sweep_covers x y (kept_on s c) rest (ground (arith, covered-append x y s.kept (c ∷ []))))
  | inr near ↦
      rw (sweep_near s c rest near)
        (sweep_covers x y (joined s c) rest (ground (arith, join_covers x y s.pending c)))
]

settle_covers :
    (x y fuel : ℕ) (pending : Rect) (remaining rects : List Rect)
    → settle fuel pending remaining ≡ some rects
    → (in_rect x y pending || covered x y remaining) ≡ true
    → covered x y rects ≡ true
unfolding settle
settle_covers x y zero pending remaining rects e h = cc
settle_covers x y (suc fuel) pending remaining rects e h =
    let start : Pass = record { pending = pending; kept = []; changed = false } in
    let s = sweep start remaining in
    ground (
      arith,
      sweep_covers x y start remaining (ground (arith, h)),
      settle_covers x y fuel s.pending s.kept rects,
      covered-append x y s.kept (s.pending ∷ []),
    )

-- After a mark every cell that was dirty still is, and every cell of the marked rectangle is too.
pub mark_covers :
    (l : Layout) (r : Rect) (dirty rects : List Rect) (x y : ℕ)
    → mark l r dirty ≡ ok rects
    → (in_rect x y r || covered x y dirty) ≡ true
    → covered x y rects ≡ true
unfolding mark
mark_covers l r dirty rects x y e h = ground (
  arith,
  Option-cases (settle (suc (length dirty)) r dirty),
  settle_covers x y (suc (length dirty)) r dirty rects,
)
