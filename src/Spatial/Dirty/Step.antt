-- ===== src/Spatial/Dirty/Step.antt =====
-- One rectangle of a pass over the dirty list: it stays apart, or it is joined.
use zdx_paralell_pyxel_vm.Base.{◌≡◌, refl, true, false, List, [], ◌∷◌, ◌++◌}
use zdx_paralell_pyxel_vm.Spatial.Dirty.{Rect, Pass, separated, join, sweep}

abbrev pub joined : Pass → Rect → Pass
joined s c = record s { pending = join s.pending c; changed = true }

abbrev pub kept_on : Pass → Rect → Pass
kept_on s c = record s { kept = s.kept ++ c ∷ [] }

pub sweep_far :
    (s : Pass) (c : Rect) (rest : List Rect)
    → separated s.pending c ≡ true
    → sweep s (c ∷ rest) ≡ sweep (kept_on s c) rest
unfolding sweep
sweep_far s c rest far = rw (far, sweep) refl

pub sweep_near :
    (s : Pass) (c : Rect) (rest : List Rect)
    → separated s.pending c ≡ false
    → sweep s (c ∷ rest) ≡ sweep (joined s c) rest
unfolding sweep
sweep_near s c rest near = rw (near, sweep) refl
