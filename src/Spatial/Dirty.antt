-- ===== src/Spatial/Dirty.antt =====
-- SpatialFrame's list of dirty rectangles.
pub mod Step
pub mod Cover
pub mod Apart
use zdx_paralell_pyxel_vm.Base.{
  ℕ, zero, suc, ◌+◌, Bool, true, false, ◌&&◌, ◌||◌, Option, none, some, List, [], ◌∷◌, ◌++◌, min,
  max, ltb, leb, if◌then◌else◌, length,
}
use zdx_paralell_pyxel_vm.Base.Results.{Result, ok, err}
use zdx_paralell_pyxel_vm.Spatial.Layout.{Layout}

-- A half-open rectangle.
pub record Rect : Type 0 where
  pub x0 : ℕ
  pub y0 : ℕ
  pub x1 : ℕ
  pub y1 : ℕ

unfoldable pub separated : Rect → Rect → Bool
separated p c = ltb p.x1 c.x0 || ltb c.x1 p.x0 || ltb p.y1 c.y0 || ltb c.y1 p.y0

unfoldable pub join : Rect → Rect → Rect
join p c = record { x0 = min p.x0 c.x0; y0 = min p.y0 c.y0; x1 = max p.x1 c.x1; y1 = max p.y1 c.y1 }

-- One pass of the `for` loop: the pending rectangle, `next_remaining`, and `changed`.
pub record Pass : Type 0 where
  pub pending : Rect
  pub kept : List Rect
  pub changed : Bool

unfoldable pub sweep : Pass → List Rect → Pass
unfolding separated join
sweep s [] = s
sweep s (c ∷ rest) =
    sweep
      (if separated s.pending c
        then record s { kept = s.kept ++ c ∷ [] }
        else record s { pending = join s.pending c; changed = true })
      rest

-- The `while True` loop with `fuel` rounds; `none` if they do not suffice.
unfoldable pub settle : ℕ → Rect → List Rect → Option (List Rect)
unfolding sweep
settle zero pending remaining = none
settle (suc fuel) pending remaining =
    let s = sweep (record { pending = pending; kept = []; changed = false }) remaining in
    let again = settle fuel s.pending s.kept in
    if s.changed then again else some (s.kept ++ s.pending ∷ [])

pub data DirtyError : Type 0 where
  outside_frame out_of_fuel : DirtyError

abbrev pub settled : Option (List Rect) → Result DirtyError (List Rect)
settled none = err out_of_fuel
settled (some rects) = ok rects

-- `_mark_dirty_rectangle`. Each round but the last drops a rectangle, so that one round more than
-- there are rectangles is enough, and `out_of_fuel` does not occur.
unfoldable pub mark : Layout → Rect → List Rect → Result DirtyError (List Rect)
unfolding settle
mark l r dirty =
    if ltb r.x0 r.x1 && leb r.x1 l.width && ltb r.y0 r.y1 && leb r.y1 l.height
    then settled (settle (suc (length dirty)) r dirty)
    else err outside_frame
