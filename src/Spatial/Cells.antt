-- ===== src/Spatial/Cells.antt =====
-- SpatialFrame's cells: reading and writing one, as RGB and as a 24-bit number.
use zdx_paralell_pyxel_vm.Base.{
  ℕ, ◌+◌, ◌*◌, ◌/◌, ◌%◌, ◌<◌, ◌≤◌, ◌≡◌, ◌≢◌, ◌⊎◌, Bool, true, not, ◌&&◌, List, arith, ltb, leb,
  ◌==◌, if◌then◌else◌,
}
use zdx_paralell_pyxel_vm.Base.Results.{Result, ok, err, ◌>>=◌}
use zdx_paralell_pyxel_vm.Vm.Isa.{Pixel}
use zdx_paralell_pyxel_vm.Spatial.Layout.{Layout}
use zdx_paralell_pyxel_vm.Spatial.Dirty.{Rect, DirtyError, mark}
use zdx_paralell_pyxel_vm.Spatial.Dirty.Cover.{covered, mark_covers}
use zdx_paralell_pyxel_vm.Spatial.Dirty.Apart.{AllApart, mark_apart}

-- The image is the function `pixel` of the coordinates x and y.
pub record SpatialFrame : Type 0 where
  pub layout : Layout
  pub pixel : ℕ → ℕ → Pixel
  pub dirty : List Rect

pub data CellError : Type 0 where
  outside_cell bad_rgb bad_u24 : CellError
  not_marked : DirtyError → CellError

abbrev in_frame : SpatialFrame → ℕ → ℕ → Bool
in_frame f x y = ltb x f.layout.width && ltb y f.layout.height

unfoldable pub read_cell : SpatialFrame → ℕ → ℕ → Result CellError Pixel
read_cell f x y = if in_frame f x y then ok (f.pixel x y) else err outside_cell

abbrev put_pixel : ℕ → ℕ → Pixel → SpatialFrame → SpatialFrame
put_pixel x y p f = record f { pixel = λ i j. if i == x && j == y then p else f.pixel i j }

abbrev marked : SpatialFrame → Result DirtyError (List Rect) → Result CellError SpatialFrame
marked f (ok rects) = ok (record f { dirty = rects })
marked f (err e) = err (not_marked e)

abbrev is_rgb : Pixel → Bool
is_rgb p = leb p.r 255 && leb p.g 255 && leb p.b 255

abbrev cell : ℕ → ℕ → Rect
cell x y = record { x0 = x; y0 = y; x1 = x + 1; y1 = y + 1 }

-- A cell of the frame is a rectangle that `mark` accepts, so that the pixel is never left unmarked.
unfoldable pub write_cell : SpatialFrame → ℕ → ℕ → Pixel → Result CellError SpatialFrame
write_cell f x y p =
    if not (in_frame f x y)
    then err outside_cell
    else if not (is_rgb p)
    then err bad_rgb
    else marked (put_pixel x y p f) (mark f.layout (cell x y) f.dirty)

-- `(r << 16) | (g << 8) | b`: the channels are bytes, so that it is the sum.
abbrev number_of : Pixel → ℕ
number_of p = p.r * 65536 + p.g * 256 + p.b

abbrev from_number : ℕ → Pixel
from_number v = record { r = v / 65536 % 256; g = v / 256 % 256; b = v % 256 }

unfoldable pub read_u24 : SpatialFrame → ℕ → ℕ → Result CellError ℕ
unfolding read_cell
read_u24 f x y = read_cell f x y >>= λ p. ok (number_of p)

unfoldable pub write_u24 : SpatialFrame → ℕ → ℕ → ℕ → Result CellError SpatialFrame
unfolding write_cell
write_u24 f x y v = if leb v 16777215 then write_cell f x y (from_number v) else err bad_u24

number_of-from_number : (v : ℕ) → v ≤ 16777215 → number_of (from_number v) ≡ v
number_of-from_number v h = omega arith

from_number-is_rgb : (v : ℕ) → is_rgb (from_number v) ≡ true
from_number-is_rgb v = ground arith

-- Writing a 24-bit number to a cell of the frame, where the dirty rectangles are apart, succeeds: reading the
-- cell gives the number back, every other cell is as it was, the cell is dirty and so is every cell that
-- was, and the dirty rectangles are apart again.
write_u24-read_u24 :
    (f : SpatialFrame) (x y v : ℕ)
    → x < f.layout.width
    → y < f.layout.height
    → v ≤ 16777215
    → AllApart f.dirty
    → (after : SpatialFrame) × (write_u24 f x y v ≡ ok after)
      × (read_u24 after x y ≡ ok v)
      × ((i j : ℕ) → (i ≢ x) ⊎ (j ≢ y) → after.pixel i j ≡ f.pixel i j)
      × (covered x y after.dirty ≡ true)
      × ((i j : ℕ) → covered i j f.dirty ≡ true → covered i j after.dirty ≡ true)
      × AllApart after.dirty
unfolding write_u24 read_u24
write_u24-read_u24 f x y v wide high small a =
    let r = cell x y in
    let (rects, done, apart) =
      mark_apart f.layout r f.dirty (omega arith) (omega arith) (omega arith) (omega arith) a in
    (
      record (put_pixel x y (from_number v) f) { dirty = rects },
      ground (arith, done, from_number-is_rgb v),
      ground (arith, number_of-from_number v small),
      λ i j other. ground (arith, other),
      mark_covers f.layout r f.dirty rects x y done (ground arith),
      λ i j old. mark_covers f.layout r f.dirty rects i j done (ground (arith, old)),
      apart,
    )
