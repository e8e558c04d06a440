-- ===== src/Spatial/Spans.antt =====
-- zdx_spatial_frame.py, SpatialFrame: the bytes of a region, row by row and three to a cell, and the
-- JSON documents stored in them behind a length of four bytes.
use zdx_paralell_pyxel_vm.Base.{
  ℕ, zero, suc, ◌+◌, ◌-◌, ◌*◌, ◌/◌, ◌%◌, String, List, [], ◌∷◌, ◌++◌, Bool, true, false, not, ◌&&◌,
  Option, none, some, if◌then◌else◌, ltb, leb, ◌==◌, length, get_or,
}
use zdx_paralell_pyxel_vm.Base.Results.{Result, ok, err, ◌>>=◌}
use zdx_paralell_pyxel_vm.Vm.Isa.{Pixel}
use zdx_paralell_pyxel_vm.Spatial.Layout.{
  Region, Layout, LayoutError, capacity_bytes, contains, region,
}
use zdx_paralell_pyxel_vm.Spatial.Dirty.{Rect, DirtyError, mark}
use zdx_paralell_pyxel_vm.Spatial.Cells.{SpatialFrame}
use zdx_paralell_pyxel_vm.Bytes.{Bytes, big_endian, from_big_endian}
pub mod Place
pub mod Marks
pub mod Written
pub mod Documents

pub data SpanError : Type 0 where
  no_region : LayoutError → SpanError
  beyond_region : SpanError
  unmarked : DirtyError → SpanError
  too_small length_too_large not_json length_overflow : SpanError

abbrev pub channel : ℕ → Pixel → ℕ
channel zero p = p.r
channel (suc zero) p = p.g
channel (suc (suc c)) p = p.b

-- The byte `k` of the block that is the region, flattened.
abbrev pub block_byte : (ℕ → ℕ → Pixel) → Region → ℕ → ℕ
block_byte image t k = channel (k % 3) (image (t.x + k / 3 % t.width) (t.y + k / 3 / t.width))

-- `block[offset : offset + n]`
unfoldable pub block_slice : (ℕ → ℕ → Pixel) → Region → ℕ → ℕ → Bytes
block_slice image t offset zero = []
block_slice image t offset (suc n) = block_byte image t offset ∷ block_slice image t (suc offset) n

-- `self.layout.region(region)`
unfoldable pub find_target : Layout → String → Result SpanError Region
find_target l name = elim (region l name) [ ok t ↦ ok t | err e ↦ err (no_region e) ]

unfoldable pub read_bytes : SpatialFrame → ℕ → String → ℕ → Result SpanError Bytes
read_bytes f n name offset = do
  t ← find_target f.layout name
  if ltb (capacity_bytes t) (offset + n)
      then err beyond_region
      else ok (block_slice f.pixel t offset n)

-- The byte `k` of the block, where `data` was assigned at `offset`.
abbrev pub byte_at : Bytes → ℕ → ℕ → ℕ → ℕ
byte_at raw offset k old =
    if leb offset k && ltb k (offset + length raw) then get_or raw (k - offset) old else old

abbrev pub write_pixel : Bytes → ℕ → ℕ → Pixel → Pixel
write_pixel raw offset p old = record {
  r = byte_at raw offset (p * 3) old.r;
  g = byte_at raw offset (p * 3 + 1) old.g;
  b = byte_at raw offset (p * 3 + 2) old.b;
}

-- The image with the block of the region assigned.
unfoldable pub write_block : (ℕ → ℕ → Pixel) → Region → Bytes → ℕ → ℕ → ℕ → Pixel
write_block image t raw offset i j =
    if contains t i j
    then write_pixel raw offset ((j - t.y) * t.width + (i - t.x)) (image i j)
    else image i j

-- What a span of bytes marks: part of one row, or the rows from its first to its last.
unfoldable pub span_rect : Region → ℕ → ℕ → Rect
span_rect t offset n =
    let first = offset / 3 in
    let last = (offset + n - 1) / 3 in
    if first / t.width == last / t.width
    then record {
      x0 = t.x + first % t.width;
      y0 = t.y + first / t.width;
      x1 = t.x + last % t.width + 1;
      y1 = t.y + last / t.width + 1;
    }
    else record {
      x0 = t.x;
      y0 = t.y + first / t.width;
      x1 = t.x + t.width;
      y1 = t.y + last / t.width + 1;
    }

abbrev marking : SpatialFrame → Result DirtyError (List Rect) → Result SpanError SpatialFrame
marking f (ok rects) = ok (record f { dirty = rects })
marking f (err e) = err (unmarked e)

unfoldable pub write_bytes : SpatialFrame → Bytes → String → ℕ → Result SpanError SpatialFrame
write_bytes f raw name offset = do
  t ← find_target f.layout name
  if ltb (capacity_bytes t) (offset + length raw)
      then err beyond_region
      else (let written : SpatialFrame = record f { pixel = write_block f.pixel t raw offset } in
          if length raw == 0
          then ok written
          else marking written (mark f.layout (span_rect t offset (length raw)) f.dirty))

-- `json.dumps` and `json.loads` are the parameters `dumps` and `loads`.
module _ {Json : Type 0} (dumps : Json → Bytes) (loads : Bytes → Option Json) where
  -- `len(payload).to_bytes(4, "big")` raises where four bytes are too few.
  unfoldable pub write_json : SpatialFrame → Json → String → Result SpanError SpatialFrame
  write_json f value name =
      let payload = dumps value in
      if ltb (length payload) 4294967296
      then write_bytes f (big_endian 4 (length payload) ++ payload) name 0
      else err length_overflow

  unfoldable pub read_json : SpatialFrame → String → Result SpanError (Option Json)
  read_json f name = do
    t ← find_target f.layout name
    if ltb (capacity_bytes t) 4 then err too_small else (do
      header ← read_bytes f 4 name 0
      let n = from_big_endian 0 header
      if n == 0 then ok none else if ltb (capacity_bytes t - 4) n then err length_too_large else (do
        payload ← read_bytes f n name 4
        elim (loads payload) [ none ↦ err not_json | some v ↦ ok (some v) ]))
