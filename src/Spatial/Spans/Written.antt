-- ===== src/Spatial/Spans/Written.antt =====
-- zdx_spatial_frame.py, SpatialFrame: what is read after write_bytes and write_json.
use zdx_paralell_pyxel_vm.Base.{
  ℕ, zero, suc, ◌+◌, ◌-◌, ◌/◌, ◌%◌, ◌≤◌, ◌<◌, ◌≡◌, refl, ◌∙◌, ap, String, List, [], ◌∷◌, true,
  false, ◌&&◌, ltb, leb, ◌==◌, length, get_or, arith, inl, inr, ◌⊎◌, Bool-cases,
}
use zdx_paralell_pyxel_vm.Base.Results.{ok}
use zdx_paralell_pyxel_vm.Vm.Isa.{Pixel}
use zdx_paralell_pyxel_vm.Bytes.{Bytes}
use zdx_paralell_pyxel_vm.Spatial.Layout.{Region, capacity_bytes, contains, region}
use zdx_paralell_pyxel_vm.Spatial.Dirty.{Rect}
use zdx_paralell_pyxel_vm.Spatial.Dirty.Cover.{covered, mark_covers}
use zdx_paralell_pyxel_vm.Spatial.Dirty.Apart.{AllApart, mark_apart}
use zdx_paralell_pyxel_vm.Spatial.Cells.{SpatialFrame}
use zdx_paralell_pyxel_vm.Spatial.Spans.{
  block_byte, block_slice, byte_at, write_block, span_rect, find_target, write_bytes, read_bytes,
}
use zdx_paralell_pyxel_vm.Spatial.Spans.Place.{block_byte-write_block}
use zdx_paralell_pyxel_vm.Spatial.Spans.Marks.{span_rect-IsInside, span_rect_covers}

get_or-default : (raw : Bytes) (i d e : ℕ) → i < length raw → get_or raw i d ≡ get_or raw i e
get_or-default [] i d e h = absurd (omega arith)
get_or-default (x ∷ raw) zero d e h = refl
get_or-default (x ∷ raw) (suc i) d e h = get_or-default raw i d e (omega arith)

byte_at-inside :
    (raw : Bytes) (offset i old : ℕ)
    → i < length raw
    → byte_at raw offset (offset + i) old ≡ get_or raw i 0
byte_at-inside raw offset i old h =
    let here : (leb offset (offset + i) && ltb (offset + i) (offset + length raw)) ≡ true =
      ground (arith, h) in
    let place : offset + i - offset ≡ i = omega arith in
    rw here (ap (λ j. get_or raw j old) place ∙ get_or-default raw i old 0 h)

byte_at-outside :
    (raw : Bytes) (offset k old : ℕ)
    → (k < offset) ⊎ (offset + length raw ≤ k)
    → byte_at raw offset k old ≡ old
byte_at-outside raw offset k old h = ground (arith, h)

-- A slice with the bytes of a list is that list.
block_slice-is :
    (image : ℕ → ℕ → Pixel) (t : Region) (o : ℕ) (raw : Bytes)
    → ((i : ℕ) → i < length raw → block_byte image t (o + i) ≡ get_or raw i 0)
    → block_slice image t o (length raw) ≡ raw
unfolding block_slice
block_slice-is image t o [] h = refl
block_slice-is image t o (x ∷ raw) h =
    let head : block_byte image t o ≡ x =
      ap (block_byte image t) (omega arith) ∙ h 0 (omega arith) in
    let rest =
      block_slice-is image t (suc o) raw
        (λ i low. ap (block_byte image t) (omega arith) ∙ h (suc i) (omega arith)) in
    rw (head, rest) refl

block_slice-write_block :
    (image : ℕ → ℕ → Pixel) (t : Region) (raw : Bytes) (offset : ℕ)
    → offset + length raw ≤ capacity_bytes t
    → block_slice (write_block image t raw offset) t offset (length raw) ≡ raw
block_slice-write_block image t raw offset room =
    block_slice-is (write_block image t raw offset) t offset raw (λ i h.
      block_byte-write_block image t raw offset (offset + i) (omega (arith, room, h))
      ∙ byte_at-inside raw offset i (block_byte image t (offset + i)) h)

write_block-outside :
    (image : ℕ → ℕ → Pixel) (t : Region) (raw : Bytes) (offset i j : ℕ)
    → contains t i j ≡ false
    → write_block image t raw offset i j ≡ image i j
unfolding write_block
write_block-outside image t raw offset i j h = rw h refl

module _ (f : SpatialFrame) (raw : Bytes) (name : String) (offset : ℕ) (t : Region) where
  -- What a write has done, and nothing else.
  abbrev pub IsWritten : SpatialFrame → Type 0
  IsWritten after =
      (write_bytes f raw name offset ≡ ok after)
      × (after.layout ≡ f.layout)
      × (read_bytes after (length raw) name offset ≡ ok raw)
      × ((k : ℕ)
          → k < capacity_bytes t
          → (k < offset) ⊎ (offset + length raw ≤ k)
          → block_byte after.pixel t k ≡ block_byte f.pixel t k)
      × ((i j : ℕ) → contains t i j ≡ false → after.pixel i j ≡ f.pixel i j)
      × ((k : ℕ)
          → offset ≤ k
          → k < offset + length raw
          → covered (t.x + k / 3 % t.width) (t.y + k / 3 / t.width) after.dirty ≡ true)
      × AllApart after.dirty

  abbrev new_image : ℕ → ℕ → Pixel
  new_image = write_block f.pixel t raw offset

  module _ (found : region f.layout name ≡ ok t)
      (room : offset + length raw ≤ capacity_bytes t) where
    target : find_target f.layout name ≡ ok t
    unfolding find_target
    target = rw (found, find_target) refl

    room_test : ltb (capacity_bytes t) (offset + length raw) ≡ false
    room_test = ground (arith, room)

    reads :
        (dirty : List Rect)
        → read_bytes (record f { pixel = new_image; dirty = dirty }) (length raw) name offset
          ≡ ok raw
    unfolding read_bytes
    reads dirty =
        rw (target, room_test, read_bytes)
          (ap ok (block_slice-write_block f.pixel t raw offset room))

    keeps :
        (k : ℕ)
        → k < capacity_bytes t
        → (k < offset) ⊎ (offset + length raw ≤ k)
        → block_byte new_image t k ≡ block_byte f.pixel t k
    keeps k low out =
        block_byte-write_block f.pixel t raw offset k low
        ∙ byte_at-outside raw offset k (block_byte f.pixel t k) out

    -- Writing bytes that have room at the offset of a region, which lies in the frame, where the
    -- dirty rectangles are apart, succeeds: reading there gives the bytes back, the other bytes of the
    -- region and the cells outside of it are as they were, the cells written are dirty, and the dirty
    -- rectangles are apart again.
    pub write_bytes-IsWritten :
        t.x + t.width ≤ f.layout.width
        → t.y + t.height ≤ f.layout.height
        → AllApart f.dirty
        → (after : SpatialFrame) × IsWritten after
    unfolding write_bytes
    write_bytes-IsWritten across down apart = elim (Bool-cases (length raw == 0)) [
      | inl empty ↦ (
        record f { pixel = new_image },
        (
          rw (target, room_test, empty, write_bytes) refl,
          refl,
          reads f.dirty,
          keeps,
          write_block-outside f.pixel t raw offset,
          λ k low high. absurd (ground (arith, empty, low, high)),
          apart,
        ),
      )
      | inr some_bytes ↦
          let many : 1 ≤ length raw = ground (arith, some_bytes) in
          let (wide, in_x, high, in_y) =
            span_rect-IsInside f.layout t offset (length raw) across down many room in
          let (rects, done, still_apart) =
            mark_apart f.layout (span_rect t offset (length raw)) f.dirty wide in_x high in_y
              apart in
          (
            record f { pixel = new_image; dirty = rects },
            (
              rw (target, room_test, some_bytes, done, write_bytes) refl,
              refl,
              reads rects,
              keeps,
              write_block-outside f.pixel t raw offset,
              λ k low under.
                  mark_covers f.layout (span_rect t offset (length raw)) f.dirty rects _ _ done (
                    ground (
                      arith,
                      span_rect_covers f.layout t offset (length raw) across down many room k low
                          under,
                    )),
              still_apart,
            ),
          )
    ]
