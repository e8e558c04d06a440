-- ===== src/Examples/Spatial.antt =====
-- A frame of 8 by 8 cells with two executable rows and two data regions.
use zdx_paralell_pyxel_vm.Base.{
  ℕ, zero, suc, ◌<◌, ◌≡◌, refl, true, false, List, [], ◌∷◌, Option, none, some, arith,
}
use zdx_paralell_pyxel_vm.Base.Results.{ok, err}
use zdx_paralell_pyxel_vm.Spatial.Layout.{
  Region, Layout, region, find_region, contains, post_init, overlapping, address, coordinates,
  check_region, check_regions, check_apart, check_overlaps, regions_overlap, named,
}
use zdx_paralell_pyxel_vm.Spatial.Regions.{regions_disjoint}
use zdx_paralell_pyxel_vm.Spatial.Address.{address-coordinates_inverse}
use zdx_paralell_pyxel_vm.Spatial.Dirty.{Rect, mark, settle, sweep, separated, join}
use zdx_paralell_pyxel_vm.Spatial.Cells.{SpatialFrame}
use zdx_paralell_pyxel_vm.Spatial.Spans.{write_json, read_json}
use zdx_paralell_pyxel_vm.Spatial.Spans.Written.{IsWritten, write_bytes-IsWritten}
use zdx_paralell_pyxel_vm.Spatial.Spans.Documents.{write_json-read_json}
use zdx_paralell_pyxel_vm.Spatial.Dirty.Apart.{AllApart, mark_apart}
use zdx_paralell_pyxel_vm.Spatial.Machine.{execute_spatial_frame}
use zdx_paralell_pyxel_vm.Spatial.Machine.Rows.{execute_spatial_frame-rows}
use zdx_paralell_pyxel_vm.Vm.Isa.{Pixel, nop}
use zdx_paralell_pyxel_vm.Vm.Chain.{Files}
use zdx_paralell_pyxel_vm.Examples.Machines.{idle_vm, link_frame, toy_digest, pixel}

abbrev left_half : Region
left_half = record { name = "left"; x = 0; y = 2; width = 4; height = 6; kind = "data" }

abbrev right_half : Region
right_half = record { name = "right"; x = 4; y = 2; width = 4; height = 3; kind = "data" }

abbrev frame : Layout
frame = record { width = 8; height = 8; execution_rows = 2; regions = left_half ∷ right_half ∷ [] }

accepted : post_init frame ≡ ok tt
unfolding post_init check_regions check_overlaps check_region check_apart regions_overlap named
accepted = refl

-- A region that is one column wider is refused.
overlap_refused :
    post_init (record frame { regions = record left_half { width = 5 } ∷ right_half ∷ [] })
    ≡ err (overlapping (record left_half { width = 5 }) right_half)
unfolding post_init check_regions check_overlaps check_region check_apart regions_overlap named
overlap_refused = refl

regions_disjoint_example : contains right_half 3 4 ≡ false
unfolding contains
regions_disjoint_example =
    regions_disjoint frame accepted 0 1 left_half right_half 3 4 refl refl (omega arith) refl

address-coordinates_inverse_example :
    ((b : ℕ) × (address frame 3 4 ≡ ok b) × (b < 64) × (coordinates frame b ≡ ok (3, 4)))
    × ((i j : ℕ) × (coordinates frame 35 ≡ ok (i, j))
        × (i < 8)
        × (j < 8)
        × (address frame i j ≡ ok 35))
address-coordinates_inverse_example =
    address-coordinates_inverse frame 3 4 35 (omega arith) (omega arith) (omega arith)

-- Two corners of the frame.
abbrev corners : List Rect
corners = record { x0 = 0; y0 = 0; x1 = 2; y1 = 2 } ∷ record { x0 = 6; y0 = 6; x1 = 8; y1 = 8 } ∷ []

-- It touches the first corner only, and grows over it to (0, 0)-(4, 4).
abbrev middle : Rect
middle = record { x0 = 2; y0 = 2; x1 = 4; y1 = 4 }

abbrev after_middle : List Rect
after_middle =
    record { x0 = 6; y0 = 6; x1 = 8; y1 = 8 } ∷ record { x0 = 0; y0 = 0; x1 = 4; y1 = 4 } ∷ []

middle_joins : mark frame middle corners ≡ ok after_middle
unfolding mark settle sweep separated join
middle_joins = refl

mark_apart_example : (rects : List Rect) × (mark frame middle corners ≡ ok rects) × AllApart rects
unfolding separated
mark_apart_example =
    mark_apart frame middle corners (omega arith) (omega arith) (omega arith) (omega arith)
      ((refl, tt), (tt, tt))

abbrev image : SpatialFrame
image = record { layout = frame; pixel = λ x y. record { r = 0; g = 0; b = 0 }; dirty = corners }

left_half_found : region frame "left" ≡ ok left_half
unfolding region find_region
left_half_found = refl

-- Four bytes from the last byte of the first cell on.
write_bytes-IsWritten_example :
    (after : SpatialFrame) × IsWritten image (7 ∷ 8 ∷ 9 ∷ 10 ∷ []) "left" 2 left_half after
unfolding separated
write_bytes-IsWritten_example =
    write_bytes-IsWritten image (7 ∷ 8 ∷ 9 ∷ 10 ∷ []) "left" 2 left_half left_half_found
      (omega arith) (omega arith) (omega arith) ((refl, tt), (tt, tt))

abbrev dumped : ℕ → List ℕ
dumped v = v ∷ []

abbrev loaded : List ℕ → Option ℕ
loaded [] = none
loaded (v ∷ vs) = some v

write_json-read_json_example :
    (after : SpatialFrame) × (write_json dumped loaded image 42 "left" ≡ ok after)
    × (read_json dumped loaded after "left" ≡ ok (some 42))
unfolding separated
write_json-read_json_example =
    write_json-read_json dumped loaded image 42 "left" left_half left_half_found (omega arith)
      (omega arith) ((refl, tt), (tt, tt)) refl (omega arith) (omega arith) (omega arith)

abbrev frames_on_disk : Files
frames_on_disk = record { open_image = λ path. some link_frame; exists = λ path. true }

abbrev with_rows : Pixel → ℕ → Pixel
with_rows p zero = pixel 10 0 200
with_rows p (suc zero) = pixel 11 0 100
with_rows p (suc (suc n)) = p

-- SET_A 200 and SET_B 100 on the two executable rows, and `p` on every storage row.
abbrev with_storage : Pixel → SpatialFrame
with_storage p = record { layout = frame; pixel = λ x y. with_rows p y; dirty = corners }

agree_below :
    (y x : ℕ) → y < 2 → (with_storage nop).pixel x y ≡ (with_storage (pixel 70 0 0)).pixel x y
agree_below zero x low = refl
agree_below (suc zero) x low = refl
agree_below (suc (suc n)) x low = absurd (omega arith)

-- JMP 0 on the storage rows.
execute_spatial_frame-rows_example :
    execute_spatial_frame frames_on_disk toy_digest frame (with_storage nop) idle_vm
    ≡ execute_spatial_frame frames_on_disk toy_digest frame (with_storage (pixel 70 0 0)) idle_vm
execute_spatial_frame-rows_example =
    execute_spatial_frame-rows frames_on_disk toy_digest frame (with_storage nop)
      (with_storage (pixel 70 0 0)) idle_vm refl refl agree_below
