-- ===== src/Spatial/Spans/Marks.antt =====
-- zdx_spatial_frame.py, SpatialFrame.write_bytes: the rectangle that a span of bytes marks.
use zdx_paralell_pyxel_vm.Base.{
  ℕ, ◌+◌, ◌-◌, ◌*◌, ◌/◌, ◌%◌, ◌≤◌, ◌<◌, ◌≡◌, ap, true, ltb, ◌==◌, ==_iff, arith, inl, inr,
  Bool-cases,
}
use zdx_paralell_pyxel_vm.Spatial.Layout.{Region, Layout, capacity_bytes}
use zdx_paralell_pyxel_vm.Spatial.Dirty.{Rect}
use zdx_paralell_pyxel_vm.Spatial.Dirty.Cover.{in_rect}
use zdx_paralell_pyxel_vm.Spatial.Address.{div_lt, mod_lt, div_mod}
use zdx_paralell_pyxel_vm.Spatial.Spans.{span_rect}

rows_apart : (i j size : ℕ) → i < j → i * size + size ≤ j * size
rows_apart i j size h = grind arith

mod_below : (a w : ℕ) → 1 ≤ w → a % w < w
mod_below a w h = grind arith

quotient_mono : (a b w : ℕ) → 1 ≤ w → a ≤ b → a / w ≤ b / w
quotient_mono a b w some_width h = elim (Bool-cases (ltb (b / w) (a / w))) [
  | inr other ↦ ground (arith, other)
  | inl less ↦ absurd (
      omega (
        arith,
        rows_apart (b / w) (a / w) w (ground (arith, less)),
        div_mod a w,
        div_mod b w,
        mod_below b w some_width,
        h,
      ))
]

-- Of two cells in a row the earlier is further left.
column_mono : (a b w : ℕ) → a ≤ b → a / w ≡ b / w → a % w ≤ b % w
column_mono a b w h same = omega (arith, div_mod a w, div_mod b w, ap (λ q. q * w) same, h)

module _ (l : Layout) (t : Region) (offset n : ℕ) (across : t.x + t.width ≤ l.width)
    (down : t.y + t.height ≤ l.height) (some_byte : 1 ≤ n)
    (room : offset + n ≤ capacity_bytes t) where
  abbrev first : ℕ
  first = offset / 3

  abbrev last : ℕ
  last = (offset + n - 1) / 3

  last_inside : last < t.width * t.height
  last_inside = omega (arith, some_byte, room)

  some_width : 1 ≤ t.width
  some_width = grind (arith, mod_lt last t.width t.height last_inside)

  abbrev IsInside : Rect → Type 0
  IsInside r = (r.x0 < r.x1) × (r.x1 ≤ l.width) × (r.y0 < r.y1) × (r.y1 ≤ l.height)

  pub span_rect-IsInside : IsInside (span_rect t offset n)
  unfolding span_rect
  span_rect-IsInside =
      let row = div_lt last t.width t.height last_inside in
      let column = mod_lt last t.width t.height last_inside in
      let order : first ≤ last = omega (arith, some_byte) in
      let rows = quotient_mono first last t.width some_width order in
      elim (Bool-cases (first / t.width == last / t.width)) [
        | inl same ↦
            let columns = column_mono first last t.width order ((==_iff _ _).0 same) in
            rw same (
              omega (arith, columns),
              omega (arith, column, across),
              omega (arith, rows),
              omega (arith, row, down),
            )
        | inr other ↦
            rw other
              (omega (arith, some_width), across, omega (arith, rows), omega (arith, row, down))
      ]

  pub span_rect_covers :
      (k : ℕ)
      → offset ≤ k
      → k < offset + n
      → in_rect (t.x + k / 3 % t.width) (t.y + k / 3 / t.width) (span_rect t offset n) ≡ true
  unfolding span_rect
  span_rect_covers k low high =
      let after : first ≤ k / 3 = omega (arith, low) in
      let before : k / 3 ≤ last = omega (arith, high) in
      let upper = quotient_mono first (k / 3) t.width some_width after in
      let lower = quotient_mono (k / 3) last t.width some_width before in
      let column = mod_below (k / 3) t.width some_width in
      elim (Bool-cases (first / t.width == last / t.width)) [
        | inl same ↦
            let one_row = (==_iff _ _).0 same in
            let left =
              column_mono first (k / 3) t.width after (omega (arith, one_row, upper, lower)) in
            let right =
              column_mono (k / 3) last t.width before (omega (arith, one_row, upper, lower)) in
            rw same (ground (arith, left, right, upper, lower, one_row))
        | inr other ↦ rw other (ground (arith, column, upper, lower))
      ]
