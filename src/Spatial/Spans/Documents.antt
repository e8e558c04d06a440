-- ===== src/Spatial/Spans/Documents.antt =====
-- zdx_spatial_frame.py, SpatialFrame: read_json after write_json.
use zdx_paralell_pyxel_vm.Base.{
  ℕ, zero, suc, ◌+◌, ◌-◌, ◌≤◌, ◌<◌, ◌≡◌, refl, sym, subst, ◌∙◌, ap, String, ◌∷◌, ◌++◌, true, false,
  Option, some, ltb, ◌==◌, length, length-append, arith,
}
use zdx_paralell_pyxel_vm.Base.Results.{ok}
use zdx_paralell_pyxel_vm.Vm.Isa.{Pixel}
use zdx_paralell_pyxel_vm.Bytes.{
  Bytes, big_endian, length-big_endian, from_big_endian-inverse, take, drop, take-append,
  drop-append,
}
use zdx_paralell_pyxel_vm.Spatial.Layout.{Region, capacity_bytes, region}
use zdx_paralell_pyxel_vm.Spatial.Dirty.Apart.{AllApart}
use zdx_paralell_pyxel_vm.Spatial.Cells.{SpatialFrame}
use zdx_paralell_pyxel_vm.Spatial.Spans.{
  block_byte, block_slice, find_target, read_bytes, write_json, read_json,
}
use zdx_paralell_pyxel_vm.Spatial.Spans.Written.{write_bytes-IsWritten}

module _ (image : ℕ → ℕ → Pixel) (t : Region) where
  block_slice-append :
      (o m n p total : ℕ)
      → m + n ≡ total
      → o + m ≡ p
      → block_slice image t o total ≡ block_slice image t o m ++ block_slice image t p n
  unfolding block_slice
  block_slice-append o zero n p total sum place =
      let same : total ≡ n = omega (arith, sum) in
      let start : o ≡ p = omega (arith, place) in
      ap (block_slice image t o) same ∙ ap (λ k. block_slice image t k n) start
  block_slice-append o (suc m) n p zero sum place = absurd (omega (arith, sum))
  block_slice-append o (suc m) n p (suc total) sum place =
      ap (λ l. block_byte image t o ∷ l)
        (block_slice-append (suc o) m n p total (omega (arith, sum)) (omega (arith, place)))

  length-block_slice : (o n : ℕ) → length (block_slice image t o n) ≡ n
  unfolding block_slice
  length-block_slice o zero = refl
  length-block_slice o (suc n) = ap suc (length-block_slice (suc o) n)

-- What is read of the bytes that a write left at the front of a region.
module _ (f after : SpatialFrame) (name : String) (t : Region) (head rest : Bytes)
    (found : find_target f.layout name ≡ ok t) (same : after.layout ≡ f.layout)
    (room : length head + length rest ≤ capacity_bytes t)
    (whole : read_bytes after (length head + length rest) name 0 ≡ ok (head ++ rest)) where
  found_after : find_target after.layout name ≡ ok t
  found_after = ap (λ l. find_target l name) same ∙ found

  bytes_after :
      (n o : ℕ)
      → o + n ≤ capacity_bytes t
      → read_bytes after n name o ≡ ok (block_slice after.pixel t o n)
  unfolding read_bytes
  bytes_after n o fits =
      let test : ltb (capacity_bytes t) (o + n) ≡ false = ground (arith, fits) in
      rw (found_after, test, read_bytes) refl

  both :
      block_slice after.pixel t 0 (length head)
        ++ block_slice after.pixel t (length head) (length rest)
      ≡ head ++ rest
  both =
      sym (
        block_slice-append after.pixel t 0 (length head) (length rest) (length head)
          (length head + length rest) refl (omega arith))
      ∙ ground (arith, bytes_after (length head + length rest) 0 (omega (arith, room)), whole)

  pub head_after : read_bytes after (length head) name 0 ≡ ok head
  head_after =
      bytes_after (length head) 0 (omega (arith, room))
      ∙ ap ok (
          sym (
            take-append (length head) (block_slice after.pixel t 0 (length head)) _
              (length-block_slice after.pixel t 0 (length head)))
          ∙ ap (take (length head)) both
          ∙ take-append (length head) head rest refl)

  pub rest_after : read_bytes after (length rest) name (length head) ≡ ok rest
  rest_after =
      bytes_after (length rest) (length head) room
      ∙ ap ok (
          sym (
            drop-append (length head) (block_slice after.pixel t 0 (length head)) _
              (length-block_slice after.pixel t 0 (length head)))
          ∙ ap (drop (length head)) both
          ∙ drop-append (length head) head rest refl)

module _ {Json : Type 0} (dumps : Json → Bytes) (loads : Bytes → Option Json) (v : Json)
    (name : String) (t : Region) where
  read_json_found :
      (after : SpatialFrame)
      → find_target after.layout name ≡ ok t
      → read_bytes after 4 name 0 ≡ ok (big_endian 4 (length (dumps v)))
      → read_bytes after (length (dumps v)) name 4 ≡ ok (dumps v)
      → loads (dumps v) ≡ some v
      → 1 ≤ length (dumps v)
      → length (dumps v) < 4294967296
      → 4 + length (dumps v) ≤ capacity_bytes t
      → read_json dumps loads after name ≡ ok (some v)
  unfolding read_json
  read_json_found after found header payload law one small room =
      let size = from_big_endian-inverse 4 (length (dumps v)) small in
      let wide : ltb (capacity_bytes t) 4 ≡ false = ground (arith, room) in
      let some_bytes : (length (dumps v) == 0) ≡ false = ground (arith, one) in
      let fits : ltb (capacity_bytes t - 4) (length (dumps v)) ≡ false = ground (arith, room) in
      rw (found, wide, header, size, some_bytes, fits, payload, law, read_json) refl

module _ {Json : Type 0} (dumps : Json → Bytes) (loads : Bytes → Option Json) (f : SpatialFrame)
    (v : Json) (name : String) (t : Region) where
  abbrev size : ℕ
  size = length (dumps v)

  -- A value that json.loads reads from what json.dumps gives of it, in at least one byte and fewer
  -- than 2^32, is written to a region of the frame with room for it and four bytes more, where the
  -- dirty rectangles are apart, and is then read from the region.
  pub write_json-read_json :
      region f.layout name ≡ ok t
      → t.x + t.width ≤ f.layout.width
      → t.y + t.height ≤ f.layout.height
      → AllApart f.dirty
      → loads (dumps v) ≡ some v
      → 1 ≤ size
      → size < 4294967296
      → 4 + size ≤ capacity_bytes t
      → (after : SpatialFrame) × (write_json dumps loads f v name ≡ ok after)
        × (read_json dumps loads after name ≡ ok (some v))
  unfolding write_json find_target
  write_json-read_json found across down apart law one small room =
      let header = big_endian 4 size in
      let header_long : length header ≡ 4 = length-big_endian 4 size in
      let both_long : length (header ++ dumps v) ≡ 4 + size =
        length-append header (dumps v) ∙ ap (λ k. k + size) header_long in
      let (after, written) =
        write_bytes-IsWritten f (header ++ dumps v) name 0 t found (omega (arith, both_long, room))
          across down apart in
      let test : ltb size 4294967296 ≡ true = ground (arith, small) in
      (
        after,
        rw (test, write_json) written.0,
        (let head_room : length header + length (dumps v) ≤ capacity_bytes t =
              omega (arith, header_long, room) in
            let whole =
              subst (λ n. read_bytes after n name 0 ≡ ok (header ++ dumps v))
                (length-append header (dumps v)) written.2 in
            let target : find_target f.layout name ≡ ok t = rw (found, find_target) refl in
            let head =
              head_after f after name t header (dumps v) target written.1 head_room whole in
            let rest =
              rest_after f after name t header (dumps v) target written.1 head_room whole in
            read_json_found dumps loads v name t after
              (ap (λ l. find_target l name) written.1 ∙ target)
              (subst (λ n. read_bytes after n name 0 ≡ ok header) header_long head)
              (subst (λ n. read_bytes after size name n ≡ ok (dumps v)) header_long rest) law one
              small room),
      )
