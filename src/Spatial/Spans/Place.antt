-- ===== src/Spatial/Spans/Place.antt =====
-- zdx_spatial_frame.py, SpatialFrame.write_bytes: where the bytes of a span are.
use zdx_paralell_pyxel_vm.Base.{
  ℕ, zero, suc, ◌+◌, ◌-◌, ◌*◌, ◌/◌, ◌%◌, ◌≤◌, ◌<◌, ◌≡◌, refl, ◌∙◌, ap, true, arith,
}
use zdx_paralell_pyxel_vm.Vm.Isa.{Pixel}
use zdx_paralell_pyxel_vm.Spatial.Layout.{Region, capacity_bytes, contains}
use zdx_paralell_pyxel_vm.Bytes.{Bytes}
use zdx_paralell_pyxel_vm.Spatial.Address.{div_lt, mod_lt, div_mod}
use zdx_paralell_pyxel_vm.Spatial.Spans.{
  channel, block_byte, block_slice, byte_at, write_pixel, write_block,
}

channel-write_pixel :
    (raw : Bytes) (offset p c : ℕ) (old : Pixel)
    → c < 3
    → channel c (write_pixel raw offset p old) ≡ byte_at raw offset (p * 3 + c) (channel c old)
channel-write_pixel raw offset p zero old h = ap (λ k. byte_at raw offset k old.r) (omega arith)
channel-write_pixel raw offset p (suc zero) old h = refl
channel-write_pixel raw offset p (suc (suc zero)) old h = refl
channel-write_pixel raw offset p (suc (suc (suc c))) old h = absurd (omega arith)

module _ (image : ℕ → ℕ → Pixel) (t : Region) (raw : Bytes) (offset : ℕ) where
  -- A byte of the region is the one that was assigned there, or the old one.
  pub block_byte-write_block :
      (k : ℕ)
      → k < capacity_bytes t
      → block_byte (write_block image t raw offset) t k
        ≡ byte_at raw offset k (block_byte image t k)
  unfolding write_block contains
  block_byte-write_block k h =
      let p = k / 3 in
      let i = t.x + p % t.width in
      let j = t.y + p / t.width in
      let below : p < t.width * t.height = omega (arith, h) in
      let row = div_lt p t.width t.height below in
      let column = mod_lt p t.width t.height below in
      let inside : contains t i j ≡ true = ground (arith, row, column) in
      let same_row : j - t.y ≡ p / t.width = omega arith in
      let same_column : i - t.x ≡ p % t.width = omega arith in
      let index : (j - t.y) * t.width + (i - t.x) ≡ p =
        ap (λ q. q * t.width + (i - t.x)) same_row
        ∙ ap (λ c. p / t.width * t.width + c) same_column
        ∙ div_mod p t.width in
      let place : p * 3 + k % 3 ≡ k = omega arith in
      ap (channel (k % 3)) (rw (inside, write_block) refl)
      ∙ ap (λ q. channel (k % 3) (write_pixel raw offset q (image i j))) index
      ∙ channel-write_pixel raw offset p (k % 3) (image i j) (omega arith)
      ∙ ap (λ a. byte_at raw offset a (block_byte image t k)) place

  pub block_slice-agrees :
      (other : ℕ → ℕ → Pixel) (o n : ℕ)
      → ((k : ℕ) → o ≤ k → k < o + n → block_byte image t k ≡ block_byte other t k)
      → block_slice image t o n ≡ block_slice other t o n
  unfolding block_slice
  block_slice-agrees other o zero h = refl
  block_slice-agrees other o (suc n) h = ground (
    arith,
    h o (omega arith) (omega arith),
    block_slice-agrees other (suc o) n (λ k low high. h k (omega arith) (omega arith)),
  )
