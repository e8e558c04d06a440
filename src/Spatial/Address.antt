-- ===== src/Spatial/Address.antt =====
-- `address` and `coordinates` of SpatialLayout.
use zdx_paralell_pyxel_vm.Base.{ℕ, ◌+◌, ◌*◌, ◌/◌, ◌%◌, ◌<◌, ◌≡◌, arith}
use zdx_paralell_pyxel_vm.Base.Results.{ok}
use zdx_paralell_pyxel_vm.Spatial.Layout.{Layout, total_cells, address, coordinates}

cell_lt : (x y w h : ℕ) → x < w → y < h → y * w + x < w * h
cell_lt x y w h p q = grind arith

pub cell_div : (x y w : ℕ) → x < w → (y * w + x) / w ≡ y
cell_div x y w p = grind arith

pub cell_mod : (x y w : ℕ) → x < w → (y * w + x) % w ≡ x
cell_mod x y w p = grind (arith, cell_div)

pub div_lt : (a w h : ℕ) → a < w * h → a / w < h
div_lt a w h p = grind arith

pub mod_lt : (a w h : ℕ) → a < w * h → a % w < w
mod_lt a w h p = grind arith

pub div_mod : (a w : ℕ) → a / w * w + a % w ≡ a
div_mod a w = omega arith

-- The address of a coordinate is below the number of cells and leads back to the coordinate.
address-coordinates :
    (l : Layout) (x y a : ℕ)
    → address l x y ≡ ok a
    → (a < total_cells l) × (coordinates l a ≡ ok (x, y))
unfolding address coordinates
address-coordinates l x y a h =
    ground (arith, cell_lt x y l.width l.height, cell_div x y l.width, cell_mod x y l.width)

-- The coordinates of an address are in the frame and lead back to the address.
coordinates-address :
    (l : Layout) (a x y : ℕ)
    → coordinates l a ≡ ok (x, y)
    → (x < l.width) × (y < l.height) × (address l x y ≡ ok a)
unfolding address coordinates
coordinates-address l a x y h =
    ground (arith, div_lt a l.width l.height, mod_lt a l.width l.height, div_mod a l.width)

address_ok : (l : Layout) (x y : ℕ) → x < l.width → y < l.height → (a : ℕ) × (address l x y ≡ ok a)
unfolding address
address_ok l x y p q = (y * l.width + x, ground (arith, p, q))

coordinates_ok :
    (l : Layout) (a : ℕ) → a < total_cells l → (x y : ℕ) × (coordinates l a ≡ ok (x, y))
unfolding coordinates
coordinates_ok l a p = (a % l.width, a / l.width, ground (arith, p))

-- `address` and `coordinates` are inverse to each other: for a coordinate in the frame and an address
-- below the number of cells neither raises, each answers in the range of the other, and leads back.
pub address-coordinates_inverse :
    (l : Layout) (x y a : ℕ)
    → x < l.width
    → y < l.height
    → a < total_cells l
    → ((b : ℕ) × (address l x y ≡ ok b) × (b < total_cells l) × (coordinates l b ≡ ok (x, y)))
      × ((i j : ℕ) × (coordinates l a ≡ ok (i, j))
          × (i < l.width)
          × (j < l.height)
          × (address l i j ≡ ok a))
address-coordinates_inverse l x y a p q r =
    let (b, there) = address_ok l x y p q in
    let (below, back) = address-coordinates l x y b there in
    let (i, j, found) = coordinates_ok l a r in
    let (left, up, again) = coordinates-address l a i j found in
    ((b, there, below, back), (i, j, found, left, up, again))
