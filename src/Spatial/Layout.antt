-- ===== src/Spatial/Layout.antt =====
-- SpatialRegion and SpatialLayout: the checks of the constructor, and cell addresses. Coordinates and
-- sizes are natural numbers, so that the checks for negative values have no counterpart here.
use zdx_paralell_pyxel_vm.Base.{
  ℕ, ◌+◌, ◌-◌, ◌*◌, ◌/◌, ◌%◌, String, Bool, false, not, ◌&&◌, ◌||◌, List, [], ◌∷◌, ltb, leb, ◌==◌,
  str_eq, if◌then◌else◌,
}
use zdx_paralell_pyxel_vm.Base.Results.{Result, ok, err, ◌>>◌, refuse_if}

pub record Region : Type 0 where
  pub name : String
  pub x : ℕ
  pub y : ℕ
  pub width : ℕ
  pub height : ℕ
  pub kind : String

pub record Layout : Type 0 where
  pub width : ℕ
  pub height : ℕ
  pub execution_rows : ℕ
  pub regions : List Region

pub data LayoutError : Type 0 where
  empty_frame too_many_cells bad_execution_rows : LayoutError
  empty_name duplicate_name empty_region out_of_bounds bad_kind in_execution_rows :
      Region → LayoutError
  overlapping : Region → Region → LayoutError
  no_storage_rows : LayoutError
  unknown_region : String → LayoutError
  outside : ℕ → ℕ → LayoutError
  bad_address : ℕ → LayoutError

abbrev pub max_spatial_cells : ℕ
max_spatial_cells = 16777216

abbrev pub cells : Region → ℕ
cells r = r.width * r.height

abbrev pub capacity_bytes : Region → ℕ
capacity_bytes r = cells r * 3

-- `SpatialRegion.contains`
unfoldable pub contains : Region → ℕ → ℕ → Bool
contains r x y = leb r.x x && ltb x (r.x + r.width) && leb r.y y && ltb y (r.y + r.height)

-- `_regions_overlap`
unfoldable pub regions_overlap : Region → Region → Bool
regions_overlap a b = not (
    leb (a.x + a.width) b.x
    || leb (b.x + b.width) a.x
    || leb (a.y + a.height) b.y
    || leb (b.y + b.height) a.y)

unfoldable pub named : String → List Region → Bool
named n [] = false
named n (r ∷ rs) = str_eq r.name n || named n rs

-- The checks of one region; `seen` are the regions before it.
unfoldable pub check_region : Layout → List Region → Region → Result LayoutError (Unit {0})
unfolding named
check_region l seen r = do
  refuse_if (str_eq r.name "") (empty_name r)
  refuse_if (named r.name seen) (duplicate_name r)
  refuse_if (ltb r.width 1 || ltb r.height 1) (empty_region r)
  refuse_if (ltb l.width (r.x + r.width) || ltb l.height (r.y + r.height)) (out_of_bounds r)
  refuse_if (not (str_eq r.kind "data")) (bad_kind r)
  refuse_if (ltb r.y l.execution_rows) (in_execution_rows r)

unfoldable pub check_regions : Layout → List Region → List Region → Result LayoutError (Unit {0})
unfolding check_region
check_regions l seen [] = ok tt
check_regions l seen (r ∷ rs) = check_region l seen r >> check_regions l (r ∷ seen) rs

-- The inner loop of the overlap check, and the outer one.
unfoldable pub check_apart : Region → List Region → Result LayoutError (Unit {0})
unfolding regions_overlap
check_apart left [] = ok tt
check_apart left (right ∷ rs) =
    refuse_if (regions_overlap left right) (overlapping left right) >> check_apart left rs

unfoldable pub check_overlaps : List Region → Result LayoutError (Unit {0})
unfolding check_apart
check_overlaps [] = ok tt
check_overlaps (r ∷ rs) = check_apart r rs >> check_overlaps rs

-- `__post_init__`
unfoldable pub post_init : Layout → Result LayoutError (Unit {0})
unfolding check_regions check_overlaps
post_init l = do
  refuse_if (ltb l.width 1 || ltb l.height 1) empty_frame
  refuse_if (ltb max_spatial_cells (l.width * l.height)) too_many_cells
  refuse_if (ltb l.height l.execution_rows) bad_execution_rows
  check_regions l [] l.regions
  check_overlaps l.regions

abbrev pub total_cells : Layout → ℕ
total_cells l = l.width * l.height

abbrev pub raw_capacity_bytes : Layout → ℕ
raw_capacity_bytes l = total_cells l * 3

abbrev pub execution_region : Layout → Region
execution_region l = record {
  name = "execution";
  x = 0;
  y = 0;
  width = l.width;
  height = l.execution_rows;
  kind = "execution";
}

abbrev pub storage_region : Layout → Region
storage_region l = record {
  name = "storage";
  x = 0;
  y = l.execution_rows;
  width = l.width;
  height = l.height - l.execution_rows;
  kind = "data";
}

abbrev pub storage_capacity_bytes : Layout → ℕ
storage_capacity_bytes l = capacity_bytes (storage_region l)

unfoldable pub find_region : String → List Region → Result LayoutError Region
find_region n [] = err (unknown_region n)
find_region n (r ∷ rs) = if str_eq r.name n then ok r else find_region n rs

-- `region`; the default argument None is the name "storage".
unfoldable pub region : Layout → String → Result LayoutError Region
unfolding find_region
region l n =
    if str_eq n "storage"
    then (let r = storage_region l in if r.height == 0 then err no_storage_rows else ok r)
    else if str_eq n "execution"
    then ok (execution_region l)
    else find_region n l.regions

-- `_check_coordinate` and `address`
unfoldable pub address : Layout → ℕ → ℕ → Result LayoutError ℕ
address l x y = if ltb x l.width && ltb y l.height then ok (y * l.width + x) else err (outside x y)

unfoldable pub coordinates : Layout → ℕ → Result LayoutError (ℕ × ℕ)
coordinates l a =
    if ltb a (total_cells l) then ok (a % l.width, a / l.width) else err (bad_address a)
