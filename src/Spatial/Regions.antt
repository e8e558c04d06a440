-- ===== src/Spatial/Regions.antt =====
-- The named regions of a layout that the constructor accepts.
use zdx_paralell_pyxel_vm.Base.{
  ℕ, zero, suc, ◌≤◌, ◌<◌, ◌≡◌, ◌≢◌, ◌∙◌, inl, inr, true, false, some, List, [], ◌∷◌, arith,
  get_elem?, ltb, Bool-cases, ◌⊎◌,
}
use zdx_paralell_pyxel_vm.Base.Results.{ok}
use zdx_paralell_pyxel_vm.Spatial.Layout.{
  Region, Layout, contains, regions_overlap, check_region, check_regions, check_apart,
  check_overlaps, post_init,
}

-- Two rectangles that do not overlap share no cell.
apart_contains :
    (a b : Region) (x y : ℕ)
    → regions_overlap a b ≡ false
    → contains a x y ≡ true
    → contains b x y ≡ false
unfolding regions_overlap contains
apart_contains a b x y h k = ground arith

overlap_comm : (a b : Region) → regions_overlap a b ≡ regions_overlap b a
unfolding regions_overlap
overlap_comm a b = ground arith

apart_all :
    (left : Region) (rs : List Region) (j : ℕ) (s : Region)
    → check_apart left rs ≡ ok tt
    → get_elem? rs j ≡ some s
    → regions_overlap left s ≡ false
unfolding check_apart
apart_all left [] j s h e = cc
apart_all left (r ∷ rs) zero s h e = ground arith
apart_all left (r ∷ rs) (suc j) s h e = apart_all left rs j s (ground arith) e

overlap_free :
    (rs : List Region) (i j : ℕ) (r s : Region)
    → check_overlaps rs ≡ ok tt
    → get_elem? rs i ≡ some r
    → get_elem? rs j ≡ some s
    → i < j
    → regions_overlap r s ≡ false
unfolding check_overlaps
overlap_free [] i j r s h e f lt = cc
overlap_free (q ∷ rs) zero zero r s h e f lt = absurd (omega arith)
overlap_free (q ∷ rs) zero (suc j) r s h e f lt = apart_all r rs j s (ground arith) f
overlap_free (q ∷ rs) (suc i) zero r s h e f lt = absurd (omega arith)
overlap_free (q ∷ rs) (suc i) (suc j) r s h e f lt =
    overlap_free rs i j r s (ground arith) e f (omega arith)

checked_regions :
    (l : Layout) (seen rs : List Region) (i : ℕ) (r : Region)
    → check_regions l seen rs ≡ ok tt
    → get_elem? rs i ≡ some r
    → (before : List Region) × (check_region l before r ≡ ok tt)
unfolding check_regions
checked_regions l seen [] i r h e = cc
checked_regions l seen (q ∷ rs) zero r h e = (seen, ground arith)
checked_regions l seen (q ∷ rs) (suc i) r h e = checked_regions l (q ∷ seen) rs i r (ground arith) e

post_init-parts :
    (l : Layout)
    → post_init l ≡ ok tt
    → (check_regions l [] l.regions ≡ ok tt) × (check_overlaps l.regions ≡ ok tt)
unfolding post_init
post_init-parts l h = ground arith

region_bounds :
    (l : Layout) (before : List Region) (r : Region) (x y : ℕ)
    → check_region l before r ≡ ok tt
    → contains r x y ≡ true
    → (x < l.width) × (y < l.height) × (l.execution_rows ≤ y)
unfolding check_region contains
region_bounds l before r x y h k = ground arith

module _ (l : Layout) (accepted : post_init l ≡ ok tt) where
  -- In an accepted layout a cell of a named region lies in the frame and below the executable rows, so
  -- that no data region reaches an executable cell.
  region_inside :
      (i : ℕ) (r : Region) (x y : ℕ)
      → get_elem? l.regions i ≡ some r
      → contains r x y ≡ true
      → (x < l.width) × (y < l.height) × (l.execution_rows ≤ y)
  region_inside i r x y e k =
      let (before, checked) = checked_regions l [] l.regions i r (post_init-parts l accepted).0 e in
      region_bounds l before r x y checked k

  -- In an accepted layout no cell lies in two of the named regions.
  pub regions_disjoint :
      (i j : ℕ) (r s : Region) (x y : ℕ)
      → get_elem? l.regions i ≡ some r
      → get_elem? l.regions j ≡ some s
      → i ≢ j
      → contains r x y ≡ true
      → contains s x y ≡ false
  regions_disjoint i j r s x y e f apart k = apart_contains r s x y (free (Bool-cases (ltb i j))) k
    where
      free : (ltb i j ≡ true) ⊎ (ltb i j ≡ false) → regions_overlap r s ≡ false
      free (inl below) =
          overlap_free l.regions i j r s (post_init-parts l accepted).1 e f (ground arith)
      free (inr above) =
          overlap_comm r s
          ∙ overlap_free l.regions j i s r (post_init-parts l accepted).1 f e (ground arith)
