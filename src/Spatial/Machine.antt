-- ===== src/Spatial/Machine.antt =====
-- zdx_spatial_frame.py, SpatialPyxelVM: a frame in memory, whose executable rows the VM runs.
use zdx_paralell_pyxel_vm.Base.{
  ℕ, ◌-◌, String, List, [], ◌∷◌, Bool, true, false, not, ◌&&◌, Option, none, some, if◌then◌else◌,
  leb, ◌==◌, str_eq,
}
use zdx_paralell_pyxel_vm.Vm.Machine.{Vm, Raster, max_chain_reached, missing_frame}
use zdx_paralell_pyxel_vm.Vm.Checkpoint.{CheckpointState}
use zdx_paralell_pyxel_vm.Vm.Frame.{execute_array, FrameResult, done, failed}
use zdx_paralell_pyxel_vm.Vm.Chain.{Files, ChainResult, completed, aborted, finish, execute_texture}
use zdx_paralell_pyxel_vm.Spatial.Layout.{Region, Layout}
use zdx_paralell_pyxel_vm.Spatial.Cells.{SpatialFrame}
pub mod Rows

abbrev pub same_region : Region → Region → Bool
same_region a b =
    str_eq a.name b.name
    && (a.x == b.x)
    && (a.y == b.y)
    && (a.width == b.width)
    && (a.height == b.height)
    && str_eq a.kind b.kind

unfoldable pub same_regions : List Region → List Region → Bool
same_regions [] [] = true
same_regions [] (b ∷ bs) = false
same_regions (a ∷ as_left) [] = false
same_regions (a ∷ as_left) (b ∷ bs) = same_region a b && same_regions as_left bs

-- `==` of two layouts, which are frozen dataclasses
abbrev pub same_layout : Layout → Layout → Bool
same_layout l m =
    (l.width == m.width)
    && (l.height == m.height)
    && (l.execution_rows == m.execution_rows)
    && same_regions l.regions m.regions

-- `np.asarray(frame.image)`: rows first
abbrev pub raster_of : SpatialFrame → Raster
raster_of f = record {
  height = f.layout.height;
  width = f.layout.width;
  pixel = λ y x. f.pixel x y;
}

abbrev pub with_max_chain : ℕ → Vm → Vm
with_max_chain n vm = record vm { config = record vm.config { max_chain = n } }

pub data SpatialResult : Type 0 where
  other_layout : SpatialResult
  ran : ChainResult → SpatialResult

module _ (files : Files) (digest : CheckpointState → String) where
  -- `finally: self.max_chain = original_max_chain`, and what follows it where nothing was raised
  unfoldable pub after_chain : ℕ → ChainResult → ChainResult
  after_chain n (completed vm saved) = finish digest (with_max_chain n vm)
  after_chain n (aborted e vm) = aborted e (with_max_chain n vm)

  -- What follows `_execute_array`: the chained frame, if the raster asks for one.
  unfoldable pub after_resident : FrameResult → ChainResult
  after_resident (failed e vm) = aborted e vm
  after_resident (done vm) = elim vm.next_frame [
    | none ↦ finish digest vm
    | some path ↦
        if leb vm.max_chain 1
        then aborted (max_chain_reached path) vm
        else if not (files.exists path)
        then aborted (missing_frame path) vm
        else after_chain vm.max_chain
            (execute_texture files digest path (with_max_chain (vm.max_chain - 1) vm))
  ]

  unfoldable pub execute_spatial_frame : Layout → SpatialFrame → Vm → SpatialResult
  execute_spatial_frame l f vm =
      if same_layout f.layout l
      then ran (after_resident (execute_array vm (raster_of f)))
      else other_layout
