-- ===== src/Cloud/Lod/Agree.antt =====
-- Validation of levels of detail and of point tiles reports nothing exactly when they are valid.
use usd_pointcloud_plugins.Prelude.{
  ℕ, suc, ◌≡◌, refl, Bool, true, false, not, ◌&&◌, ◌==◌, List, [], ◌∷◌, ◌++◌, is_empty, Option,
  none, some, String, arith,
}
use usd_pointcloud_plugins.Core.Bounds.{SpatialBounds}
use usd_pointcloud_plugins.Core.TileId.{TileId}
use usd_pointcloud_plugins.Core.Diagnostic.{DiagnosticCode}
use usd_pointcloud_plugins.Cloud.Lod.{
  PointLodItem, PointLodHierarchy, PointTile, point_range_is_valid, item_is_valid, contains_bounds,
  items_are_valid, hierarchy_is_valid, children_are_valid, point_tile_is_valid, report_if,
  item_report, item_reports, hierarchy_reports, validate_point_lod_hierarchy, children_reports,
  point_tile_reports, validate_point_tile,
}

is_empty-append {ℓ} : {A : Type ℓ} (a b : List A) → is_empty (a ++ b) ≡ (is_empty a && is_empty b)
is_empty-append [] b = refl
is_empty-append (x ∷ a) b = refl

is_empty-report_if :
    (b : Bool) (code : DiagnosticCode) (m : String) → is_empty (report_if b code m) ≡ not b
is_empty-report_if true code m = refl
is_empty-report_if false code m = refl

is_empty-item_report :
    (item_message : ℕ → String) (outer : SpatialBounds) (index : ℕ) (i : PointLodItem)
    → is_empty (item_report item_message outer index i)
      ≡ (item_is_valid i && (i.index == index) && contains_bounds outer i.bounds)
unfolding item_report
is_empty-item_report item_message outer index i = ground arith

-- A valid item has a valid source range, so that the report on the range adds nothing.
item_is_valid-range :
    (i : PointLodItem) → item_is_valid i ≡ true → point_range_is_valid i.source_range ≡ true
unfolding item_is_valid
item_is_valid-range i h = ground arith

is_empty-item_reports :
    (item_message : ℕ → String) (outer : SpatialBounds) (index : ℕ) (before : Option ℕ)
    (l : List PointLodItem)
    → is_empty (item_reports item_message outer index before l)
      ≡ items_are_valid outer index before l
unfolding item_reports items_are_valid
is_empty-item_reports item_message outer index before [] = refl
is_empty-item_reports item_message outer index before (i ∷ l) =
    simp
      (
        is_empty-append,
        is_empty-report_if,
        is_empty-item_report,
        is_empty-item_reports item_message outer (suc index) (some i.point_count) l,
      )
      (ground (arith, item_is_valid-range i))

is_empty-hierarchy_reports :
    (item_message : ℕ → String) (h : PointLodHierarchy)
    → is_empty (hierarchy_reports item_message h) ≡ hierarchy_is_valid h
unfolding hierarchy_reports hierarchy_is_valid
is_empty-hierarchy_reports item_message h =
    simp
      (
        is_empty-append,
        is_empty-report_if,
        is_empty-item_reports item_message h.bounds 0 none h.items,
      )
      (ground arith)

is_empty-children_reports :
    (before cs : List TileId) → is_empty (children_reports before cs) ≡ children_are_valid before cs
unfolding children_reports children_are_valid
is_empty-children_reports before [] = refl
is_empty-children_reports before (c ∷ cs) =
    simp (is_empty-append, is_empty-report_if, is_empty-children_reports (before ++ c ∷ []) cs)
      (ground arith)

is_empty-point_tile_reports :
    (item_message : ℕ → String) (t : PointTile)
    → is_empty (point_tile_reports item_message t) ≡ point_tile_is_valid t
unfolding point_tile_reports point_tile_is_valid
is_empty-point_tile_reports item_message t =
    simp
      (
        is_empty-append,
        is_empty-report_if,
        is_empty-hierarchy_reports item_message t.lod,
        is_empty-children_reports [] t.children,
      )
      (ground arith)

-- `ValidatePointLodHierarchy` returns true, and reports nothing, exactly when the hierarchy is valid.
pub validate_point_lod_hierarchy_iff :
    (item_message : ℕ → String) (h : PointLodHierarchy)
    → ((validate_point_lod_hierarchy item_message h).0 ≡ hierarchy_is_valid h)
      × (is_empty (validate_point_lod_hierarchy item_message h).1 ≡ hierarchy_is_valid h)
unfolding validate_point_lod_hierarchy
validate_point_lod_hierarchy_iff item_message h =
    (is_empty-hierarchy_reports item_message h, is_empty-hierarchy_reports item_message h)

hierarchy_of_tile :
    (t : PointTile) → (hierarchy_is_valid t.lod && point_tile_is_valid t) ≡ point_tile_is_valid t
unfolding point_tile_is_valid
hierarchy_of_tile t = ground arith

-- `ValidatePointTile` returns true, and reports nothing, exactly when the tile is valid.
pub validate_point_tile_iff :
    (item_message : ℕ → String) (t : PointTile)
    → ((validate_point_tile item_message t).0 ≡ point_tile_is_valid t)
      × (is_empty (validate_point_tile item_message t).1 ≡ point_tile_is_valid t)
unfolding validate_point_tile validate_point_lod_hierarchy
validate_point_tile_iff item_message t = (
  rw (is_empty-hierarchy_reports item_message t.lod, is_empty-point_tile_reports item_message t)
      (hierarchy_of_tile t),
  is_empty-point_tile_reports item_message t,
)
