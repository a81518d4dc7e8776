-- ===== src/Cloud/Lod.antt =====
-- libs/usd-pointcloud-core/src/Lod.cpp, and `PointRange` of PointCloud.h: levels of detail and point
-- tiles, their tests and their validation.
pub mod Agree
use usd_pointcloud_plugins.Prelude.{
  ℕ, zero, suc, ◌-◌, ◌+◌, Bool, true, false, not, ◌&&◌, ◌||◌, if◌then◌else◌, ltb, leb, ◌==◌, List,
  [], ◌∷◌, ◌++◌, is_empty, any_of, all_of, length, Option, none, some, String,
}
use usd_pointcloud_plugins.Core.Float32.{float_is_finite, le_f32}
use usd_pointcloud_plugins.Core.Float64.{is_finite, le_f64, eq_f64, zero_bits}
use usd_pointcloud_plugins.Core.Bounds.{SpatialBounds, bounds_is_valid}
use usd_pointcloud_plugins.Core.TileId.{TileId, tile_is_valid}
use usd_pointcloud_plugins.Core.Diagnostic.{Diagnostic, DiagnosticCode, an_error}
use usd_pointcloud_plugins.Prelude.Int.{eqb_ℤ}

pub record PointRange : Type 0 where
  pub first_point : ℕ
  pub point_count : ℕ

unfoldable pub point_range_is_valid : PointRange → Bool
point_range_is_valid r =
    r.point_count == 0 || leb r.first_point (0xffff_ffff_ffff_ffff - r.point_count)

unfoldable pub same_bounds : SpatialBounds → SpatialBounds → Bool
same_bounds l r =
    eq_f64 l.minimum.x r.minimum.x
    && eq_f64 l.minimum.y r.minimum.y
    && eq_f64 l.minimum.z r.minimum.z
    && eq_f64 l.maximum.x r.maximum.x
    && eq_f64 l.maximum.y r.maximum.y
    && eq_f64 l.maximum.z r.maximum.z

unfoldable pub contains_bounds : SpatialBounds → SpatialBounds → Bool
contains_bounds outer inner =
    le_f64 outer.minimum.x inner.minimum.x
    && le_f64 outer.minimum.y inner.minimum.y
    && le_f64 outer.minimum.z inner.minimum.z
    && le_f64 inner.maximum.x outer.maximum.x
    && le_f64 inner.maximum.y outer.maximum.y
    && le_f64 inner.maximum.z outer.maximum.z

unfoldable pub same_tile_id : TileId → TileId → Bool
same_tile_id l r = eqb_ℤ l.level r.level && eqb_ℤ l.x r.x && eqb_ℤ l.y r.y && eqb_ℤ l.z r.z

-- The threshold before, if there is one, is not below or at the next.
abbrev pub not_below : ℕ → Option ℕ → Bool
not_below t none = false
not_below t (some before) = le_f32 before t

unfoldable pub valid_thresholds : Option ℕ → List ℕ → Bool
valid_thresholds before [] = true
valid_thresholds before (t ∷ ts) =
    if not (float_is_finite t) || le_f32 t 0 || not_below t before
    then false
    else valid_thresholds (some t) ts

pub record PointLodItem : Type 0 where
  pub index : ℕ
  pub point_count : ℕ
  pub bounds : SpatialBounds
  pub source_range : PointRange
  pub spacing : ℕ

unfoldable pub item_is_valid : PointLodItem → Bool
item_is_valid i =
    not (i.point_count == 0)
    && bounds_is_valid i.bounds
    && point_range_is_valid i.source_range
    && is_finite i.spacing
    && le_f64 zero_bits i.spacing

pub record PointLodHierarchy : Type 0 where
  pub bounds : SpatialBounds
  pub items : List PointLodItem
  pub default_index : ℕ
  pub screen_size_thresholds : List ℕ

-- The item has more points than the one before, if there is one.
abbrev pub more_than : ℕ → Option ℕ → Bool
more_than count none = false
more_than count (some before) = ltb before count

unfoldable pub items_are_valid : SpatialBounds → ℕ → Option ℕ → List PointLodItem → Bool
items_are_valid outer index before [] = true
items_are_valid outer index before (i ∷ rest) =
    if not (item_is_valid i)
      || not (i.index == index)
      || not (contains_bounds outer i.bounds)
      || more_than i.point_count before
    then false
    else items_are_valid outer (suc index) (some i.point_count) rest

unfoldable pub hierarchy_is_valid : PointLodHierarchy → Bool
hierarchy_is_valid h =
    if not (bounds_is_valid h.bounds)
      || is_empty h.items
      || leb (length h.items) h.default_index
      || not (length h.screen_size_thresholds + 1 == length h.items)
      || not (valid_thresholds none h.screen_size_thresholds)
    then false
    else items_are_valid h.bounds 0 none h.items

pub record PointTile : Type 0 where
  pub id : TileId
  pub bounds : SpatialBounds
  pub children : List TileId
  pub lod : PointLodHierarchy

unfoldable pub children_are_valid : List TileId → List TileId → Bool
children_are_valid before [] = true
children_are_valid before (c ∷ cs) =
    if not (tile_is_valid c) || any_of (λ p. same_tile_id c p) before
    then false
    else children_are_valid (before ++ c ∷ []) cs

unfoldable pub point_tile_is_valid : PointTile → Bool
point_tile_is_valid t =
    if not (tile_is_valid t.id)
      || not (bounds_is_valid t.bounds)
      || not (hierarchy_is_valid t.lod)
      || not (same_bounds t.bounds t.lod.bounds)
    then false
    else children_are_valid [] t.children

-- `if (bad) AddDiagnostic(...)`, which goes on.
abbrev pub report_if : Bool → DiagnosticCode → String → List Diagnostic
report_if bad code m = if bad then an_error code m ∷ [] else []

-- The report on an item at an index. `item_message` is the message on an invalid item, with the index in it.
unfoldable pub item_report : (ℕ → String) → SpatialBounds → ℕ → PointLodItem → List Diagnostic
item_report item_message outer index i =
    if not (item_is_valid i)
    then an_error DiagnosticCode.invalid_lod_item (item_message index) ∷ []
    else (if not (i.index == index)
        then an_error DiagnosticCode.invalid_lod_item "LOD item index does not match its position"
          ∷ []
        else report_if (not (contains_bounds outer i.bounds)) DiagnosticCode.invalid_lod_item
            "LOD item bounds are outside the hierarchy bounds")

unfoldable pub item_reports :
    (ℕ → String) → SpatialBounds → ℕ → Option ℕ → List PointLodItem → List Diagnostic
item_reports item_message outer index before [] = []
item_reports item_message outer index before (i ∷ rest) =
    report_if (not (point_range_is_valid i.source_range)) DiagnosticCode.invalid_point_source_range
      "LOD item source range is invalid"
    ++ (item_report item_message outer index i
        ++ (report_if (more_than i.point_count before) DiagnosticCode.invalid_lod_hierarchy
              "LOD point counts must not increase at lower detail"
            ++ item_reports item_message outer (suc index) (some i.point_count) rest))

unfoldable pub hierarchy_reports : (ℕ → String) → PointLodHierarchy → List Diagnostic
hierarchy_reports item_message h =
    report_if (not (bounds_is_valid h.bounds)) DiagnosticCode.invalid_lod_hierarchy
      "LOD hierarchy bounds are invalid"
    ++ (report_if (is_empty h.items) DiagnosticCode.invalid_lod_hierarchy
          "LOD hierarchy must contain at least one item"
        ++ (report_if (leb (length h.items) h.default_index) DiagnosticCode.invalid_lod_hierarchy
              "LOD hierarchy default index is out of range"
            ++ (report_if (not (length h.screen_size_thresholds + 1 == length h.items))
                  DiagnosticCode.invalid_lod_hierarchy
                  "LOD threshold count must equal item count minus one"
                ++ (report_if (not (valid_thresholds none h.screen_size_thresholds))
                      DiagnosticCode.invalid_lod_hierarchy
                      "LOD thresholds must be finite, positive, and descending"
                    ++ item_reports item_message h.bounds 0 none h.items))))

unfoldable pub validate_point_lod_hierarchy :
    (ℕ → String) → PointLodHierarchy → Bool × List Diagnostic
validate_point_lod_hierarchy item_message h =
    let reports = hierarchy_reports item_message h in (is_empty reports, reports)

unfoldable pub children_reports : List TileId → List TileId → List Diagnostic
children_reports before [] = []
children_reports before (c ∷ cs) =
    report_if (not (tile_is_valid c)) DiagnosticCode.invalid_point_tile_id
      "point tile child ID is invalid"
    ++ (report_if (any_of (λ p. same_tile_id c p) before) DiagnosticCode.invalid_point_tile
          "point tile child IDs must be unique"
        ++ children_reports (before ++ c ∷ []) cs)

unfoldable pub point_tile_reports : (ℕ → String) → PointTile → List Diagnostic
point_tile_reports item_message t =
    hierarchy_reports item_message t.lod
    ++ (report_if (not (tile_is_valid t.id)) DiagnosticCode.invalid_point_tile_id
          "point tile ID is invalid"
        ++ (report_if (not (bounds_is_valid t.bounds)) DiagnosticCode.invalid_point_tile
              "point tile bounds are invalid"
            ++ (report_if (not (same_bounds t.bounds t.lod.bounds))
                  DiagnosticCode.invalid_point_tile
                  "point tile bounds do not match the LOD hierarchy bounds"
                ++ children_reports [] t.children)))

unfoldable pub validate_point_tile : (ℕ → String) → PointTile → Bool × List Diagnostic
validate_point_tile item_message t =
    let reports = point_tile_reports item_message t in
    ((validate_point_lod_hierarchy item_message t.lod).0 && is_empty reports, reports)
