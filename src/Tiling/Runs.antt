-- ===== src/Tiling/Runs.antt =====
-- The tiling theorems at concrete inputs.
use usd_pointcloud_plugins.Prelude.{
  ℕ, ◌+◌, ◌/◌, ◌≡◌, refl, true, false, List, [], ◌∷◌, map, length, All, is_empty, all_of, not, ◌&&◌,
  ◌⊎◌, ◌≢◌,
}
use usd_pointcloud_plugins.Prelude.Int.{ℤ, pos, negsuc, ◌-ℤ◌}
use usd_pointcloud_plugins.Prelude.Sort.{insert_by, sort_by}
use usd_pointcloud_plugins.Core.Float64.{le_f64, lt_f64, eq_f64, min_f64, max_f64, order_key}
use usd_pointcloud_plugins.Core.Bounds.{Vec3d}
use usd_pointcloud_plugins.Core.TileId.{tile_is_valid}
use usd_pointcloud_plugins.Tiling.Ids.{tile_id_less, tile_id_equal, tile_at}
use usd_pointcloud_plugins.Tiling.Budget.{
  record_leaf, quarter_of, quarter_rect, select, flat, counts_allow, child, can_split,
  children_allow, descend, split, keep_whole, visit, iota, grow_rect, grow_rects, make_bounds,
  finish_plan, plan_points, plan_valid, build_point_budget_plan,
}
use usd_pointcloud_plugins.Prelude.Decimal.{decimal_ℤ, decimal, digits}
use usd_pointcloud_plugins.Core.TileId.{tile_to_string}
use usd_pointcloud_plugins.Core.Bounds.{expand, empty_bounds, vec_is_finite}
use usd_pointcloud_plugins.Tiling.Budget.{BudgetPlan}
use usd_pointcloud_plugins.Tiling.Plan.Build.{
  build_tile_plan, finish_build, add_leaves, add_leaf, add_path, add_below, link, path_to,
  count_leaf, add_child, known_id, with_node,
}
use usd_pointcloud_plugins.Tiling.Plan.Built.{Holds, build_tile_plan-IsTree}
use usd_pointcloud_plugins.Tiling.Budget.Figures.{
  FiguresAgree, build_point_budget_plan-FiguresAgree,
}
use usd_pointcloud_plugins.Tiling.Router.{
  budget_tile_is_valid, join_rect, join_rects, root_rect, router_of, router_is_valid, get_tile_id,
}
use usd_pointcloud_plugins.Tiling.Router.Counts.{get_tile_id-point_count}
use usd_pointcloud_plugins.Core.TileId.{TileId}
use usd_pointcloud_plugins.Core.Bounds.{SpatialBounds, bounds_is_valid}
use usd_pointcloud_plugins.Tiling.Config.{
  TileGridConfig, PointBudgetConfig, budget_config_is_valid, grid_config_is_valid,
  validate_tile_grid_config, validate_point_budget_config,
}
use usd_pointcloud_plugins.Tiling.Config.Agree.{
  validate_tile_grid_config_reports, validate_point_budget_config_reports,
}
use usd_pointcloud_plugins.Tiling.Grid.{is_index, grid_tile_id, grid_tile_id_lem}
use usd_pointcloud_plugins.Tiling.Manifest.{
  ManifestEntry, manifest_entry_is_valid, validate_point_tile_manifest,
}
use usd_pointcloud_plugins.Tiling.Manifest.Once.{some_alike, validate_point_tile_manifest_iff}
use usd_pointcloud_plugins.Tiling.Plan.{
  TilePlanNode, TilePlan, node_is_valid, source_range_is_valid, plan_is_valid, find_node,
  find_index,
}
use usd_pointcloud_plugins.Tiling.Plan.Validate.{
  refuse_if, or_then, is_root, lists, parent_refusal, is_child_of, children_refusal, node_refusal,
  nodes_refusal, root_count, root_index, exhausted, set_state, state_at, children_at, and_then,
  visit_found, visit_children, close, by_state, visit_node, is_unseen, walk_from_root, finish_walk,
  validate_roots, header_refusal, validate_nodes, validate_tile_plan,
}
use usd_pointcloud_plugins.Tiling.Plan.Tree.{IsTree, validate_tile_plan-IsTree}
use usd_pointcloud_plugins.Tiling.Plan.Fuel.{walk_from_root-answers}

abbrev middle : ℕ → ℕ → ℕ
middle a b = (a + b) / 2

abbrev two_per_tile : PointBudgetConfig
two_per_tile = record { max_points_per_tile = 2; min_points_per_tile = 1; max_depth = pos 3 }

-- The doubles 1 and 3.
abbrev one_f : ℕ
one_f = 0x3ff0_0000_0000_0000

abbrev three_f : ℕ
three_f = 0x4008_0000_0000_0000

abbrev corner : ℕ → ℕ → Vec3d
corner x y = record { x = x; y = y; z = 0 }

abbrev others : List Vec3d
others = corner three_f one_f ∷ corner one_f three_f ∷ corner three_f three_f ∷ []

corners_valid :
    router_is_valid (
      router_of
        (build_point_budget_plan middle ◌/◌ two_per_tile (corner one_f one_f ∷ others)).plan.tiles)
    ≡ true
unfolding router_is_valid router_of sort_by insert_by tile_id_less root_rect join_rects join_rect
    budget_tile_is_valid tile_is_valid build_point_budget_plan plan_valid plan_points finish_plan
    visit keep_whole split descend children_allow can_split child counts_allow flat select
    quarter_rect quarter_of record_leaf make_bounds grow_rects grow_rect iota le_f64 lt_f64 eq_f64
    min_f64 max_f64 order_key budget_config_is_valid
corners_valid = refl

corners_bounds :
    (router_of
      (build_point_budget_plan middle ◌/◌ two_per_tile
        (corner one_f one_f ∷ others)).plan.tiles).root
    ≡ make_bounds (corner one_f one_f) others
unfolding router_of sort_by insert_by tile_id_less root_rect join_rects join_rect
    build_point_budget_plan plan_valid plan_points finish_plan visit keep_whole split descend
    children_allow can_split child counts_allow flat select quarter_rect quarter_of record_leaf
    make_bounds grow_rects grow_rect iota le_f64 lt_f64 eq_f64 min_f64 max_f64 order_key
    budget_config_is_valid
corners_bounds = refl

two_per_tile_valid : budget_config_is_valid two_per_tile ≡ true
unfolding budget_config_is_valid
two_per_tile_valid = refl

get_tile_id-point_count_example :
    All
      (λ t.
        length (
          select
            (λ v.
              tile_id_equal
                (get_tile_id middle
                  (router_of
                    (build_point_budget_plan middle ◌/◌ two_per_tile
                      (corner one_f one_f ∷ others)).plan.tiles)
                  v)
                t.id)
            (corner one_f one_f ∷ others))
        ≡ t.point_count)
      (build_point_budget_plan middle ◌/◌ two_per_tile (corner one_f one_f ∷ others)).plan.tiles
get_tile_id-point_count_example =
    get_tile_id-point_count middle ◌/◌ two_per_tile (corner one_f one_f) others two_per_tile_valid
      ((refl, refl), ((refl, refl), ((refl, refl), ((refl, refl), tt)))) corners_valid
      corners_bounds

build_point_budget_plan-FiguresAgree_example :
    FiguresAgree two_per_tile 4
      (build_point_budget_plan middle ◌/◌ two_per_tile (corner one_f one_f ∷ others))
build_point_budget_plan-FiguresAgree_example =
    build_point_budget_plan-FiguresAgree middle ◌/◌ two_per_tile (corner one_f one_f) others
      two_per_tile_valid refl

-- A plan of the four corners has a tile for each.
corners_tiles :
    map
      (λ t. t.id)
      (build_point_budget_plan middle ◌/◌ two_per_tile (corner one_f one_f ∷ others)).plan.tiles
    ≡ tile_at 1 0 0 ∷ tile_at 1 1 0 ∷ tile_at 1 0 1 ∷ tile_at 1 1 1 ∷ []
unfolding build_point_budget_plan plan_valid plan_points finish_plan visit keep_whole split descend
    children_allow can_split child counts_allow flat select quarter_rect quarter_of record_leaf
    make_bounds grow_rects grow_rect iota le_f64 lt_f64 eq_f64 min_f64 max_f64 order_key
    budget_config_is_valid
corners_tiles = refl

abbrev no_tile : TileId
no_tile = record { level = negsuc 0; x = pos 0; y = pos 0; z = pos 0 }

abbrev unit_bounds : SpatialBounds
unit_bounds = record { minimum = corner one_f one_f; maximum = corner three_f three_f }

abbrev top_node : TilePlanNode
top_node = record {
  id = tile_at 0 0 0;
  bounds = unit_bounds;
  point_count = 3;
  parent = no_tile;
  children = tile_at 1 1 0 ∷ [];
  source_ranges = [];
  is_leaf = false;
}

abbrev leaf_node : TilePlanNode
leaf_node = record {
  id = tile_at 1 1 0;
  bounds = unit_bounds;
  point_count = 3;
  parent = tile_at 0 0 0;
  children = [];
  source_ranges = record { offset = 10; length = 20 } ∷ [];
  is_leaf = true;
}

abbrev two_nodes : TilePlan
two_nodes = record {
  planner_id = b'a' ∷ [];
  planner_version = 1;
  nodes = top_node ∷ leaf_node ∷ [];
}

two_nodes_accepted : (validate_tile_plan two_nodes).0 ≡ true
unfolding validate_tile_plan validate_nodes header_refusal validate_roots finish_walk walk_from_root
    is_unseen visit_node by_state close visit_children visit_found and_then children_at state_at
    set_state root_index root_count nodes_refusal node_refusal children_refusal is_child_of
    parent_refusal lists is_root or_then refuse_if find_index find_node plan_is_valid
    source_range_is_valid node_is_valid bounds_is_valid tile_is_valid le_f64 order_key tile_id_equal
    ◌-ℤ◌
two_nodes_accepted = refl

validate_tile_plan-IsTree_example : IsTree two_nodes.nodes
validate_tile_plan-IsTree_example = validate_tile_plan-IsTree two_nodes two_nodes_accepted

-- A node that lists itself as its child.
abbrev looping_node : TilePlanNode
looping_node = record top_node { children = tile_at 0 0 0 ∷ [] }

walk_from_root-answers_example : walk_from_root (looping_node ∷ leaf_node ∷ []) ≢ exhausted
walk_from_root-answers_example = walk_from_root-answers looping_node (leaf_node ∷ [])

abbrev unit_grid : TileGridConfig
unit_grid = record { tile_size = one_f; level = pos 2 }

abbrev third : ℕ → ℕ → ℤ
third a b = pos 3

grid_tile_id_lem_example :
    (tile_is_valid (grid_tile_id third unit_grid (corner three_f three_f)) ≡ (
      (grid_config_is_valid unit_grid && true && true)
      && (is_index (third three_f one_f) && is_index (third three_f one_f))))
    × ((not (tile_is_valid (grid_tile_id third unit_grid (corner three_f three_f))) ≡ true)
        ⊎ (grid_tile_id third unit_grid (corner three_f three_f)
            ≡ record { level = pos 2; x = pos 3; y = pos 3; z = pos 0 }))
grid_tile_id_lem_example = grid_tile_id_lem third unit_grid (corner three_f three_f)

validate_point_budget_config_reports_example :
    (validate_point_budget_config two_per_tile).0
    ≡ is_empty (validate_point_budget_config two_per_tile).1
validate_point_budget_config_reports_example = validate_point_budget_config_reports two_per_tile

validate_tile_grid_config_reports_example :
    (validate_tile_grid_config unit_grid).0 ≡ is_empty (validate_tile_grid_config unit_grid).1
validate_tile_grid_config_reports_example = validate_tile_grid_config_reports unit_grid

abbrev entry_of : ℕ → ManifestEntry
entry_of lod = record {
  id = tile_at 1 1 0;
  lod = lod;
  bounds = unit_bounds;
  point_count = 3;
  payload_path = b'a' ∷ b'/' ∷ b'b' ∷ [];
}

-- The first and the last of the entries are alike.
abbrev three_entries : List ManifestEntry
three_entries = entry_of 0 ∷ entry_of 1 ∷ entry_of 0 ∷ []

validate_point_tile_manifest_iff_example :
    ((validate_point_tile_manifest three_entries).0
      ≡ (all_of manifest_entry_is_valid three_entries && not (some_alike three_entries)))
    × (is_empty (validate_point_tile_manifest three_entries).1
        ≡ (validate_point_tile_manifest three_entries).0)
validate_point_tile_manifest_iff_example = validate_point_tile_manifest_iff three_entries

abbrev corners_plan : BudgetPlan
corners_plan = (build_point_budget_plan middle ◌/◌ two_per_tile (corner one_f one_f ∷ others)).plan

corners_built : (build_tile_plan corners_plan).result ≡ true
unfolding build_tile_plan finish_build add_leaves add_leaf add_path add_below link path_to
    count_leaf add_child known_id with_node expand empty_bounds vec_is_finite tile_to_string
    decimal_ℤ decimal digits sort_by insert_by tile_id_less budget_tile_is_valid validate_tile_plan
    validate_nodes header_refusal validate_roots finish_walk walk_from_root is_unseen visit_node
    by_state close visit_children visit_found and_then children_at state_at set_state root_index
    root_count nodes_refusal node_refusal children_refusal is_child_of parent_refusal lists is_root
    or_then refuse_if find_index find_node plan_is_valid source_range_is_valid node_is_valid
    bounds_is_valid tile_is_valid tile_id_equal ◌-ℤ◌ build_point_budget_plan plan_valid plan_points
    finish_plan visit keep_whole split descend children_allow can_split child counts_allow flat
    select quarter_rect quarter_of record_leaf make_bounds grow_rects grow_rect iota le_f64 lt_f64
    eq_f64 min_f64 max_f64 order_key budget_config_is_valid
corners_built = refl

build_tile_plan-IsTree_example :
    let nodes = (build_tile_plan corners_plan).plan.nodes in
    IsTree nodes × Holds (tile_at 0 0 0) corners_plan.tiles nodes
build_tile_plan-IsTree_example = build_tile_plan-IsTree corners_plan (tile_at 0 0 0) corners_built
