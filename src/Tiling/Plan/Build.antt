-- ===== src/Tiling/Plan/Build.antt =====
-- `BuildTilePlan` of Tiling.cpp: the nodes above the tiles of an adaptive plan. The map from the texts of
-- identities to indices is the search for the node with that text.
use usd_pointcloud_plugins.Prelude.{
  ℕ, zero, suc, ◌+◌, ◌%◌, ◌^◌, Bool, true, false, if◌then◌else◌, List, [], ◌∷◌, ◌++◌, any_of,
  all_of, bytes_eq, Bytes,
}
use usd_pointcloud_plugins.Prelude.Int.{ℤ, pos, negsuc, pos_part, half_ℤ}
use usd_pointcloud_plugins.Prelude.Sort.{sort_by}
use usd_pointcloud_plugins.Core.Bounds.{empty_bounds, expand}
use usd_pointcloud_plugins.Core.Diagnostic.{Diagnostic, DiagnosticCode, an_error}
use usd_pointcloud_plugins.Core.TileId.{TileId, tile_to_string}
use usd_pointcloud_plugins.Tiling.Ids.{tile_id_less, tile_id_equal}
use usd_pointcloud_plugins.Tiling.Budget.{BudgetTile, BudgetPlan}
use usd_pointcloud_plugins.Tiling.Router.{budget_tile_is_valid}
use usd_pointcloud_plugins.Tiling.Plan.{TilePlanNode, TilePlan}
use usd_pointcloud_plugins.Tiling.Plan.Validate.{validate_tile_plan}

abbrev pub no_parent : TileId
no_parent = record { level = negsuc 0; x = pos 0; y = pos 0; z = pos 0 }

abbrev pub fresh_node : TileId → TilePlanNode
fresh_node id = record {
  id = id;
  bounds = empty_bounds;
  point_count = 0;
  parent = no_parent;
  children = [];
  source_ranges = [];
  is_leaf = false;
}

abbrev pub same_key : TileId → TileId → Bool
same_key a b = bytes_eq (tile_to_string a) (tile_to_string b)

-- A change of `addNode(id)`: of the node with that text, or of a new one at the end.
unfoldable pub with_node :
    TileId → (TilePlanNode → TilePlanNode) → List TilePlanNode → List TilePlanNode
with_node id f [] = f (fresh_node id) ∷ []
with_node id f (n ∷ ns) = if same_key n.id id then f n ∷ ns else n ∷ with_node id f ns

-- The identity of the node `addNode(id)`.
unfoldable pub known_id : TileId → List TilePlanNode → TileId
known_id id [] = id
known_id id (n ∷ ns) = if same_key n.id id then n.id else known_id id ns

unfoldable pub add_child : TileId → TilePlanNode → TilePlanNode
add_child child n =
    if any_of (λ c. tile_id_equal c child) n.children
    then n
    else record n { children = n.children ++ child ∷ [] }

unfoldable pub count_leaf : BudgetTile → TilePlanNode → TilePlanNode
count_leaf t n = record n {
  point_count = (n.point_count + t.point_count) % 2 ^ 64;
  bounds =
      expand (expand n.bounds (record { x = t.rect.min_x; y = t.rect.min_y; z = 0 }))
        (record { x = t.rect.max_x; y = t.rect.max_y; z = 0 });
}

abbrev pub one_up : TileId → ℤ → TileId
one_up id level = record { level = level; x = half_ℤ id.x; y = half_ℤ id.y; z = half_ℤ id.z }

-- The path from an identity up to level 0, reversed: the root comes first. The number is the level.
unfoldable pub path_to : ℕ → TileId → List TileId → List TileId
path_to zero id below = id ∷ below
path_to (suc level) id below = path_to level (one_up id (pos level)) (id ∷ below)

unfoldable pub link : TileId → TileId → List TilePlanNode → List TilePlanNode
link parent id nodes =
    with_node parent (add_child (known_id id nodes))
      (with_node id (λ n. record n { parent = known_id parent nodes }) nodes)

-- The rounds after the first, each with the identity of the round before.
unfoldable pub add_below : BudgetTile → TileId → List TileId → List TilePlanNode → List TilePlanNode
add_below t parent [] nodes = nodes
add_below t parent (id ∷ ids) nodes =
    add_below t id ids (link parent id (with_node id (count_leaf t) nodes))

unfoldable pub add_path : BudgetTile → List TileId → List TilePlanNode → List TilePlanNode
add_path t [] nodes = nodes
add_path t (id ∷ ids) nodes = add_below t id ids (with_node id (count_leaf t) nodes)

unfoldable pub add_leaf : BudgetTile → List TilePlanNode → List TilePlanNode
add_leaf t nodes =
    with_node t.id (λ n. record n { is_leaf = true })
      (add_path t (path_to (pos_part t.id.level) t.id []) nodes)

unfoldable pub add_leaves : List BudgetTile → List TilePlanNode → List TilePlanNode
add_leaves [] nodes = nodes
add_leaves (t ∷ ts) nodes = add_leaves ts (add_leaf t nodes)

abbrev pub planner_id : Bytes
planner_id =
    b'a' ∷ b'd' ∷ b'a' ∷ b'p' ∷ b't' ∷ b'i' ∷ b'v' ∷ b'e' ∷ b'-' ∷ b'p' ∷ b'o' ∷ b'i' ∷ b'n' ∷ b't'
    ∷ b'-' ∷ b'b' ∷ b'u' ∷ b'd' ∷ b'g' ∷ b'e' ∷ b't' ∷ []

abbrev pub no_plan : TilePlan
no_plan = record { planner_id = []; planner_version = 0; nodes = [] }

pub record Built : Type 0 where
  pub plan : TilePlan
  pub result : Bool
  pub diagnostics : List Diagnostic

abbrev pub plan_of : List TilePlanNode → TilePlan
plan_of nodes = record { planner_id = planner_id; planner_version = 1; nodes = nodes }

unfoldable pub finish_build : TilePlan → Bool × List Diagnostic → Built
finish_build p (valid, errors) = record {
  plan = if valid then p else no_plan;
  result = valid;
  diagnostics = errors;
}

-- The first invalid tile ends the build, whatever was added before it.
unfoldable pub build_tile_plan : BudgetPlan → Built
build_tile_plan budget =
    if all_of budget_tile_is_valid budget.tiles
    then (let p = plan_of (sort_by (λ a b. tile_id_less a.id b.id) (add_leaves budget.tiles [])) in
        finish_build p (validate_tile_plan p))
    else record {
      plan = no_plan;
      result = false;
      diagnostics =
          an_error DiagnosticCode.invalid_point_tile
            "cannot build a tile plan from an invalid adaptive tile"
          ∷ [];
    }
