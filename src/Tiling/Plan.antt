-- ===== src/Tiling/Plan.antt =====
-- `TilePlan` of Tiling.h, the tests of its parts in Tiling.cpp, and the search for a node.
pub mod Validate
pub mod Build
pub mod Built
pub mod Fuel
pub mod Rounds
pub mod Distinct
pub mod Totals
pub mod Leaves
pub mod Tree
use usd_pointcloud_plugins.Prelude.{
  ℕ, suc, ◌-◌, Bool, true, false, not, ◌&&◌, ◌||◌, if◌then◌else◌, ltb, leb, ◌==◌, List, [], ◌∷◌,
  is_empty, all_of, Bytes, Option, none, some,
}
use usd_pointcloud_plugins.Core.Bounds.{SpatialBounds, bounds_is_valid}
use usd_pointcloud_plugins.Core.TileId.{TileId, tile_is_valid}
use usd_pointcloud_plugins.Tiling.Ids.{tile_id_equal}

pub record TilePlanSourceRange : Type 0 where
  pub offset : ℕ
  pub length : ℕ

abbrev pub max_uint64 : ℕ
max_uint64 = 0xffff_ffff_ffff_ffff

unfoldable pub source_range_is_valid : TilePlanSourceRange → Bool
source_range_is_valid r = ltb 0 r.length && leb r.offset (max_uint64 - r.length)

pub record TilePlanNode : Type 0 where
  pub id : TileId
  pub bounds : SpatialBounds
  pub point_count : ℕ
  pub parent : TileId
  pub children : List TileId
  pub source_ranges : List TilePlanSourceRange
  pub is_leaf : Bool

unfoldable pub node_is_valid : TilePlanNode → Bool
node_is_valid n =
    if not (tile_is_valid n.id) || not (bounds_is_valid n.bounds) || n.point_count == 0
    then false
    else (if n.is_leaf && not (is_empty n.children)
        then false
        else all_of source_range_is_valid n.source_ranges)

pub record TilePlan : Type 0 where
  pub planner_id : Bytes
  pub planner_version : ℕ
  pub nodes : List TilePlanNode

unfoldable pub plan_is_valid : TilePlan → Bool
plan_is_valid p =
    not (is_empty p.planner_id) && ltb 0 p.planner_version && all_of node_is_valid p.nodes

-- `std::find_if` for a node with an identity: its index, from `from` on.
unfoldable pub find_node : List TilePlanNode → TileId → Option TilePlanNode
find_node [] id = none
find_node (n ∷ ns) id = if tile_id_equal n.id id then some n else find_node ns id

unfoldable pub find_index : ℕ → List TilePlanNode → TileId → Option ℕ
find_index from [] id = none
find_index from (n ∷ ns) id =
    if tile_id_equal n.id id then some from else find_index (suc from) ns id
