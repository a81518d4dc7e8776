-- ===== src/Tiling/Router.antt =====
-- `PointBudgetTileRouter` of Tiling.cpp: the tile of a planned quadtree that a point belongs to.
pub mod Under
pub mod Quarters
pub mod Routes
pub mod Inside
pub mod Counts
use usd_pointcloud_plugins.Prelude.{
  ℕ, zero, suc, ◌+◌, ◌*◌, Bool, true, false, not, ◌&&◌, ◌||◌, if◌then◌else◌, ltb, leb, List, [],
  ◌∷◌, map, is_empty, all_of,
}
use usd_pointcloud_plugins.Prelude.Int.{pos, negsuc}
use usd_pointcloud_plugins.Prelude.Sort.{sort_by}
use usd_pointcloud_plugins.Core.Float64.{is_finite, le_f64, lt_f64, min_f64, max_f64}
use usd_pointcloud_plugins.Core.Bounds.{Vec3d}
use usd_pointcloud_plugins.Core.TileId.{TileId, tile_is_valid}
use usd_pointcloud_plugins.Tiling.Ids.{tile_id_less, tile_id_equal, tile_at, first_not_less_equals}
use usd_pointcloud_plugins.Tiling.Config.{max_point_budget_depth}
use usd_pointcloud_plugins.Tiling.Budget.{
  Rect, BudgetTile, BudgetPlan, Quarter, quarter_of, quarter_rect, east_bit, north_bit, flat,
}

unfoldable pub budget_tile_is_valid : BudgetTile → Bool
budget_tile_is_valid t =
    tile_is_valid t.id
    && is_finite t.rect.min_x
    && is_finite t.rect.max_x
    && is_finite t.rect.min_y
    && is_finite t.rect.max_y
    && le_f64 t.rect.min_x t.rect.max_x
    && le_f64 t.rect.min_y t.rect.max_y
    && ltb 0 t.point_count

pub record Router : Type 0 where
  pub tiles : List BudgetTile
  pub root : Rect

unfoldable pub join_rect : Rect → Rect → Rect
join_rect a b = record {
  min_x = min_f64 a.min_x b.min_x;
  max_x = max_f64 a.max_x b.max_x;
  min_y = min_f64 a.min_y b.min_y;
  max_y = max_f64 a.max_y b.max_y;
}

unfoldable pub join_rects : Rect → List BudgetTile → Rect
join_rects r [] = r
join_rects r (t ∷ ts) = join_rects (join_rect r t.rect) ts

-- The bounds of the sorted tiles, from the first of them on.
unfoldable pub root_rect : List BudgetTile → Rect
root_rect [] = record { min_x = 0; max_x = 0; min_y = 0; max_y = 0 }
root_rect (t ∷ ts) = join_rects t.rect (t ∷ ts)

abbrev pub tile_less : BudgetTile → BudgetTile → Bool
tile_less a b = tile_id_less a.id b.id

unfoldable pub router_of : List BudgetTile → Router
router_of tiles =
    let sorted = sort_by tile_less tiles in record { tiles = sorted; root = root_rect sorted }

unfoldable pub router_is_valid : Router → Bool
router_is_valid r =
    not (is_empty r.tiles)
    && is_finite r.root.min_x
    && is_finite r.root.max_x
    && is_finite r.root.min_y
    && is_finite r.root.max_y
    && le_f64 r.root.min_x r.root.max_x
    && le_f64 r.root.min_y r.root.max_y
    && all_of budget_tile_is_valid r.tiles

abbrev pub nowhere : TileId
nowhere = record { level = negsuc 0; x = pos 0; y = pos 0; z = pos 0 }

-- `findTile`
unfoldable pub find_tile : List BudgetTile → TileId → Bool
find_tile tiles id = first_not_less_equals tile_id_less tile_id_equal id (map (λ t. t.id) tiles)

-- The loop of `GetTileId`: `found` is the search for a tile. The level grows by one in each round and
-- stops at 31, so 32 rounds are enough.
unfoldable pub walk : (ℕ → ℕ → ℕ) → (TileId → Bool) → Vec3d → ℕ → ℕ → ℕ → ℕ → Rect → TileId
walk mid found p zero depth x y r = nowhere
walk mid found p (suc fuel) depth x y r =
    let split_x = mid r.min_x r.max_x in
    let split_y = mid r.min_y r.max_y in
    let q = quarter_of split_x split_y p in
    let rest =
      walk mid found p fuel (suc depth) (x * 2 + east_bit q) (y * 2 + north_bit q)
        (quarter_rect q split_x split_y r) in
    if found (tile_at depth x y)
    then tile_at depth x y
    else (if leb max_point_budget_depth depth || flat r then nowhere else rest)

unfoldable pub outside : Rect → Vec3d → Bool
outside r p = lt_f64 p.x r.min_x || lt_f64 r.max_x p.x || lt_f64 p.y r.min_y || lt_f64 r.max_y p.y

unfoldable pub get_tile_id : (ℕ → ℕ → ℕ) → Router → Vec3d → TileId
get_tile_id mid router p =
    if not (router_is_valid router) || not (is_finite p.x) || not (is_finite p.y)
    then nowhere
    else (if outside router.root p
        then nowhere
        else walk mid (find_tile router.tiles) p 32 0 0 0 router.root)
