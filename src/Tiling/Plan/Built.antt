-- ===== src/Tiling/Plan/Built.antt =====
-- What `BuildTilePlan` gives when it succeeds.
use usd_pointcloud_plugins.Prelude.{
  ◌%◌, ◌^◌, ◌∙◌, All-map_of, ◌≡◌, refl, Bool, true, false, List, [], all_of, All, Bool-cases, inl,
  inr, arith,
}
use usd_pointcloud_plugins.Prelude.Sort.{sort_by}
use usd_pointcloud_plugins.Core.Diagnostic.{Diagnostic}
use usd_pointcloud_plugins.Tiling.Ids.{tile_id_less}
use usd_pointcloud_plugins.Core.TileId.{TileId}
use usd_pointcloud_plugins.Tiling.Budget.{BudgetTile, BudgetPlan}
use usd_pointcloud_plugins.Tiling.Router.{budget_tile_is_valid}
use usd_pointcloud_plugins.Tiling.Plan.{TilePlanNode, TilePlan}
use usd_pointcloud_plugins.Tiling.Plan.Validate.{validate_tile_plan}
use usd_pointcloud_plugins.Tiling.Plan.Build.{plan_of, add_leaves, finish_build, build_tile_plan}
use usd_pointcloud_plugins.Tiling.Plan.Totals.{
  total_at, shares, total_at-add_leaves, total_at-sort_by,
}
use usd_pointcloud_plugins.Tiling.Plan.Leaves.{has_leaf, has_leaf-add_leaves, has_leaf-sort_by}
use usd_pointcloud_plugins.Tiling.Plan.Tree.{IsTree, validate_tile_plan-IsTree}

-- What the nodes hold of the tiles.
pub record Holds (k : TileId) (tiles : List BudgetTile) (nodes : List TilePlanNode) : Type 0 where
  pub leaves : All (λ t. has_leaf t.id nodes ≡ true) tiles
  pub counts : total_at k nodes % 2 ^ 64 ≡ shares k tiles % 2 ^ 64

finish_build-Holds :
    (k : TileId) (tiles : List BudgetTile) (p : TilePlan) (v : Bool × List Diagnostic)
    → (v.0 ≡ true → IsTree p.nodes)
    → Holds k tiles p.nodes
    → (finish_build p v).result ≡ true
    → IsTree (finish_build p v).plan.nodes × Holds k tiles (finish_build p v).plan.nodes
unfolding finish_build
finish_build-Holds k tiles p (true, errors) f g h = (f refl, g)
finish_build-Holds k tiles p (false, errors) f g h = ground arith

sorted-Holds :
    (k : TileId) (tiles : List BudgetTile)
    → Holds k tiles (sort_by (λ a b. tile_id_less a.id b.id) (add_leaves tiles []))
unfolding total_at
sorted-Holds k tiles =
    let less : TilePlanNode → TilePlanNode → Bool = λ a b. tile_id_less a.id b.id in
    let nodes = add_leaves tiles [] in
    record {
      leaves =
          All-map_of tiles (λ t h. has_leaf-sort_by t.id less nodes ∙ h)
            (has_leaf-add_leaves tiles []);
      counts = omega (arith, total_at-sort_by k less nodes, total_at-add_leaves k tiles []);
    }

-- When `BuildTilePlan` succeeds on the tiles of an adaptive plan, the nodes of its plan form a tree; every
-- tile has a leaf with the text of its identity; and the points counted on the nodes with the text of any
-- identity are, up to a multiple of 2^64, those of the tiles it lies on the way of: each tile counts once for
-- its own identity and once for each identity above it with that text, the coordinates halved from level to
-- level down to level 0.
pub build_tile_plan-IsTree :
    (budget : BudgetPlan) (k : TileId)
    → (build_tile_plan budget).result ≡ true
    → let nodes = (build_tile_plan budget).plan.nodes in IsTree nodes × Holds k budget.tiles nodes
unfolding build_tile_plan
build_tile_plan-IsTree budget k h = elim (Bool-cases (all_of budget_tile_is_valid budget.tiles)) [
  | inr e ↦ (let h' = rw e at h in ground arith)
  | inl e ↦
      (let p = plan_of (sort_by (λ a b. tile_id_less a.id b.id) (add_leaves budget.tiles [])) in
        let h' = rw e at h in
        rw e (
          finish_build-Holds k budget.tiles p (validate_tile_plan p) (validate_tile_plan-IsTree p)
            (sorted-Holds k budget.tiles) h'))
]
