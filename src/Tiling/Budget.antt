-- ===== src/Tiling/Budget.antt =====
-- `BuildPointBudgetPlan` of Tiling.cpp on points in memory: a quadtree whose leaves hold at most a given
-- number of points. The middle of two coordinates and the quotient of two counts round: they are the
-- parameters `mid` and `quotient`. The recursion runs on fuel.
pub mod Tree
pub mod Parts
pub mod Kept
pub mod Accounts
pub mod Shares
pub mod Figures
use usd_pointcloud_plugins.Prelude.{
  ℕ, zero, suc, ◌+◌, ◌*◌, min, max, Bool, true, false, not, ◌&&◌, ◌||◌, if◌then◌else◌, ltb, leb,
  ◌==◌, List, [], ◌∷◌, ◌++◌, is_empty, length, get_or, any_of,
}
use usd_pointcloud_plugins.Prelude.Int.{ℤ, pos, pos_part, ltb_ℤ}
use usd_pointcloud_plugins.Core.Float64.{is_finite, le_f64, eq_f64, min_f64, max_f64}
use usd_pointcloud_plugins.Core.Bounds.{Vec3d}
use usd_pointcloud_plugins.Core.TileId.{TileId}
use usd_pointcloud_plugins.Core.Diagnostic.{Diagnostic, DiagnosticCode, an_error}
use usd_pointcloud_plugins.Tiling.Ids.{tile_at}
use usd_pointcloud_plugins.Tiling.Config.{
  PointBudgetConfig, budget_config_is_valid, budget_config_errors, validate_point_budget_config,
}

pub record Rect : Type 0 where
  pub min_x : ℕ
  pub max_x : ℕ
  pub min_y : ℕ
  pub max_y : ℕ

pub record BudgetTile : Type 0 where
  pub id : TileId
  pub rect : Rect
  pub point_count : ℕ

pub record BudgetPlan : Type 0 where
  pub tile_count : ℕ
  pub maximum_points_per_tile : ℕ
  pub depth : ℕ
  pub point_count : ℕ
  pub minimum_points_per_tile : ℕ
  pub average_points_per_tile : ℕ
  pub split_count : ℕ
  pub tiles : List BudgetTile

abbrev pub empty_plan : BudgetPlan
empty_plan = record {
  tile_count = 0;
  maximum_points_per_tile = 0;
  depth = 0;
  point_count = 0;
  minimum_points_per_tile = 0;
  average_points_per_tile = 0;
  split_count = 0;
  tiles = [];
}

-- The plan under construction, and whether the budget is satisfied so far.
pub record Progress : Type 0 where
  pub plan : BudgetPlan
  pub satisfied : Bool

-- `recordLeaf`
unfoldable pub record_leaf : ℕ → Rect → TileId → BudgetPlan → BudgetPlan
record_leaf count rect id p = record p {
  tile_count = p.tile_count + 1;
  minimum_points_per_tile =
      if p.minimum_points_per_tile == 0 then count else min p.minimum_points_per_tile count;
  maximum_points_per_tile = max p.maximum_points_per_tile count;
  tiles = p.tiles ++ record { id = id; rect = rect; point_count = count } ∷ [];
}

-- The four quarters: bit 0 is the east half, bit 1 the north half.
pub data Quarter : Type 0 where
  south_west south_east north_west north_east : Quarter

abbrev pub east_bit : Quarter → ℕ
east_bit south_west = 0
east_bit south_east = 1
east_bit north_west = 0
east_bit north_east = 1

abbrev pub north_bit : Quarter → ℕ
north_bit south_west = 0
north_bit south_east = 0
north_bit north_west = 1
north_bit north_east = 1

abbrev pub same_quarter : Quarter → Quarter → Bool
same_quarter a b = east_bit a == east_bit b && north_bit a == north_bit b

abbrev pub quarter : Bool → Bool → Quarter
quarter false false = south_west
quarter true false = south_east
quarter false true = north_west
quarter true true = north_east

unfoldable pub quarter_of : ℕ → ℕ → Vec3d → Quarter
quarter_of split_x split_y p = quarter (le_f64 split_x p.x) (le_f64 split_y p.y)

unfoldable pub quarter_rect : Quarter → ℕ → ℕ → Rect → Rect
quarter_rect south_west split_x split_y r = record r { max_x = split_x; max_y = split_y }
quarter_rect south_east split_x split_y r = record r { min_x = split_x; max_y = split_y }
quarter_rect north_west split_x split_y r = record r { max_x = split_x; min_y = split_y }
quarter_rect north_east split_x split_y r = record r { min_x = split_x; min_y = split_y }

-- The elements that pass a test, in their order.
unfoldable pub select {ℓ} : {A : Type ℓ} → (A → Bool) → List A → List A
select p [] = []
select p (a ∷ l) = let rest = select p l in if p a then a ∷ rest else rest

unfoldable pub flat : Rect → Bool
flat r = eq_f64 r.min_x r.max_x || eq_f64 r.min_y r.max_y

-- A child of the split: it has the minimum of points, or none.
abbrev pub meets_minimum : ℕ → ℕ → Bool
meets_minimum least count = count == 0 || leb least count

abbrev pub some_point : ℕ → ℕ
some_point count = if count == 0 then 0 else 1

-- The counts of the four children allow the split.
unfoldable pub counts_allow : ℕ → ℕ → ℕ → ℕ → ℕ → Bool
counts_allow least a b c d =
    leb 2 (some_point a + some_point b + some_point c + some_point d)
    && meets_minimum least a
    && meets_minimum least b
    && meets_minimum least c
    && meets_minimum least d

module _ (mid : ℕ → ℕ → ℕ) (place : ℕ → Vec3d) (config : PointBudgetConfig) where
  abbrev pub split_x : Rect → ℕ
  split_x r = mid r.min_x r.max_x

  abbrev pub split_y : Rect → ℕ
  split_y r = mid r.min_y r.max_y

  unfoldable pub child : Quarter → Rect → List ℕ → List ℕ
  child q r indices =
      select (λ i. same_quarter (quarter_of (split_x r) (split_y r) (place i)) q) indices

  unfoldable pub can_split : List ℕ → ℕ → Rect → Bool
  can_split indices depth r =
      ltb config.max_points_per_tile (length indices)
      && ltb_ℤ (pos depth) config.max_depth
      && not (flat r)

  unfoldable pub children_allow : List ℕ → Rect → Bool
  children_allow indices r =
      counts_allow config.min_points_per_tile (length (child south_west r indices))
        (length (child south_east r indices)) (length (child north_west r indices))
        (length (child north_east r indices))

  abbrev pub Visit : Type 0
  Visit = List ℕ → ℕ → ℕ → ℕ → Rect → Progress → Progress

  -- The visit of one child, which is passed over when it is empty.
  unfoldable pub descend : Visit → Quarter → List ℕ → ℕ → ℕ → ℕ → Rect → Progress → Progress
  descend go q indices depth x y r s =
      if is_empty (child q r indices)
      then s
      else go (child q r indices) (suc depth) (x * 2 + east_bit q) (y * 2 + north_bit q)
          (quarter_rect q (split_x r) (split_y r) r) s

  unfoldable pub split : Visit → List ℕ → ℕ → ℕ → ℕ → Rect → Progress → Progress
  split go indices depth x y r s = descend go north_east indices depth x y r (
      descend go north_west indices depth x y r (
        descend go south_east indices depth x y r (
          descend go south_west indices depth x y r
            (record s { plan = record s.plan { split_count = s.plan.split_count + 1 } }))))

  -- A leaf because no split is possible, or none is useful.
  unfoldable pub keep_whole : List ℕ → ℕ → ℕ → ℕ → Rect → Bool → Progress → Progress
  keep_whole indices depth x y r fine s = record {
    plan = record_leaf (length indices) r (tile_at depth x y) s.plan;
    satisfied = s.satisfied && fine;
  }

  unfoldable pub visit : ℕ → Visit
  visit zero indices depth x y r s = s
  visit (suc fuel) indices depth x y r s0 =
      let go = visit fuel in
      let s = record s0 { plan = record s0.plan { depth = max s0.plan.depth depth } } in
      if not (can_split indices depth r)
      then keep_whole indices depth x y r (not (ltb config.max_points_per_tile (length indices))) s
      else (if not (children_allow indices r)
          then keep_whole indices depth x y r false s
          else split go indices depth x y r s)

-- `std::iota` from `from`.
unfoldable pub iota : ℕ → ℕ → List ℕ
iota from zero = []
iota from (suc n) = from ∷ iota (suc from) n

abbrev pub origin : Vec3d
origin = record { x = 0; y = 0; z = 0 }

-- `sourcePositions[i]`
abbrev pub place_in : List Vec3d → ℕ → Vec3d
place_in positions i = get_or positions i origin

unfoldable pub grow_rect : Rect → Vec3d → Rect
grow_rect r p = record {
  min_x = min_f64 r.min_x p.x;
  max_x = max_f64 r.max_x p.x;
  min_y = min_f64 r.min_y p.y;
  max_y = max_f64 r.max_y p.y;
}

unfoldable pub grow_rects : Rect → List Vec3d → Rect
grow_rects r [] = r
grow_rects r (p ∷ ps) = grow_rects (grow_rect r p) ps

-- `makeBounds` on all the points, of which there is at least one.
unfoldable pub make_bounds : Vec3d → List Vec3d → Rect
make_bounds p ps =
    grow_rects (record { min_x = p.x; max_x = p.x; min_y = p.y; max_y = p.y }) (p ∷ ps)

pub record Planned : Type 0 where
  pub plan : BudgetPlan
  pub result : Bool
  pub diagnostics : List Diagnostic

unfoldable pub finish_plan : (ℕ → ℕ → ℕ) → Progress → Planned
finish_plan quotient s = record {
  plan = record s.plan {
    average_points_per_tile =
        if ltb 0 s.plan.tile_count then quotient s.plan.point_count s.plan.tile_count else 0;
  };
  result = s.satisfied;
  diagnostics =
      if s.satisfied
      then []
      else an_error DiagnosticCode.invalid_point_tile
          "point budget cannot be satisfied for the source distribution"
        ∷ [];
}

abbrev pub start_progress : ℕ → Progress
start_progress count = record { plan = record empty_plan { point_count = count }; satisfied = true }

-- The planning of at least one point; the fuel is one more than the greatest depth.
unfoldable pub plan_points :
    (ℕ → ℕ → ℕ) → (ℕ → ℕ → ℕ) → PointBudgetConfig → Vec3d → List Vec3d → Planned
plan_points mid quotient config p ps =
    let positions = p ∷ ps in
    if any_of (λ v. not (is_finite v.x) || not (is_finite v.y)) positions
    then record {
      plan = record empty_plan { point_count = length positions };
      result = false;
      diagnostics =
          an_error DiagnosticCode.non_finite_coordinate
            "point-budget planning requires finite horizontal coordinates"
          ∷ [];
    }
    else finish_plan quotient (
        visit mid (place_in positions) config (suc (pos_part config.max_depth))
          (iota 0 (length positions)) 0 0 0 (make_bounds p ps) (start_progress (length positions)))

unfoldable pub plan_valid : (ℕ → ℕ → ℕ) → (ℕ → ℕ → ℕ) → PointBudgetConfig → List Vec3d → Planned
plan_valid mid quotient config [] = record { plan = empty_plan; result = true; diagnostics = [] }
plan_valid mid quotient config (p ∷ ps) = plan_points mid quotient config p ps

unfoldable pub build_point_budget_plan :
    (ℕ → ℕ → ℕ) → (ℕ → ℕ → ℕ) → PointBudgetConfig → List Vec3d → Planned
build_point_budget_plan mid quotient config positions =
    if not (budget_config_is_valid config)
    then record { plan = empty_plan; result = false; diagnostics = budget_config_errors config }
    else plan_valid mid quotient config positions
