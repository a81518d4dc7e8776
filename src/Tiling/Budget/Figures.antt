-- ===== src/Tiling/Budget/Figures.antt =====
-- The figures of a finished plan.
use usd_pointcloud_plugins.Prelude.{
  ℕ, zero, suc, ◌≤◌, ◌<◌, ◌≡◌, refl, ap, ◌∙◌, Bool, true, false, not, ◌||◌, List, [], ◌∷◌, map,
  is_empty, length, any_of, all_of, leb, le→leb, ◌==◌, sum, All, All-append, arith,
}
use usd_pointcloud_plugins.Prelude.Int.{pos_part}
use usd_pointcloud_plugins.Core.Float64.{is_finite}
use usd_pointcloud_plugins.Core.Bounds.{Vec3d}
use usd_pointcloud_plugins.Tiling.Config.{PointBudgetConfig, budget_config_is_valid}
use usd_pointcloud_plugins.Tiling.Budget.{
  BudgetTile, Progress, record_leaf, keep_whole, start_progress, iota, place_in, make_bounds,
  finish_plan, plan_points, plan_valid, build_point_budget_plan, Planned,
}
use usd_pointcloud_plugins.Tiling.Budget.Kept.{Kept, visit-kept}
use usd_pointcloud_plugins.Tiling.Budget.Accounts.{IsAccounted, record_leaf-IsAccounted}
use usd_pointcloud_plugins.Tiling.Budget.Shares.{shares-leaves}
use usd_pointcloud_plugins.Tiling.Budget.Tree.{leaves, visit-tiles}

-- The progress of a plan for `total` points: accounted for, and within the budget while it is satisfied.
record OnTrack (config : PointBudgetConfig) (total : ℕ) (s : Progress) : Type 0 where
  accounted : IsAccounted s.plan
  within : s.satisfied ≡ true → All (λ t. t.point_count ≤ config.max_points_per_tile) s.plan.tiles
  points : s.plan.point_count ≡ total

length_some {ℓ} : {A : Type ℓ} (l : List A) → is_empty l ≡ false → 0 < length l
length_some [] e = ground arith
length_some (a ∷ l) e = omega arith

module _ (mid : ℕ → ℕ → ℕ) (place : ℕ → Vec3d) (config : PointBudgetConfig) (total : ℕ) where
  OnTrack-Kept : Kept mid place config (OnTrack config total)
  unfolding keep_whole record_leaf
  OnTrack-Kept = record {
    deeper = λ s depth h. record { accounted = h.accounted; within = h.within; points = h.points };
    split_once = λ s h. record { accounted = h.accounted; within = h.within; points = h.points };
    recorded = λ indices depth x y r fine s some fits h. record {
      accounted =
          record_leaf-IsAccounted (length indices) r depth x y s.plan (length_some indices some)
            h.accounted;
      within = λ e. All-append _ s.plan.tiles _ (h.within (ground arith)) (fits (ground arith), tt);
      points = h.points;
    };
  }

  start-OnTrack : OnTrack config total (start_progress total)
  start-OnTrack = record {
    accounted = record {
      tile_count = refl;
      positive = tt;
      least = tt;
      greatest = tt;
      least_met = refl;
      greatest_met = refl;
      none_yet = λ e. (refl, refl);
      least_some = λ e. ground arith;
    };
    within = λ e. tt;
    points = refl;
  }

-- The figures of a plan describe its tiles: their number, the least and the greatest count of points and
-- a tile that has it, the points in all; and a plan that succeeds keeps every tile within the budget.
pub record FiguresAgree (config : PointBudgetConfig) (total : ℕ) (planned : Planned) : Type 0 where
  pub tile_count : planned.plan.tile_count ≡ length planned.plan.tiles
  pub least : All (λ t. planned.plan.minimum_points_per_tile ≤ t.point_count) planned.plan.tiles
  pub greatest : All (λ t. t.point_count ≤ planned.plan.maximum_points_per_tile) planned.plan.tiles
  pub least_met :
      any_of (λ t. t.point_count == planned.plan.minimum_points_per_tile) planned.plan.tiles ≡ true
  pub greatest_met :
      any_of (λ t. t.point_count == planned.plan.maximum_points_per_tile) planned.plan.tiles ≡ true
  pub shared : sum (map (λ t. t.point_count) planned.plan.tiles) ≡ total
  pub points : planned.plan.point_count ≡ total
  pub within :
      (not planned.result
        || all_of (λ t. leb t.point_count config.max_points_per_tile) planned.plan.tiles)
      ≡ true

All-within :
    (m : ℕ) (l : List BudgetTile)
    → All (λ t. t.point_count ≤ m) l
    → all_of (λ t. leb t.point_count m) l ≡ true
All-within m [] h = refl
All-within m (t ∷ l) h = ground (arith, All-within m l h.1, le→leb t.point_count m h.0)

within_budget :
    (satisfied : Bool) (m : ℕ) (l : List BudgetTile)
    → (satisfied ≡ true → All (λ t. t.point_count ≤ m) l)
    → (not satisfied || all_of (λ t. leb t.point_count m) l) ≡ true
within_budget false m l h = refl
within_budget true m l h = All-within m l (h refl)

some_tile : (l : List BudgetTile) → 0 < sum (map (λ t. t.point_count) l) → is_empty l ≡ false
some_tile [] h = ground arith
some_tile (t ∷ l) h = refl

finish_plan-FiguresAgree :
    (quotient : ℕ → ℕ → ℕ) (config : PointBudgetConfig) (n : ℕ) (s : Progress)
    → OnTrack config (suc n) s
    → sum (map (λ t. t.point_count) s.plan.tiles) ≡ suc n
    → FiguresAgree config (suc n) (finish_plan quotient s)
unfolding finish_plan
finish_plan-FiguresAgree quotient config n s h total =
    let some = some_tile s.plan.tiles (omega (arith, total)) in
    let low = h.accounted.least_met in
    let high = h.accounted.greatest_met in
    record {
      tile_count = h.accounted.tile_count;
      least = h.accounted.least;
      greatest = h.accounted.greatest;
      least_met = rw some at low;
      greatest_met = rw some at high;
      shared = total;
      points = h.points;
      within = within_budget s.satisfied config.max_points_per_tile s.plan.tiles h.within;
    }

map-map {ℓ κ μ} :
    {A : Type ℓ} {B : Type κ} {C : Type μ} (f : A → B) (g : B → C) (l : List A)
    → map g (map f l) ≡ map (λ a. g (f a)) l
map-map f g [] = refl
map-map f g (a ∷ l) = ap (λ t. g (f a) ∷ t) (map-map f g l)

iota_some : (n : ℕ) → is_empty (iota 0 (suc n)) ≡ false
unfolding iota
iota_some n = refl

length-iota : (k n : ℕ) → length (iota k n) ≡ n
unfolding iota
length-iota k zero = refl
length-iota k (suc n) = omega (arith, length-iota (suc k) n)

-- Of a plan for finite positions under a valid configuration: the number of tiles, the least and the
-- greatest count of points of a tile and the number of points are those of the tiles, the counts of the
-- tiles add up to the number of positions, and where the planner reports success no tile has more points
-- than the configuration allows.
pub build_point_budget_plan-FiguresAgree :
    (mid quotient : ℕ → ℕ → ℕ) (config : PointBudgetConfig) (p : Vec3d) (ps : List Vec3d)
    → budget_config_is_valid config ≡ true
    → any_of (λ v. not (is_finite v.x) || not (is_finite v.y)) (p ∷ ps) ≡ false
    → FiguresAgree config (length (p ∷ ps)) (build_point_budget_plan mid quotient config (p ∷ ps))
unfolding build_point_budget_plan plan_valid plan_points
build_point_budget_plan-FiguresAgree mid quotient config p ps valid flat =
    let place = place_in (p ∷ ps) in
    let n = length ps in
    let fuel = suc (pos_part config.max_depth) in
    let here = leaves mid place config fuel (iota 0 (suc n)) 0 0 0 (make_bounds p ps) in
    let tracked =
      visit-kept mid place config (OnTrack-Kept mid place config (suc n)) fuel (iota 0 (suc n)) 0 0
        0 (make_bounds p ps) (start_progress (suc n)) (iota_some n)
        (start-OnTrack mid place config (suc n)) in
    let total =
      ap (λ ts. sum (map (λ t. t.point_count) ts))
        (visit-tiles mid place config fuel (iota 0 (suc n)) 0 0 0 (make_bounds p ps)
          (start_progress (suc n)))
      ∙ ap sum (map-map (λ l. l.tile) (λ t. t.point_count) here)
      ∙ shares-leaves mid place config fuel (iota 0 (suc n)) 0 0 0 (make_bounds p ps) (omega arith)
          (omega arith)
      ∙ length-iota 0 (suc n) in
    rw (valid, flat) (finish_plan-FiguresAgree quotient config n _ tracked total)
