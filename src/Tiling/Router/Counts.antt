-- ===== src/Tiling/Router/Counts.antt =====
-- The router sends to each tile as many of the planned points as the tile counts.
use usd_pointcloud_plugins.Prelude.{
  ℕ, zero, suc, ◌≤◌, ◌≡◌, refl, sym, ap, ◌∙◌, subst, Bool, true, false, not, ◌||◌, Bool-cases, inl,
  inr, List, [], ◌∷◌, map, length, any_of, All, All-map_of, arith,
}
use usd_pointcloud_plugins.Prelude.Int.{pos_part}
use usd_pointcloud_plugins.Prelude.Sort.{insert_by, sort_by}
use usd_pointcloud_plugins.Core.Float64.{is_finite}
use usd_pointcloud_plugins.Core.Bounds.{Vec3d}
use usd_pointcloud_plugins.Core.TileId.{TileId}
use usd_pointcloud_plugins.Tiling.Ids.{tile_id_less, tile_id_equal, first_not_less_equals}
use usd_pointcloud_plugins.Tiling.Ids.Order.{search_sorted, tile_id_less-LinearOrder}
use usd_pointcloud_plugins.Tiling.Config.{PointBudgetConfig, budget_config_is_valid}
use usd_pointcloud_plugins.Tiling.Budget.{
  BudgetTile, select, iota, place_in, make_bounds, start_progress, finish_plan, plan_points,
  plan_valid, build_point_budget_plan,
}
use usd_pointcloud_plugins.Tiling.Budget.Tree.{Leaf, leaves, visit-tiles}
use usd_pointcloud_plugins.Tiling.Router.{
  Router, router_of, router_is_valid, find_tile, outside, walk, get_tile_id,
}
use usd_pointcloud_plugins.Tiling.Budget.Parts.{any_of_none, All-both, All-map}
use usd_pointcloud_plugins.Tiling.Router.Routes.{routed}
use usd_pointcloud_plugins.Tiling.Router.Inside.{IsFlatPoint, make_bounds-inside}

module _ {ℓ κ} {A : Type ℓ} {B : Type κ} (f : A → B) (less : B → B → Bool) where
  map-insert_by :
      (a : A) (l : List A)
      → map f (insert_by (λ x y. less (f x) (f y)) a l) ≡ insert_by less (f a) (map f l)
  unfolding insert_by
  map-insert_by a [] = refl
  map-insert_by a (b ∷ l) = elim (Bool-cases (less (f b) (f a))) [
    | inl e ↦ rw e (ap (λ t. f b ∷ t) (map-insert_by a l))
    | inr e ↦ rw e refl
  ]

  map-sort_by : (l : List A) → map f (sort_by (λ x y. less (f x) (f y)) l) ≡ sort_by less (map f l)
  unfolding sort_by
  map-sort_by [] = refl
  map-sort_by (a ∷ l) =
      map-insert_by a (sort_by (λ x y. less (f x) (f y)) l)
      ∙ ap (insert_by less (f a)) (map-sort_by l)

any_of-map {ℓ κ} :
    {A : Type ℓ} {B : Type κ} (f : A → B) (p : B → Bool) (l : List A)
    → any_of p (map f l) ≡ any_of (λ a. p (f a)) l
any_of-map f p [] = refl
any_of-map f p (a ∷ l) = ap (λ b. p (f a) || b) (any_of-map f p l)

-- The search of the router finds the identities of its tiles and no other.
find_tile-router_of :
    (tiles : List BudgetTile) (id : TileId)
    → find_tile (router_of tiles).tiles id ≡ any_of (λ t. tile_id_equal t.id id) tiles
unfolding find_tile router_of
find_tile-router_of tiles id =
    ap (first_not_less_equals tile_id_less tile_id_equal id)
      (map-sort_by (λ t. t.id) tile_id_less tiles)
    ∙ search_sorted tile_id_less-LinearOrder id (map (λ t. t.id) tiles)
    ∙ any_of-map (λ t. t.id) (λ a. tile_id_equal a id) tiles

select-iota :
    (g : ℕ → Bool) (k n : ℕ)
    → length (select g (iota (suc k) n)) ≡ length (select (λ i. g (suc i)) (iota k n))
unfolding select iota
select-iota g k zero = refl
select-iota g k (suc n) = elim (Bool-cases (g (suc k))) [
  | inl e ↦ rw e (omega (arith, select-iota g (suc k) n))
  | inr e ↦ rw e (select-iota g (suc k) n)
]

-- A count over the indices is a count over the elements.
select-place_in :
    (f : Vec3d → Bool) (ps : List Vec3d)
    → length (select (λ i. f (place_in ps i)) (iota 0 (length ps))) ≡ length (select f ps)
unfolding select iota
select-place_in f [] = refl
select-place_in f (p ∷ ps) =
    let rest : length (select (λ i. f (place_in (p ∷ ps) i)) (iota 1 (length ps)))
        ≡ length (select f ps) =
      select-iota (λ i. f (place_in (p ∷ ps) i)) 0 (length ps) ∙ select-place_in f ps in
    elim (Bool-cases (f p)) [ inl e ↦ rw e (omega (arith, rest)) | inr e ↦ rw e rest ]

All-iota {κ} : (P : ℕ → Type κ) (k n : ℕ) → All (λ i. P (suc i)) (iota k n) → All P (iota (suc k) n)
unfolding iota
All-iota P k zero h = tt
All-iota P k (suc n) h = (h.0, All-iota P (suc k) n h.1)

All-place_in {κ} :
    (P : Vec3d → Type κ) (ps : List Vec3d)
    → All P ps
    → All (λ i. P (place_in ps i)) (iota 0 (length ps))
unfolding iota
All-place_in P [] h = tt
All-place_in P (p ∷ ps) h =
    (h.0, All-iota (λ i. P (place_in (p ∷ ps) i)) 0 (length ps) (All-place_in P ps h.1))

get_tile_id-walk :
    (mid : ℕ → ℕ → ℕ) (router : Router) (v : Vec3d)
    → router_is_valid router ≡ true
    → IsFlatPoint v
    → outside router.root v ≡ false
    → get_tile_id mid router v ≡ walk mid (find_tile router.tiles) v 32 0 0 0 router.root
unfolding get_tile_id
get_tile_id-walk mid router v valid flat inside = rw (valid, flat.0, flat.1, inside) refl

budget_config_depth :
    (c : PointBudgetConfig) → budget_config_is_valid c ≡ true → pos_part c.max_depth ≤ 31
unfolding budget_config_is_valid
budget_config_depth c h = ground arith

abbrev pub planned_leaves : (ℕ → ℕ → ℕ) → PointBudgetConfig → Vec3d → List Vec3d → List Leaf
planned_leaves mid config p ps =
    leaves mid (place_in (p ∷ ps)) config (suc (pos_part config.max_depth))
      (iota 0 (length (p ∷ ps))) 0 0 0 (make_bounds p ps)

All-walks :
    (mid : ℕ → ℕ → ℕ) (router : Router) (p : Vec3d) (ps : List Vec3d)
    → router_is_valid router ≡ true
    → All IsFlatPoint (p ∷ ps)
    → router.root ≡ make_bounds p ps
    → All
        (λ i.
          get_tile_id mid router (place_in (p ∷ ps) i)
          ≡ walk mid (find_tile router.tiles) (place_in (p ∷ ps) i) 32 0 0 0 (make_bounds p ps))
        (iota 0 (length (p ∷ ps)))
All-walks mid router p ps valid flat bounds =
    All-place_in
      (λ v.
        get_tile_id mid router v ≡ walk mid (find_tile router.tiles) v 32 0 0 0 (make_bounds p ps))
      (p ∷ ps)
      (All-map_of (p ∷ ps)
        (λ v h.
          get_tile_id-walk mid router v valid h.0 (ap (λ r. outside r v) bounds ∙ h.1)
          ∙ ap (walk mid (find_tile router.tiles) v 32 0 0 0) bounds)
        (All-both _ _ (p ∷ ps) flat (make_bounds-inside p ps flat)))

tiles-count :
    (mid : ℕ → ℕ → ℕ) (config : PointBudgetConfig) (p : Vec3d) (ps : List Vec3d)
    (tiles : List BudgetTile)
    → tiles ≡ map (λ l. l.tile) (planned_leaves mid config p ps)
    → pos_part config.max_depth ≤ 31
    → All IsFlatPoint (p ∷ ps)
    → router_is_valid (router_of tiles) ≡ true
    → (router_of tiles).root ≡ make_bounds p ps
    → All
        (λ t.
          length (select (λ v. tile_id_equal (get_tile_id mid (router_of tiles) v) t.id) (p ∷ ps))
          ≡ t.point_count)
        tiles
tiles-count mid config p ps tiles planned shallow flat valid bounds =
    let here = planned_leaves mid config p ps in
    let router = router_of tiles in
    let route : ℕ → TileId = λ i. get_tile_id mid router (place_in (p ∷ ps) i) in
    let walks = All-walks mid router p ps valid flat bounds in
    let finds : (t : TileId)
        → find_tile router.tiles t ≡ any_of (λ l. tile_id_equal l.tile.id t) here =
      λ t.
        find_tile-router_of tiles t
        ∙ ap (any_of (λ b. tile_id_equal b.id t)) planned
        ∙ any_of-map (λ l. l.tile) (λ b. tile_id_equal b.id t) here in
    let out =
      routed mid (place_in (p ∷ ps)) config (find_tile router.tiles) route
        (suc (pos_part config.max_depth)) (iota 0 (length (p ∷ ps))) 0 0 0 (make_bounds p ps) 32
        (λ t u. finds t) walks (omega arith) (omega arith) refl shallow in
    subst (All _) (sym planned) (
      All-map (λ l. l.tile) _ here
        (All-map_of here
          (λ l h.
            sym (select-place_in (λ v. tile_id_equal (get_tile_id mid router v) l.tile.id) (p ∷ ps))
            ∙ h)
          out.1))

finite-IsFlatPoint :
    (ps : List Vec3d)
    → All IsFlatPoint ps
    → any_of (λ v. not (is_finite v.x) || not (is_finite v.y)) ps ≡ false
finite-IsFlatPoint ps h = any_of_none _ ps (All-map_of ps (λ v f. rw (f.0, f.1) refl) h)

planned_tiles :
    (mid quotient : ℕ → ℕ → ℕ) (config : PointBudgetConfig) (p : Vec3d) (ps : List Vec3d)
    → budget_config_is_valid config ≡ true
    → All IsFlatPoint (p ∷ ps)
    → (build_point_budget_plan mid quotient config (p ∷ ps)).plan.tiles
      ≡ map (λ l. l.tile) (planned_leaves mid config p ps)
unfolding build_point_budget_plan plan_valid plan_points finish_plan
planned_tiles mid quotient config p ps valid flat =
    rw (valid, finite-IsFlatPoint (p ∷ ps) flat)
      (visit-tiles mid (place_in (p ∷ ps)) config (suc (pos_part config.max_depth))
        (iota 0 (length (p ∷ ps))) 0 0 0 (make_bounds p ps) (start_progress (length (p ∷ ps))))

-- Of a plan for finite positions under a valid configuration: when the router of its tiles is valid and
-- spans the bounds of the positions, then for each tile of the plan the number of positions that
-- `GetTileId` sends to that tile is the tile's count of points.
pub get_tile_id-point_count :
    (mid quotient : ℕ → ℕ → ℕ) (config : PointBudgetConfig) (p : Vec3d) (ps : List Vec3d)
    → budget_config_is_valid config ≡ true
    → All IsFlatPoint (p ∷ ps)
    → router_is_valid (router_of (build_point_budget_plan mid quotient config (p ∷ ps)).plan.tiles)
      ≡ true
    → (router_of (build_point_budget_plan mid quotient config (p ∷ ps)).plan.tiles).root
      ≡ make_bounds p ps
    → All
        (λ t.
          length (
            select
              (λ v.
                tile_id_equal
                  (get_tile_id mid
                    (router_of (build_point_budget_plan mid quotient config (p ∷ ps)).plan.tiles)
                    v)
                  t.id)
              (p ∷ ps))
          ≡ t.point_count)
        (build_point_budget_plan mid quotient config (p ∷ ps)).plan.tiles
get_tile_id-point_count mid quotient config p ps valid flat router bounds =
    tiles-count mid config p ps (build_point_budget_plan mid quotient config (p ∷ ps)).plan.tiles
      (planned_tiles mid quotient config p ps valid flat) (budget_config_depth config valid) flat
      router bounds
