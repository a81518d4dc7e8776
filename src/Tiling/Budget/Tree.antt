-- ===== src/Tiling/Budget/Tree.antt =====
-- The leaves of the quadtree as a plain recursion: each with the points that it holds. Nothing here is
-- code of the repository; the planner's tiles are these leaves, in their order.
use usd_pointcloud_plugins.Prelude.{
  ℕ, zero, suc, ◌+◌, ◌*◌, ◌≡◌, refl, sym, ◌&&◌, if◌then◌else◌, List, [], ◌∷◌, ◌++◌, append-nil,
  append_assoc, map, is_empty, length, Bool-cases, inl, inr,
}
use usd_pointcloud_plugins.Core.Bounds.{Vec3d}
use usd_pointcloud_plugins.Tiling.Ids.{tile_at}
use usd_pointcloud_plugins.Tiling.Config.{PointBudgetConfig}
use usd_pointcloud_plugins.Tiling.Budget.{
  Rect, BudgetTile, Progress, record_leaf, Quarter, south_west, south_east, north_west, north_east,
  east_bit, north_bit, quarter_rect, split_x, split_y, child, can_split, children_allow, descend,
  split, keep_whole, visit,
}

-- A leaf: the points that it holds, and its tile.
pub record Leaf : Type 0 where
  pub points : List ℕ
  pub tile : BudgetTile

pub map-append_leaves {ℓ κ} :
    {A : Type ℓ} {B : Type κ} (f : A → B) (xs ys : List A) → map f (xs ++ ys) ≡ map f xs ++ map f ys
map-append_leaves f [] ys = refl
map-append_leaves f (x ∷ xs) ys = rw (map-append_leaves f xs ys) refl

module _ (mid : ℕ → ℕ → ℕ) (place : ℕ → Vec3d) (config : PointBudgetConfig) where
  abbrev pub Grow : Type 0
  Grow = List ℕ → ℕ → ℕ → ℕ → Rect → List Leaf

  unfoldable pub branch : Grow → Quarter → Grow
  branch go q indices depth x y r =
      if is_empty (child mid place config q r indices)
      then []
      else go (child mid place config q r indices) (suc depth) (x * 2 + east_bit q)
          (y * 2 + north_bit q)
          (quarter_rect q (split_x mid place config r) (split_y mid place config r) r)

  unfoldable pub four : Grow → Grow
  four go indices depth x y r =
      branch go south_west indices depth x y r
      ++ (branch go south_east indices depth x y r
          ++ (branch go north_west indices depth x y r ++ branch go north_east indices depth x y r))

  abbrev pub leaf : Grow
  leaf indices depth x y r =
      record {
        points = indices;
        tile = record { id = tile_at depth x y; rect = r; point_count = length indices };
      }
      ∷ []

  unfoldable pub leaves : ℕ → Grow
  leaves zero indices depth x y r = []
  leaves (suc fuel) indices depth x y r =
      let go = leaves fuel in
      if can_split mid place config indices depth r && children_allow mid place config indices r
      then four go indices depth x y r
      else leaf indices depth x y r

  -- A visit adds the tiles of its leaves.
  abbrev pub Adds : ℕ → Type 0
  Adds fuel =
      (indices : List ℕ) (depth x y : ℕ) (r : Rect) (s : Progress)
      → (visit mid place config fuel indices depth x y r s).plan.tiles
        ≡ s.plan.tiles ++ map (λ l. l.tile) (leaves fuel indices depth x y r)

  descend-tiles :
      (fuel : ℕ) (ih : Adds fuel) (q : Quarter) (indices : List ℕ) (depth x y : ℕ) (r : Rect)
      (s : Progress)
      → (descend mid place config (visit mid place config fuel) q indices depth x y r s).plan.tiles
        ≡ s.plan.tiles ++ map (λ l. l.tile) (branch (leaves fuel) q indices depth x y r)
  unfolding descend branch
  descend-tiles fuel ih q indices depth x y r s =
      elim (Bool-cases (is_empty (child mid place config q r indices))) [
        | inl none_here ↦ rw none_here (sym (append-nil s.plan.tiles))
        | inr some_here ↦ rw some_here (
            ih (child mid place config q r indices) (suc depth) (x * 2 + east_bit q)
              (y * 2 + north_bit q)
              (quarter_rect q (split_x mid place config r) (split_y mid place config r) r) s)
      ]

  split-tiles :
      (fuel : ℕ) (ih : Adds fuel) (indices : List ℕ) (depth x y : ℕ) (r : Rect) (s : Progress)
      → (split mid place config (visit mid place config fuel) indices depth x y r s).plan.tiles
        ≡ s.plan.tiles ++ map (λ l. l.tile) (four (leaves fuel) indices depth x y r)
  unfolding split four
  split-tiles fuel ih indices depth x y r s =
      simp (descend-tiles fuel ih, map-append_leaves, append_assoc)

  pub visit-tiles : (fuel : ℕ) → Adds fuel
  unfolding visit leaves keep_whole record_leaf
  visit-tiles zero indices depth x y r s = sym (append-nil s.plan.tiles)
  visit-tiles (suc fuel) indices depth x y r s =
      elim (Bool-cases (can_split mid place config indices depth r)) [
        | inr small ↦ rw small refl
        | inl large ↦ elim (Bool-cases (children_allow mid place config indices r)) [
          | inr useless ↦ rw (large, useless) refl
          | inl useful ↦
              rw (large, useful) (split-tiles fuel (visit-tiles fuel) indices depth x y r _)
        ]
      ]
