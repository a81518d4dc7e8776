-- ===== src/Tiling/Budget/Shares.antt =====
-- The leaves of the quadtree share out the points: their counts add up to the number of points.
use usd_pointcloud_plugins.Prelude.{
  ℕ, zero, suc, ◌+◌, ◌*◌, ◌≤◌, ◌≡◌, refl, sym, ap, ◌∙◌, true, ◌&&◌, List, [], ◌∷◌, ◌++◌, map,
  is_empty, length, sum, sum-append, All, Bool-cases, inl, inr, and_true, arith,
}
use usd_pointcloud_plugins.Prelude.Int.{pos_part}
use usd_pointcloud_plugins.Core.Bounds.{Vec3d}
use usd_pointcloud_plugins.Tiling.Config.{PointBudgetConfig}
use usd_pointcloud_plugins.Tiling.Budget.{
  Rect, Quarter, south_west, south_east, north_west, north_east, east_bit, north_bit, quarter_of,
  split_x, split_y, select, child, can_split, children_allow,
}
use usd_pointcloud_plugins.Tiling.Budget.Tree.{Leaf, branch, four, leaves, map-append_leaves}
use usd_pointcloud_plugins.Tiling.Budget.Parts.{length-parts, select-All}

All-true {ℓ} : {A : Type ℓ} (l : List A) → All (λ a. true ≡ true) l
All-true [] = tt
All-true (a ∷ l) = (refl, All-true l)

select-true {ℓ} : {A : Type ℓ} (l : List A) → length (select (λ a. true) l) ≡ length l
select-true l = select-All (λ a. true) l (All-true l)

length_empty {ℓ} : {A : Type ℓ} (l : List A) → is_empty l ≡ true → length l ≡ 0
length_empty [] e = refl
length_empty (a ∷ l) e = ground arith

abbrev pub shares : List Leaf → ℕ
shares l = sum (map (λ l. l.tile.point_count) l)

shares-append : (a b : List Leaf) → shares (a ++ b) ≡ shares a + shares b
shares-append a b =
    ap sum (map-append_leaves (λ l. l.tile.point_count) a b)
    ∙ sum-append (map (λ l. l.tile.point_count) a) (map (λ l. l.tile.point_count) b)

module _ (mid : ℕ → ℕ → ℕ) (place : ℕ → Vec3d) (config : PointBudgetConfig) where
  length-child :
      (indices : List ℕ) (r : Rect)
      → length indices
        ≡ length (child mid place config south_west r indices)
          + length (child mid place config south_east r indices)
          + length (child mid place config north_west r indices)
          + length (child mid place config north_east r indices)
  unfolding child
  length-child indices r =
      let h =
        length-parts
          (λ i. quarter_of (split_x mid place config r) (split_y mid place config r) (place i))
          (λ i. true) indices in
      simp select-true at h

  abbrev Shared : ℕ → Type 0
  Shared fuel =
      (indices : List ℕ) (depth x y : ℕ) (r : Rect)
      → depth + fuel ≡ suc (pos_part config.max_depth)
      → depth ≤ pos_part config.max_depth
      → shares (leaves mid place config fuel indices depth x y r) ≡ length indices

  shares-branch :
      (fuel : ℕ) (ih : Shared fuel) (q : Quarter) (indices : List ℕ) (depth x y : ℕ) (r : Rect)
      → suc depth + fuel ≡ suc (pos_part config.max_depth)
      → suc depth ≤ pos_part config.max_depth
      → shares (branch mid place config (leaves mid place config fuel) q indices depth x y r)
        ≡ length (child mid place config q r indices)
  unfolding branch
  shares-branch fuel ih q indices depth x y r a b =
      elim (Bool-cases (is_empty (child mid place config q r indices))) [
        | inl e ↦ rw e (sym (length_empty _ e))
        | inr e ↦ rw e (
            ih (child mid place config q r indices) (suc depth) (x * 2 + east_bit q)
              (y * 2 + north_bit q) _ a b)
      ]

  shares-four :
      (fuel : ℕ) (ih : Shared fuel) (indices : List ℕ) (depth x y : ℕ) (r : Rect)
      → suc depth + fuel ≡ suc (pos_part config.max_depth)
      → suc depth ≤ pos_part config.max_depth
      → shares (four mid place config (leaves mid place config fuel) indices depth x y r)
        ≡ length indices
  unfolding four
  shares-four fuel ih indices depth x y r a b =
      let share = λ (q : Quarter). shares-branch fuel ih q indices depth x y r a b in
      let arm = λ (q : Quarter).
        branch mid place config (leaves mid place config fuel) q indices depth x y r in
      omega (
        arith,
        shares-append (arm south_west) (arm south_east ++ (arm north_west ++ arm north_east)),
        shares-append (arm south_east) (arm north_west ++ arm north_east),
        shares-append (arm north_west) (arm north_east),
        share south_west,
        share south_east,
        share north_west,
        share north_east,
        length-child indices r,
      )

  -- Fuel of one more than the levels left gives every point to a leaf.
  pub shares-leaves : (fuel : ℕ) → Shared fuel
  unfolding leaves can_split
  shares-leaves zero indices depth x y r a b = ground arith
  shares-leaves (suc fuel) indices depth x y r a b =
      elim (Bool-cases
        (can_split mid place config indices depth r && children_allow mid place config indices r)) [
          | inr e ↦ rw e (omega arith)
          | inl e ↦
              (let h =
                  (and_true (can_split mid place config indices depth r)
                    (children_allow mid place config indices r) e).0 in
                rw e (
                  shares-four fuel (shares-leaves fuel) indices depth x y r (omega arith)
                    (ground arith)))
        ]
