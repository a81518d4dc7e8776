-- ===== src/Tiling/Router/Quarters.antt =====
-- The leaves below the quarters of a node: their identities tell the quarters apart.
use usd_pointcloud_plugins.Prelude.{
  ℕ, zero, suc, ◌+◌, ◌*◌, ◌≡◌, refl, ap, ◌∙◌, Bool, false, ◌||◌, ◌&&◌, Bool-cases, inl, inr, List,
  ◌++◌, is_empty, any_of, All, All-append, All-map_of, arith,
}
use usd_pointcloud_plugins.Core.Bounds.{Vec3d}
use usd_pointcloud_plugins.Core.TileId.{TileId}
use usd_pointcloud_plugins.Tiling.Ids.{tile_id_equal, tile_at}
use usd_pointcloud_plugins.Tiling.Config.{PointBudgetConfig}
use usd_pointcloud_plugins.Tiling.Budget.{
  Rect, Quarter, south_west, south_east, north_west, north_east, east_bit, north_bit, same_quarter,
  child, can_split, children_allow,
}
use usd_pointcloud_plugins.Tiling.Budget.Tree.{Leaf, branch, four, leaves}
use usd_pointcloud_plugins.Tiling.Router.Under.{Under, Under-self, Under-child, Under-equal}
use usd_pointcloud_plugins.Tiling.Budget.Parts.{any_of_none, any_of-append}

-- The node of a quarter.
abbrev pub UnderQuarter : Quarter → ℕ → ℕ → ℕ → TileId → Type 0
UnderQuarter q depth x y t = Under (suc depth) (x * 2 + east_bit q) (y * 2 + north_bit q) t

-- Two quarters of a node have no identity in common.
pub UnderQuarter-apart :
    (p q : Quarter) (depth x y : ℕ) (t u : TileId)
    → same_quarter p q ≡ false
    → UnderQuarter p depth x y t
    → UnderQuarter q depth x y u
    → tile_id_equal t u ≡ false
UnderQuarter-apart p q depth x y t u other ut uu = elim (Bool-cases (tile_id_equal t u)) [
  | inr e ↦ e
  | inl e ↦
      (let same =
          Under-equal (suc depth) (x * 2 + east_bit p) (y * 2 + north_bit p) (x * 2 + east_bit q)
            (y * 2 + north_bit q) t u ut uu e in
        ground (arith, same.0, same.1))
]

-- A node's own identity is not below one of its quarters.
pub UnderQuarter-deeper :
    (q : Quarter) (depth x y : ℕ) (t : TileId)
    → UnderQuarter q depth x y t
    → tile_id_equal t (tile_at depth x y) ≡ false
unfolding tile_id_equal
UnderQuarter-deeper q depth x y t u =
    ap (λ v. tile_id_equal v (tile_at depth x y)) u.is_tile ∙ ground arith

module _ (mid : ℕ → ℕ → ℕ) (place : ℕ → Vec3d) (config : PointBudgetConfig) where
  abbrev pub LeafUnder : ℕ → ℕ → ℕ → Leaf → Type 0
  LeafUnder depth x y l = Under depth x y l.tile.id

  abbrev pub AllUnder : ℕ → Type 0
  AllUnder fuel =
      (indices : List ℕ) (depth x y : ℕ) (r : Rect)
      → All (LeafUnder depth x y) (leaves mid place config fuel indices depth x y r)

  pub branch-UnderQuarter :
      (fuel : ℕ)
      → AllUnder fuel
      → (q : Quarter) (indices : List ℕ) (depth x y : ℕ) (r : Rect)
      → All
          (λ l. UnderQuarter q depth x y l.tile.id)
          (branch mid place config (leaves mid place config fuel) q indices depth x y r)
  unfolding branch
  branch-UnderQuarter fuel ih q indices depth x y r =
      elim (Bool-cases (is_empty (child mid place config q r indices))) [
        | inl e ↦ rw e tt
        | inr e ↦ rw e (
            ih (child mid place config q r indices) (suc depth) (x * 2 + east_bit q)
              (y * 2 + north_bit q) _)
      ]

  pub four-All :
      (P : Leaf → Type 0) (fuel : ℕ) (indices : List ℕ) (depth x y : ℕ) (r : Rect)
      → ((q : Quarter)
          → All P (branch mid place config (leaves mid place config fuel) q indices depth x y r))
      → All P (four mid place config (leaves mid place config fuel) indices depth x y r)
  unfolding four
  four-All P fuel indices depth x y r h =
      All-append P _ _ (h south_west)
        (All-append P _ _ (h south_east) (All-append P _ _ (h north_west) (h north_east)))

  pub leaves-Under : (fuel : ℕ) → AllUnder fuel
  unfolding leaves
  leaves-Under zero indices depth x y r = tt
  leaves-Under (suc fuel) indices depth x y r =
      elim (Bool-cases
        (can_split mid place config indices depth r && children_allow mid place config indices r)) [
          | inl e ↦ rw e (
              four-All _ fuel indices depth x y r (λ q.
                All-map_of _ (λ l. Under-child q depth x y l.tile.id)
                  (branch-UnderQuarter fuel (leaves-Under fuel) q indices depth x y r)))
          | inr e ↦ rw e (Under-self depth x y, tt)
        ]

  -- The leaves with an identity below a quarter are the leaves of that quarter.
  pub four-any_of :
      (fuel : ℕ) (q : Quarter) (indices : List ℕ) (depth x y : ℕ) (r : Rect) (t : TileId)
      → UnderQuarter q depth x y t
      → any_of
          (λ l. tile_id_equal l.tile.id t)
          (four mid place config (leaves mid place config fuel) indices depth x y r)
        ≡ any_of
            (λ l. tile_id_equal l.tile.id t)
            (branch mid place config (leaves mid place config fuel) q indices depth x y r)
  unfolding four
  four-any_of fuel q indices depth x y r t u = go q u
    where
      test : Leaf → Bool
      test l = tile_id_equal l.tile.id t

      arm : Quarter → List Leaf
      arm p = branch mid place config (leaves mid place config fuel) p indices depth x y r

      none_of :
          (p q : Quarter)
          → UnderQuarter q depth x y t
          → same_quarter p q ≡ false
          → any_of test (arm p) ≡ false
      none_of p q v other = any_of_none test (arm p) (
          All-map_of (arm p) (λ l w. UnderQuarter-apart p q depth x y l.tile.id t other w v)
            (branch-UnderQuarter fuel (leaves-Under fuel) p indices depth x y r))

      parts :
          any_of test (arm south_west ++ (arm south_east ++ (arm north_west ++ arm north_east))) ≡ (
            any_of test (arm south_west)
            || (any_of test (arm south_east)
                || (any_of test (arm north_west) || any_of test (arm north_east))))
      parts = simp any_of-append

      go :
          (q : Quarter)
          → UnderQuarter q depth x y t
          → any_of test (arm south_west ++ (arm south_east ++ (arm north_west ++ arm north_east)))
            ≡ any_of test (arm q)
      go south_west v =
          parts
          ∙ ground (
            arith,
            none_of south_east south_west v refl,
            none_of north_west south_west v refl,
            none_of north_east south_west v refl,
          )
      go south_east v =
          parts
          ∙ ground (
            arith,
            none_of south_west south_east v refl,
            none_of north_west south_east v refl,
            none_of north_east south_east v refl,
          )
      go north_west v =
          parts
          ∙ ground (
            arith,
            none_of south_west north_west v refl,
            none_of south_east north_west v refl,
            none_of north_east north_west v refl,
          )
      go north_east v =
          parts
          ∙ ground (
            arith,
            none_of south_west north_east v refl,
            none_of south_east north_east v refl,
            none_of north_west north_east v refl,
          )
