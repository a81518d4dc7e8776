-- ===== src/Tiling/Budget/Kept.antt =====
-- What every step of the planner keeps, the whole visit keeps.
use usd_pointcloud_plugins.Prelude.{
  ℕ, zero, suc, ◌+◌, ◌*◌, ◌≤◌, max, ◌≡◌, Bool, true, false, List, is_empty, length, Bool-cases, inl,
  inr, arith,
}
use usd_pointcloud_plugins.Core.Bounds.{Vec3d}
use usd_pointcloud_plugins.Tiling.Config.{PointBudgetConfig}
use usd_pointcloud_plugins.Tiling.Budget.{
  Rect, Progress, Quarter, south_west, south_east, north_west, north_east, east_bit, north_bit,
  child, can_split, children_allow, descend, split, keep_whole, visit,
}

module _ (mid : ℕ → ℕ → ℕ) (place : ℕ → Vec3d) (config : PointBudgetConfig) where
  pub record Kept (P : Progress → Type 0) : Type 0 where
    pub deeper :
        (s : Progress) (depth : ℕ)
        → P s
        → P (record s { plan = record s.plan { depth = max s.plan.depth depth } })
    pub split_once :
        (s : Progress)
        → P s
        → P (record s { plan = record s.plan { split_count = s.plan.split_count + 1 } })
    pub recorded :
        (indices : List ℕ) (depth x y : ℕ) (r : Rect) (fine : Bool) (s : Progress)
        → is_empty indices ≡ false
        → (fine ≡ true → length indices ≤ config.max_points_per_tile)
        → P s
        → P (keep_whole mid place config indices depth x y r fine s)

  module _ {P : Progress → Type 0} (k : Kept P) where
    abbrev KeptBy : ℕ → Type 0
    KeptBy fuel =
        (indices : List ℕ) (depth x y : ℕ) (r : Rect) (s : Progress)
        → is_empty indices ≡ false
        → P s
        → P (visit mid place config fuel indices depth x y r s)

    descend-kept :
        (fuel : ℕ) (ih : KeptBy fuel) (q : Quarter) (indices : List ℕ) (depth x y : ℕ) (r : Rect)
        (s : Progress)
        → P s
        → P (descend mid place config (visit mid place config fuel) q indices depth x y r s)
    unfolding descend
    descend-kept fuel ih q indices depth x y r s h =
        elim (Bool-cases (is_empty (child mid place config q r indices))) [
          | inl e ↦ rw e h
          | inr e ↦ rw e (
              ih (child mid place config q r indices) (suc depth) (x * 2 + east_bit q)
                (y * 2 + north_bit q) _ s e h)
        ]

    split-kept :
        (fuel : ℕ) (ih : KeptBy fuel) (indices : List ℕ) (depth x y : ℕ) (r : Rect) (s : Progress)
        → P s
        → P (split mid place config (visit mid place config fuel) indices depth x y r s)
    unfolding split
    split-kept fuel ih indices depth x y r s h =
        let go = descend-kept fuel ih in
        go north_east indices depth x y r _ (
          go north_west indices depth x y r _ (
            go south_east indices depth x y r _
              (go south_west indices depth x y r _ (k.split_once s h))))

    pub visit-kept : (fuel : ℕ) → KeptBy fuel
    unfolding visit
    visit-kept zero indices depth x y r s some h = h
    visit-kept (suc fuel) indices depth x y r s some h =
        elim (Bool-cases (can_split mid place config indices depth r)) [
          | inr small ↦
              rw small
                (k.recorded indices depth x y r _ _ some (λ e. ground arith) (k.deeper s depth h))
          | inl large ↦ elim (Bool-cases (children_allow mid place config indices r)) [
            | inr useless ↦
                rw (large, useless)
                  (k.recorded indices depth x y r false _ some (λ e. ground arith)
                    (k.deeper s depth h))
            | inl useful ↦
                rw (large, useful)
                  (split-kept fuel (visit-kept fuel) indices depth x y r _ (k.deeper s depth h))
          ]
        ]
