-- ===== src/Tiling/Router/Routes.antt =====
-- The routes to the leaves of a planned quadtree: a walk from a node through the planned tiles ends at
-- the leaf that holds the point.
use usd_pointcloud_plugins.Prelude.{
  ℕ, zero, suc, ◌+◌, ◌*◌, ◌≤◌, ◌≡◌, refl, sym, ap, ◌∙◌, Bool, true, false, ◌&&◌, leb, Bool-cases,
  inl, inr, List, length, is_empty, any_of, subst, and_true, All, All-map_of, arith,
}
use usd_pointcloud_plugins.Core.Bounds.{Vec3d}
use usd_pointcloud_plugins.Core.TileId.{TileId}
use usd_pointcloud_plugins.Prelude.Int.{pos_part}
use usd_pointcloud_plugins.Tiling.Ids.{tile_id_equal, tile_at}
use usd_pointcloud_plugins.Tiling.Config.{PointBudgetConfig, max_point_budget_depth}
use usd_pointcloud_plugins.Tiling.Budget.{
  Rect, Quarter, south_west, south_east, north_west, north_east, east_bit, north_bit, same_quarter,
  quarter_of, quarter_rect, child, can_split, children_allow, select, flat,
}
use usd_pointcloud_plugins.Tiling.Budget.Tree.{Leaf, branch, four, leaf, leaves}
use usd_pointcloud_plugins.Tiling.Router.{walk}
use usd_pointcloud_plugins.Tiling.Router.Under.{Under, Under-self, Under-child}
use usd_pointcloud_plugins.Tiling.Budget.Parts.{
  All-select, select_none, select-All, any_of_none, All-both, All-empty, length-parts, All-parts,
  same_quarter→eq,
}
use usd_pointcloud_plugins.Tiling.Router.Quarters.{
  UnderQuarter, UnderQuarter-apart, UnderQuarter-deeper, branch-UnderQuarter, four-All,
  leaves-Under, four-any_of,
}

module _ (mid : ℕ → ℕ → ℕ) (place : ℕ → Vec3d) (config : PointBudgetConfig) where
  module _ (found : TileId → Bool) (route : ℕ → TileId) where
    -- The search knows the leaves below the node.
    abbrev pub Finds : List Leaf → ℕ → ℕ → ℕ → Type 0
    Finds here depth x y =
        (t : TileId) → Under depth x y t → found t ≡ any_of (λ l. tile_id_equal l.tile.id t) here

    abbrev pub Walks : List ℕ → ℕ → ℕ → ℕ → ℕ → Rect → Type 0
    Walks indices wfuel depth x y r =
        All (λ i. route i ≡ walk mid found (place i) wfuel depth x y r) indices

    -- The routes stay below the node, and a leaf is the end of as many as it holds points.
    abbrev pub Arrives : List ℕ → List Leaf → ℕ → ℕ → ℕ → Type 0
    Arrives indices here depth x y =
        All (λ i. Under depth x y (route i)) indices
        × All
            (λ l.
              length (select (λ i. tile_id_equal (route i) l.tile.id) indices) ≡ l.tile.point_count)
            here

    abbrev pub Routed : ℕ → Type 0
    Routed fuel =
        (indices : List ℕ) (depth x y : ℕ) (r : Rect) (wfuel : ℕ)
        → Finds (leaves mid place config fuel indices depth x y r) depth x y
        → Walks indices wfuel depth x y r
        → depth + fuel ≡ suc (pos_part config.max_depth)
        → depth ≤ pos_part config.max_depth
        → depth + wfuel ≡ 32
        → pos_part config.max_depth ≤ 31
        → Arrives indices (leaves mid place config fuel indices depth x y r) depth x y

    walk_step :
        (q : Quarter) (p : Vec3d) (w depth x y : ℕ) (r : Rect)
        → found (tile_at depth x y) ≡ false
        → leb max_point_budget_depth depth ≡ false
        → flat r ≡ false
        → same_quarter (quarter_of (mid r.min_x r.max_x) (mid r.min_y r.max_y) p) q ≡ true
        → walk mid found p (suc w) depth x y r
          ≡ walk mid found p w
              (suc depth)
              (x * 2 + east_bit q)
              (y * 2 + north_bit q)
              (quarter_rect q (mid r.min_x r.max_x) (mid r.min_y r.max_y) r)
    unfolding walk
    walk_step q p w depth x y r missed shallow wide here =
        let k = same_quarter→eq _ q here in
        rw (missed, shallow, wide)
          (ap
            (λ q.
              walk mid found p w (suc depth) (x * 2 + east_bit q) (y * 2 + north_bit q)
                (quarter_rect q (mid r.min_x r.max_x) (mid r.min_y r.max_y) r))
            k)

    leaf-Arrives :
        (indices : List ℕ) (depth x y : ℕ) (r : Rect) (w : ℕ)
        → Finds (leaf mid place config indices depth x y r) depth x y
        → Walks indices (suc w) depth x y r
        → Arrives indices (leaf mid place config indices depth x y r) depth x y
    unfolding walk tile_id_equal
    leaf-Arrives indices depth x y r w finds walks =
        let known : found (tile_at depth x y) ≡ true =
          finds (tile_at depth x y) (Under-self depth x y) ∙ ground arith in
        let ends : All (λ i. route i ≡ tile_at depth x y) indices =
          All-map_of indices (λ i h. h ∙ rw known refl) walks in
        (
          All-map_of indices (λ i h. subst (Under depth x y) (sym h) (Under-self depth x y)) ends,
          (
            select-All _ indices (
                All-map_of indices
                  (λ i h. ap (λ t. tile_id_equal t (tile_at depth x y)) h ∙ ground arith) ends),
            tt,
          ),
        )

    abbrev kid : Quarter → List ℕ → Rect → List ℕ
    kid q indices r = child mid place config q r indices

    abbrev counted : List ℕ → Leaf → ℕ
    counted indices l = length (select (λ i. tile_id_equal (route i) l.tile.id) indices)

    abbrev QuarterArrives : ℕ → Quarter → List ℕ → ℕ → ℕ → ℕ → Rect → Type 0
    QuarterArrives fuel q indices depth x y r =
        All (λ i. UnderQuarter q depth x y (route i)) (kid q indices r)
        × All (λ l. counted (kid q indices r) l ≡ l.tile.point_count)
            (branch mid place config (leaves mid place config fuel) q indices depth x y r)

    -- The walks of a node's points go on below the quarter of the point.
    kid-Walks :
        (q : Quarter) (indices : List ℕ) (w depth x y : ℕ) (r : Rect)
        → found (tile_at depth x y) ≡ false
        → leb max_point_budget_depth depth ≡ false
        → flat r ≡ false
        → Walks indices (suc w) depth x y r
        → Walks
            (kid q indices r)
            w
            (suc depth)
            (x * 2 + east_bit q)
            (y * 2 + north_bit q)
            (quarter_rect q (mid r.min_x r.max_x) (mid r.min_y r.max_y) r)
    unfolding child
    kid-Walks q indices w depth x y r missed shallow wide walks =
        All-map_of (kid q indices r)
          (λ i h. h.0 ∙ walk_step q (place i) w depth x y r missed shallow wide h.1)
          (All-select _ _ indices walks)

    quarter-Arrives :
        (fuel : ℕ) (ih : Routed fuel) (q : Quarter) (indices : List ℕ) (depth x y : ℕ) (r : Rect)
        (w : ℕ)
        → Finds (four mid place config (leaves mid place config fuel) indices depth x y r) depth x y
        → Walks
            (kid q indices r)
            w
            (suc depth)
            (x * 2 + east_bit q)
            (y * 2 + north_bit q)
            (quarter_rect q (mid r.min_x r.max_x) (mid r.min_y r.max_y) r)
        → suc depth + fuel ≡ suc (pos_part config.max_depth)
        → suc depth ≤ pos_part config.max_depth
        → suc depth + w ≡ 32
        → pos_part config.max_depth ≤ 31
        → QuarterArrives fuel q indices depth x y r
    unfolding branch
    quarter-Arrives fuel ih q indices depth x y r w finds walks a b c d =
        elim (Bool-cases (is_empty (kid q indices r))) [
          | inl e ↦ (All-empty _ _ e, rw e tt)
          | inr e ↦
              (let below : Finds
                    (leaves mid place config fuel (kid q indices r) (suc depth) (x * 2 + east_bit q)
                      (y * 2 + north_bit q)
                      (quarter_rect q (mid r.min_x r.max_x) (mid r.min_y r.max_y) r))
                    (suc depth) (x * 2 + east_bit q) (y * 2 + north_bit q) =
                  λ t u.
                    finds t (Under-child q depth x y t u)
                    ∙ four-any_of mid place config fuel q indices depth x y r t u
                    ∙ rw e refl in
                let out =
                  ih (kid q indices r) (suc depth) (x * 2 + east_bit q) (y * 2 + north_bit q)
                    (quarter_rect q (mid r.min_x r.max_x) (mid r.min_y r.max_y) r) w below walks a b
                    c d in
                (out.0, rw e out.1))
        ]

    -- The counts of the four quarters, for a leaf of one of them.
    counted_quarter :
        (fuel : ℕ) (indices : List ℕ) (depth x y : ℕ) (r : Rect) (q : Quarter) (l : Leaf)
        → ((p : Quarter) → All (λ i. UnderQuarter p depth x y (route i)) (kid p indices r))
        → UnderQuarter q depth x y l.tile.id
        → counted indices l ≡ counted (kid q indices r) l
    unfolding child
    counted_quarter fuel indices depth x y r q l stay lu = go q lu
      where
        total :
            counted indices l
            ≡ counted (kid south_west indices r) l
              + counted (kid south_east indices r) l
              + counted (kid north_west indices r) l
              + counted (kid north_east indices r) l
        total =
            length-parts (λ i. quarter_of (mid r.min_x r.max_x) (mid r.min_y r.max_y) (place i)) _
              indices

        none_of :
            (p q : Quarter)
            → UnderQuarter q depth x y l.tile.id
            → same_quarter p q ≡ false
            → counted (kid p indices r) l ≡ 0
        none_of p q v other = select_none _ (kid p indices r) (
            All-map_of (kid p indices r)
              (λ i u. UnderQuarter-apart p q depth x y (route i) l.tile.id other u v) (stay p))

        go :
            (q : Quarter)
            → UnderQuarter q depth x y l.tile.id
            → counted indices l ≡ counted (kid q indices r) l
        go south_west v = omega (
          arith,
          total,
          none_of south_east south_west v refl,
          none_of north_west south_west v refl,
          none_of north_east south_west v refl,
        )
        go south_east v = omega (
          arith,
          total,
          none_of south_west south_east v refl,
          none_of north_west south_east v refl,
          none_of north_east south_east v refl,
        )
        go north_west v = omega (
          arith,
          total,
          none_of south_west north_west v refl,
          none_of south_east north_west v refl,
          none_of north_east north_west v refl,
        )
        go north_east v = omega (
          arith,
          total,
          none_of south_west north_east v refl,
          none_of south_east north_east v refl,
          none_of north_west north_east v refl,
        )

    split-Arrives :
        (fuel : ℕ) (indices : List ℕ) (depth x y : ℕ) (r : Rect)
        → ((q : Quarter) → QuarterArrives fuel q indices depth x y r)
        → Arrives indices
            (four mid place config (leaves mid place config fuel) indices depth x y r)
            depth
            x
            y
    unfolding child
    split-Arrives fuel indices depth x y r quarters =
        let key : ℕ → Quarter =
          λ i. quarter_of (mid r.min_x r.max_x) (mid r.min_y r.max_y) (place i) in
        (
          All-parts key _ indices (λ q.
              All-map_of (kid q indices r) (λ i. Under-child q depth x y (route i)) (quarters q).0),
          four-All mid place config _ fuel indices depth x y r (λ q.
              All-map_of
                (branch mid place config (leaves mid place config fuel) q indices depth x y r)
                (λ l h.
                  counted_quarter fuel indices depth x y r q l (λ p. (quarters p).0) h.0 ∙ h.1)
                (All-both _ _ _
                  (branch-UnderQuarter mid place config fuel (leaves-Under mid place config fuel) q
                    indices depth x y r)
                  (quarters q).1)),
        )

    -- No leaf below a node that splits has the identity of the node.
    missed_at_split :
        (fuel : ℕ) (indices : List ℕ) (depth x y : ℕ) (r : Rect)
        → Finds (four mid place config (leaves mid place config fuel) indices depth x y r) depth x y
        → found (tile_at depth x y) ≡ false
    missed_at_split fuel indices depth x y r finds =
        finds (tile_at depth x y) (Under-self depth x y)
        ∙ any_of_none _ _ (
            four-All mid place config _ fuel indices depth x y r (λ q.
              All-map_of
                (branch mid place config (leaves mid place config fuel) q indices depth x y r)
                (λ l. UnderQuarter-deeper q depth x y l.tile.id)
                (branch-UnderQuarter mid place config fuel (leaves-Under mid place config fuel) q
                  indices depth x y r)))

    split_allowed :
        (indices : List ℕ) (depth : ℕ) (r : Rect)
        → can_split mid place config indices depth r ≡ true
        → (suc depth ≤ pos_part config.max_depth) × (flat r ≡ false)
    unfolding can_split
    split_allowed indices depth r h = (ground arith, ground arith)

    pub routed : (fuel : ℕ) → Routed fuel
    unfolding leaves
    routed zero indices depth x y r wfuel finds walks a b c d = ground arith
    routed (suc fuel) indices depth x y r zero finds walks a b c d = ground arith
    routed (suc fuel) indices depth x y r (suc w) finds walks a b c d =
        elim (Bool-cases (
          can_split mid place config indices depth r
          && children_allow mid place config indices r)) [
            | inr e ↦ (let f = rw e at finds in rw e (leaf-Arrives indices depth x y r w f walks))
            | inl e ↦
                (let f = rw e at finds in
                  let allowed = split_allowed indices depth r (and_true _ _ e).0 in
                  let missed = missed_at_split fuel indices depth x y r f in
                  let shallow : leb max_point_budget_depth depth ≡ false = ground arith in
                  rw e (
                    split-Arrives fuel indices depth x y r (λ q.
                      quarter-Arrives fuel (routed fuel) q indices depth x y r w f
                        (kid-Walks q indices w depth x y r missed shallow allowed.1 walks)
                        (omega arith) allowed.0 (omega arith) d)))
          ]
