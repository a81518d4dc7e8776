-- ===== src/Tiling/Plan/Distinct.antt =====
-- What `ValidateTilePlan` settles of the identities: no two nodes share one, and no child comes twice.
use usd_pointcloud_plugins.Prelude.{
  ◌≡◌, refl, ap, ◌∙◌, subst, Bool, true, false, not, ◌&&◌, ◌||◌, List, [], ◌∷◌, ◌++◌, any_of, All,
  none, arith,
}
use usd_pointcloud_plugins.Core.TileId.{TileId}
use usd_pointcloud_plugins.Tiling.Ids.{tile_id_equal}
use usd_pointcloud_plugins.Tiling.Plan.{TilePlanNode}
use usd_pointcloud_plugins.Tiling.Plan.Validate.{node_refusal, nodes_refusal, children_refusal}
use usd_pointcloud_plugins.Tiling.Plan.Rounds.{refuse_if-none, or_then-none}

unfoldable pub ids_differ : List TileId → Bool
ids_differ [] = true
ids_differ (i ∷ is) = not (any_of (λ j. tile_id_equal i j) is) && ids_differ is

unfoldable pub node_ids : List TilePlanNode → List TileId
node_ids [] = []
node_ids (n ∷ ns) = n.id ∷ node_ids ns

abbrev New : List TileId → TileId → Type 0
New before c = any_of (λ b. tile_id_equal b c) before ≡ false

New-last :
    (before : List TileId) (a c : TileId)
    → New (before ++ a ∷ []) c
    → New before c × (tile_id_equal a c ≡ false)
New-last [] a c h = (refl, ground arith)
New-last (b ∷ before) a c h = let (u, v) = New-last before a c (ground arith) in (ground arith, v)

New-All :
    (before : List TileId) (a : TileId) (cs : List TileId)
    → All (New (before ++ a ∷ [])) cs
    → All (New before) cs × (any_of (λ c. tile_id_equal a c) cs ≡ false)
New-All before a [] h = (tt, refl)
New-All before a (c ∷ cs) (h, hs) =
    let (u, v) = New-last before a c h in
    let (us, w) = New-All before a cs hs in ((u, us), ground arith)

pub children_refusal-differ :
    (nodes : List TilePlanNode) (n : TilePlanNode) (before cs : List TileId)
    → children_refusal nodes n before cs ≡ none
    → (ids_differ cs ≡ true) × All (New before) cs
unfolding children_refusal ids_differ
children_refusal-differ nodes n before [] h = (refl, tt)
children_refusal-differ nodes n before (c ∷ cs) h =
    let a = refuse_if-none _ _ _ h in
    let b = refuse_if-none _ _ _ a.1 in
    let (d, e) = children_refusal-differ nodes n (before ++ c ∷ []) cs b.1 in
    let (u, v) = New-All before c cs e in (ground arith, (a.0, u))

node_ids-append :
    (before : List TilePlanNode) (n : TilePlanNode)
    → node_ids (before ++ n ∷ []) ≡ node_ids before ++ n.id ∷ []
unfolding node_ids
node_ids-append [] n = refl
node_ids-append (b ∷ before) n = ap (λ l. b.id ∷ l) (node_ids-append before n)

any_of-node_ids :
    (before : List TilePlanNode) (c : TileId)
    → any_of (λ b. tile_id_equal b c) (node_ids before)
      ≡ any_of (λ (p : TilePlanNode). tile_id_equal p.id c) before
unfolding node_ids
any_of-node_ids [] c = refl
any_of-node_ids (b ∷ before) c = ap (λ r. tile_id_equal b.id c || r) (any_of-node_ids before c)

pub nodes_refusal-differ :
    (nodes before ns : List TilePlanNode)
    → nodes_refusal nodes before ns ≡ none
    → (ids_differ (node_ids ns) ≡ true) × All (New (node_ids before)) (node_ids ns)
unfolding nodes_refusal node_refusal ids_differ node_ids
nodes_refusal-differ nodes before [] h = (refl, tt)
nodes_refusal-differ nodes before (n ∷ ns) h =
    let (now, later) = or_then-none _ _ h in
    let a = refuse_if-none _ _ _ now in
    let (d, e) = nodes_refusal-differ nodes (before ++ n ∷ []) ns later in
    let (u, v) =
      New-All (node_ids before) n.id (node_ids ns)
        (subst (λ l. All (New l) (node_ids ns)) (node_ids-append before n) e) in
    (ground arith, (any_of-node_ids before n.id ∙ a.0, u))
