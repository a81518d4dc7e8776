-- ===== src/Tiling/Plan/Rounds.antt =====
-- What the loop of `ValidateTilePlan` over the nodes settles when it refuses none.
use usd_pointcloud_plugins.Prelude.{
  ◌≡◌, refl, sym, subst, Bool, true, false, not, ◌&&◌, List, [], ◌∷◌, ◌++◌, append_assoc, is_empty,
  any_of, All, Bool-cases, inl, inr, Option, none, some, String, arith,
}
use usd_pointcloud_plugins.Prelude.Int.{negsuc, eqb_ℤ_refl, ltb_ℤ}
use usd_pointcloud_plugins.Core.TileId.{TileId}
use usd_pointcloud_plugins.Tiling.Ids.{tile_id_equal}
use usd_pointcloud_plugins.Tiling.Plan.{TilePlanNode, find_node}
use usd_pointcloud_plugins.Tiling.Plan.Validate.{
  refuse_if, or_then, parent_refusal, is_child_of, children_refusal, node_refusal, nodes_refusal,
}

pub refuse_if-none :
    (b : Bool) (m : String) (rest : Option String)
    → refuse_if b m rest ≡ none
    → (b ≡ false) × (rest ≡ none)
unfolding refuse_if
refuse_if-none true m rest h = ground arith
refuse_if-none false m rest h = (refl, h)

pub or_then-none : (a b : Option String) → or_then a b ≡ none → (a ≡ none) × (b ≡ none)
unfolding or_then
or_then-none none b h = (refl, h)
or_then-none (some m) b h = ground arith

tile_id_equal_refl : (t : TileId) → tile_id_equal t t ≡ true
unfolding tile_id_equal
tile_id_equal_refl t = rw (eqb_ℤ_refl t.level, eqb_ℤ_refl t.x, eqb_ℤ_refl t.y, eqb_ℤ_refl t.z) refl

find_node_after :
    (before ns : List TilePlanNode) (n : TilePlanNode)
    → any_of (λ p. tile_id_equal p.id n.id) before ≡ false
    → find_node (before ++ n ∷ ns) n.id ≡ some n
unfolding find_node
find_node_after [] ns n h = rw (tile_id_equal_refl n.id) refl
find_node_after (b ∷ before) ns n h = elim (Bool-cases (tile_id_equal b.id n.id)) [
  | inl e ↦ ground arith
  | inr e ↦ rw e (find_node_after before ns n (ground arith))
]

-- What one round of the loop over the nodes settles.
pub record Round (nodes : List TilePlanNode) (n : TilePlanNode) : Type 0 where
  pub once : find_node nodes n.id ≡ some n
  pub low : ltb_ℤ n.parent.level (negsuc 0) ≡ false
  pub parent : parent_refusal nodes n ≡ none
  pub kids : children_refusal nodes n [] n.children ≡ none
  pub inner : (not n.is_leaf && is_empty n.children) ≡ false

node_refusal-Round :
    (before ns : List TilePlanNode) (n : TilePlanNode)
    → node_refusal (before ++ n ∷ ns) before n ≡ none
    → Round (before ++ n ∷ ns) n
unfolding node_refusal
node_refusal-Round before ns n h =
    let a = refuse_if-none _ _ _ h in
    let b = refuse_if-none _ _ _ a.1 in
    let c = refuse_if-none _ _ _ b.1 in
    let d = or_then-none _ _ c.1 in
    let e = or_then-none _ _ d.1 in
    let f = refuse_if-none _ _ _ e.1 in
    record {
      once = find_node_after before ns n a.0;
      low = c.0;
      parent = d.0;
      kids = e.0;
      inner = f.0;
    }

pub nodes_refusal-Round :
    (before ns : List TilePlanNode)
    → nodes_refusal (before ++ ns) before ns ≡ none
    → All (Round (before ++ ns)) ns
unfolding nodes_refusal
nodes_refusal-Round before [] h = tt
nodes_refusal-Round before (n ∷ ns) h =
    let (now, later) = or_then-none _ _ h in
    let same : (before ++ n ∷ []) ++ ns ≡ before ++ n ∷ ns = append_assoc before (n ∷ []) ns in
    (
      node_refusal-Round before ns n now,
      subst (λ l. All (Round l) ns) same
          (nodes_refusal-Round (before ++ n ∷ []) ns
            (subst (λ l. nodes_refusal l (before ++ n ∷ []) ns ≡ none) (sym same) later)),
    )

pub children_refusal-All :
    (nodes : List TilePlanNode) (n : TilePlanNode) (before cs : List TileId)
    → children_refusal nodes n before cs ≡ none
    → All (λ c. is_child_of n c (find_node nodes c) ≡ true) cs
unfolding children_refusal
children_refusal-All nodes n before [] h = tt
children_refusal-All nodes n before (c ∷ cs) h =
    let a = refuse_if-none _ _ _ h in
    let b = refuse_if-none _ _ _ a.1 in
    (ground (arith, b.0), children_refusal-All nodes n (before ++ c ∷ []) cs b.1)
