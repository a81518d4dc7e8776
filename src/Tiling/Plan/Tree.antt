-- ===== src/Tiling/Plan/Tree.antt =====
-- What an accepted tile plan is: a tree of its nodes with one root.
use mathlib.Core.Option.{some-injective}
use usd_pointcloud_plugins.Prelude.{
  ℕ, zero, suc, ◌≡◌, refl, sym, ap, ◌∙◌, subst, true, false, not, ◌||◌, ◌==◌, List, [], ◌∷◌,
  is_empty, all_of, All, All-map_of, Bool-cases, Option-cases, inl, inr, Option, none, some, String,
  arith,
}
use usd_pointcloud_plugins.Prelude.Int.{
  ℤ, pos, negsuc, pos_part, eqb_ℤ, eqb_ℤ→eq, ltb_ℤ, leb_ℤ, ◌-ℤ◌,
}
use usd_pointcloud_plugins.Core.TileId.{TileId, tile_is_valid}
use usd_pointcloud_plugins.Tiling.Ids.{tile_id_equal}
use usd_pointcloud_plugins.Tiling.Plan.{
  TilePlanNode, TilePlan, plan_is_valid, node_is_valid, find_node,
}
use usd_pointcloud_plugins.Tiling.Plan.Validate.{
  is_root, lists, parent_refusal, is_child_of, root_count, header_refusal, validate_roots,
  validate_nodes, validate_tile_plan,
}
use usd_pointcloud_plugins.Tiling.Plan.Distinct.{
  ids_differ, node_ids, children_refusal-differ, nodes_refusal-differ,
}
use usd_pointcloud_plugins.Tiling.Plan.Rounds.{
  refuse_if-none, or_then-none, Round, nodes_refusal-Round, children_refusal-All,
}

-- The parents of a node, found in the plan one after the other, end at a root; each lists the child.
pub data Descends (nodes : List TilePlanNode) : TilePlanNode → Type 0 where
  at_root : (n : TilePlanNode) → is_root n ≡ true → Descends nodes n
  below :
      (n m : TilePlanNode)
      → find_node nodes n.parent ≡ some m
      → lists n.id (some m) ≡ true
      → n.id.level ≡ pos (suc (pos_part m.id.level))
      → Descends nodes m
      → Descends nodes n

pub record IsLinked (nodes : List TilePlanNode) (n : TilePlanNode) : Type 0 where
  pub named : find_node nodes n.id ≡ some n
  pub descends : Descends nodes n
  pub children : All (λ c. is_child_of n c (find_node nodes c) ≡ true) n.children
  pub children_differ : ids_differ n.children ≡ true
  pub leaf_or_parent : (n.is_leaf || not (is_empty n.children)) ≡ true

pub record IsTree (nodes : List TilePlanNode) : Type 0 where
  pub one_root : (is_empty nodes || root_count nodes == 1) ≡ true
  pub nodes_differ : ids_differ (node_ids nodes) ≡ true
  pub linked : All (IsLinked nodes) nodes

find_node-All {κ} :
    (P : TilePlanNode → Type κ) (nodes : List TilePlanNode) (id : TileId) (m : TilePlanNode)
    → All P nodes
    → find_node nodes id ≡ some m
    → P m × (tile_id_equal m.id id ≡ true)
unfolding find_node
find_node-All P [] id m h e = ground arith
find_node-All P (n ∷ ns) id m h e = elim (Bool-cases (tile_id_equal n.id id)) [
  | inl same ↦
      (let e' = rw same at e in
        let i : n ≡ m = some-injective n m e' in
        (subst P i h.0, subst (λ v. tile_id_equal v.id id ≡ true) i same))
  | inr other ↦ (let e' = rw other at e in find_node-All P ns id m h.1 e')
]

-- What the loop has settled of a node whose identity is valid.
record Settled (nodes : List TilePlanNode) (n : TilePlanNode) : Type 0 where
  round : Round nodes n
  valid : tile_is_valid n.id ≡ true

level_parts : (a b : TileId) → tile_id_equal a b ≡ true → a.level ≡ b.level
unfolding tile_id_equal
level_parts a b h = eqb_ℤ→eq a.level b.level (ground arith)

next_level :
    (a b : ℤ) → leb_ℤ (pos 0) b ≡ true → eqb_ℤ (a -ℤ b) (pos 1) ≡ true → a ≡ pos (suc (pos_part b))
unfolding ◌-ℤ◌
next_level (pos a) (pos b) h k = ap pos (ground arith)
next_level (pos a) (negsuc b) h k = ground arith
next_level (negsuc a) (pos b) h k = ground arith
next_level (negsuc a) (negsuc b) h k = ground arith

not_root_below :
    (n : TilePlanNode)
    → ltb_ℤ n.parent.level (negsuc 0) ≡ false
    → is_root n ≡ false
    → leb_ℤ (pos 0) n.parent.level ≡ true
unfolding is_root
not_root_below n h k = go n.parent.level h k
  where
    go : (l : ℤ) → ltb_ℤ l (negsuc 0) ≡ false → eqb_ℤ l (negsuc 0) ≡ false → leb_ℤ (pos 0) l ≡ true
    go (pos a) h k = ground arith
    go (negsuc a) h k = ground arith

record Parent (nodes : List TilePlanNode) (n : TilePlanNode) : Type 0 where
  node : TilePlanNode
  found : find_node nodes n.parent ≡ some node
  listed : lists n.id (some node) ≡ true
  level : n.id.level ≡ pos (suc (pos_part n.parent.level))

Parent-of :
    (nodes : List TilePlanNode) (n : TilePlanNode)
    → leb_ℤ (pos 0) n.parent.level ≡ true
    → parent_refusal nodes n ≡ none
    → Parent nodes n
unfolding parent_refusal lists
Parent-of nodes n above h =
    let h' = rw above at h in
    let a = refuse_if-none _ _ _ h' in
    let b = refuse_if-none _ _ _ a.1 in
    elim (Option-cases (find_node nodes n.parent)) [
      | inl e ↦ (let k = rw e at b in ground (arith, k.0))
      | inr (m, e) ↦
          (let k = rw e at b in
            record {
              node = m;
              found = e;
              listed = ground (arith, k.0);
              level = next_level n.id.level n.parent.level above (ground (arith, a.0));
            })
    ]

-- The settled parent of a settled node.
record Above (nodes : List TilePlanNode) (n : TilePlanNode) : Type 0 where
  node : TilePlanNode
  found : find_node nodes n.parent ≡ some node
  listed : lists n.id (some node) ≡ true
  one_up : n.id.level ≡ pos (suc (pos_part node.id.level))
  settled : Settled nodes node

Above-of :
    (nodes : List TilePlanNode)
    → All (Settled nodes) nodes
    → (n : TilePlanNode) → Settled nodes n
    → is_root n ≡ false
    → Above nodes n
Above-of nodes all n here e =
    let p = Parent-of nodes n (not_root_below n here.round.low e) here.round.parent in
    let known = find_node-All (Settled nodes) nodes n.parent p.node all p.found in
    record {
      node = p.node;
      found = p.found;
      listed = p.listed;
      one_up =
          p.level ∙ ap (λ l. pos (suc (pos_part l))) (sym (level_parts p.node.id n.parent known.1));
      settled = known.0;
    }

-- The climb to the root ends, since each parent is one level up.
climb :
    (nodes : List TilePlanNode)
    → All (Settled nodes) nodes
    → (k : ℕ) (n : TilePlanNode) → pos_part n.id.level ≡ k
    → Settled nodes n
    → Descends nodes n
climb nodes all zero n level here = elim (Bool-cases (is_root n)) [
  | inl e ↦ at_root n e
  | inr e ↦ (let a = Above-of nodes all n here e in ground (arith, ap pos_part a.one_up))
]
climb nodes all (suc k) n level here = elim (Bool-cases (is_root n)) [
  | inl e ↦ at_root n e
  | inr e ↦
      (let a = Above-of nodes all n here e in
        below n a.node a.found a.listed a.one_up
          (climb nodes all k a.node (omega (arith, ap pos_part a.one_up)) a.settled))
]

plan_is_valid-All :
    (nodes : List TilePlanNode)
    → all_of node_is_valid nodes ≡ true
    → All (λ n. tile_is_valid n.id ≡ true) nodes
unfolding node_is_valid
plan_is_valid-All [] h = tt
plan_is_valid-All (n ∷ ns) h = (ground arith, plan_is_valid-All ns (ground arith))

Settled-IsLinked :
    (nodes : List TilePlanNode)
    → All (Settled nodes) nodes
    → (n : TilePlanNode) → Settled nodes n
    → IsLinked nodes n
Settled-IsLinked nodes all n s = record {
  named = s.round.once;
  descends = climb nodes all (pos_part n.id.level) n refl s;
  children = children_refusal-All nodes n [] n.children s.round.kids;
  children_differ = (children_refusal-differ nodes n [] n.children s.round.kids).0;
  leaf_or_parent = ground (arith, s.round.inner);
}

one_root_of :
    (nodes : List TilePlanNode)
    → (validate_roots nodes).0 ≡ true
    → (is_empty nodes || root_count nodes == 1) ≡ true
unfolding validate_roots
one_root_of [] h = refl
one_root_of (n ∷ ns) h = elim (Bool-cases (root_count (n ∷ ns) == 1)) [
  | inl e ↦ e
  | inr e ↦ (let h' = rw e at h in ground arith)
]

accepted_parts :
    (nodes : List TilePlanNode) (m : Option String)
    → (validate_nodes nodes m).0 ≡ true
    → (m ≡ none) × ((validate_roots nodes).0 ≡ true)
unfolding validate_nodes
accepted_parts nodes none h = (refl, h)
accepted_parts nodes (some m) h = ground arith

header_valid : (p : TilePlan) → header_refusal p ≡ none → all_of node_is_valid p.nodes ≡ true
unfolding header_refusal plan_is_valid
header_valid p h =
    let a = refuse_if-none _ _ _ h in
    let b = refuse_if-none _ _ _ a.1 in let c = refuse_if-none _ _ _ b.1 in ground (arith, c.0)

Settled-All :
    (nodes l : List TilePlanNode)
    → All (Round nodes) l
    → All (λ n. tile_is_valid n.id ≡ true) l
    → All (Settled nodes) l
Settled-All nodes [] h k = tt
Settled-All nodes (n ∷ ns) h k = (record { round = h.0; valid = k.0 }, Settled-All nodes ns h.1 k.1)

-- A plan that `ValidateTilePlan` accepts is a tree: if it has nodes, exactly one of them is a root; no two
-- of its nodes have the same identity; the search for the identity of a node gives that node; the parents
-- of every node, found by their identities and each one level up and listing the one below, end at a root;
-- every child that a node lists is a node one level down whose parent it is, and no child is listed twice;
-- and every node is a leaf or has children.
pub validate_tile_plan-IsTree : (p : TilePlan) → (validate_tile_plan p).0 ≡ true → IsTree p.nodes
unfolding validate_tile_plan
validate_tile_plan-IsTree p h =
    let (clean, roots) = accepted_parts p.nodes _ h in
    let (head, body) = or_then-none _ _ clean in
    let rounds = nodes_refusal-Round [] p.nodes body in
    let settled =
      Settled-All p.nodes p.nodes rounds (plan_is_valid-All p.nodes (header_valid p head)) in
    record {
      one_root = one_root_of p.nodes roots;
      nodes_differ = (nodes_refusal-differ p.nodes [] p.nodes body).0;
      linked = All-map_of p.nodes (Settled-IsLinked p.nodes settled) settled;
    }
