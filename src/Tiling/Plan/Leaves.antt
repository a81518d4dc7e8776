-- ===== src/Tiling/Plan/Leaves.antt =====
-- The leaves of `BuildTilePlan`: the tiles are marked, and stay so.
use usd_pointcloud_plugins.Prelude.{
  ◌≡◌, refl, Bool, true, false, ◌&&◌, ◌||◌, List, [], ◌∷◌, All, Bool-cases, inl, inr, arith,
  bytes_eq_refl,
}
use usd_pointcloud_plugins.Prelude.Sort.{insert_by, sort_by}
use usd_pointcloud_plugins.Core.TileId.{TileId, tile_to_string}
use usd_pointcloud_plugins.Tiling.Budget.{BudgetTile}
use usd_pointcloud_plugins.Tiling.Plan.{TilePlanNode}
use usd_pointcloud_plugins.Tiling.Plan.Build.{
  same_key, with_node, known_id, count_leaf, path_to, link, add_below, add_path, add_leaf,
  add_leaves,
}
use usd_pointcloud_plugins.Tiling.Plan.Totals.{add_child-Keeps, parent-Keeps}

unfoldable pub has_leaf : TileId → List TilePlanNode → Bool
has_leaf k [] = false
has_leaf k (n ∷ ns) = (same_key n.id k && n.is_leaf) || has_leaf k ns

has_leaf-with_node :
    (k id : TileId) (f : TilePlanNode → TilePlanNode)
    → ((n : TilePlanNode) → (f n).id ≡ n.id)
    → ((n : TilePlanNode) → n.is_leaf ≡ true → (f n).is_leaf ≡ true)
    → (nodes : List TilePlanNode) → has_leaf k nodes ≡ true
    → has_leaf k (with_node id f nodes) ≡ true
unfolding has_leaf with_node
has_leaf-with_node k id f same leaf [] h = ground arith
has_leaf-with_node k id f same leaf (n ∷ ns) h = elim (Bool-cases (same_key n.id id)) [
  | inl e ↦
      rw (e, same n) (kept (same_key n.id k) n.is_leaf (f n).is_leaf (has_leaf k ns) (leaf n) h)
  | inr e ↦ rw e (
      later (same_key n.id k && n.is_leaf) (has_leaf k ns) _ h
        (has_leaf-with_node k id f same leaf ns))
]
  where
    kept :
        (a b c r : Bool) → (b ≡ true → c ≡ true) → ((a && b) || r) ≡ true → ((a && c) || r) ≡ true
    kept a true c r g h = rw (g refl) h
    kept a false c r g h = ground arith

    later : (a r s : Bool) → (a || r) ≡ true → (r ≡ true → s ≡ true) → (a || s) ≡ true
    later true r s h g = refl
    later false r s h g = g h

has_leaf-marked :
    (id : TileId) (nodes : List TilePlanNode)
    → has_leaf id (with_node id (λ n. record n { is_leaf = true }) nodes) ≡ true
unfolding has_leaf with_node
has_leaf-marked id [] = rw (bytes_eq_refl (tile_to_string id)) refl
has_leaf-marked id (n ∷ ns) = elim (Bool-cases (same_key n.id id)) [
  | inl e ↦ rw (e, e) refl
  | inr e ↦ rw (e, e) (has_leaf-marked id ns)
]

-- What each step of the build does to a marked leaf.
abbrev Stays : TileId → List TilePlanNode → List TilePlanNode → Type 0
Stays k nodes later = has_leaf k nodes ≡ true → has_leaf k later ≡ true

with_node-Stays :
    (k id : TileId) (t : BudgetTile) (nodes : List TilePlanNode)
    → Stays k nodes (with_node id (count_leaf t) nodes)
unfolding count_leaf
with_node-Stays k id t = has_leaf-with_node k id (count_leaf t) (λ n. refl) (λ n h. h)

link-Stays : (k p id : TileId) (nodes : List TilePlanNode) → Stays k nodes (link p id nodes)
unfolding link
link-Stays k p id nodes h =
    let child = add_child-Keeps (known_id id nodes) in
    let parent = parent-Keeps (known_id p nodes) in
    has_leaf-with_node k p _ child.id child.leaf _
      (has_leaf-with_node k id _ parent.id parent.leaf nodes h)

add_below-Stays :
    (k : TileId) (t : BudgetTile) (p : TileId) (ids : List TileId) (nodes : List TilePlanNode)
    → Stays k nodes (add_below t p ids nodes)
unfolding add_below
add_below-Stays k t p [] nodes h = h
add_below-Stays k t p (id ∷ ids) nodes h =
    add_below-Stays k t id ids _ (link-Stays k p id _ (with_node-Stays k id t nodes h))

add_leaf-Stays :
    (k : TileId) (t : BudgetTile) (nodes : List TilePlanNode) → Stays k nodes (add_leaf t nodes)
unfolding add_leaf add_path
add_leaf-Stays k t nodes h =
    has_leaf-with_node k t.id _ (λ n. refl) (λ n g. refl) _ (path (path_to _ _ _))
  where
    path : (ids : List TileId) → has_leaf k (add_path t ids nodes) ≡ true
    path [] = h
    path (id ∷ ids) = add_below-Stays k t id ids _ (with_node-Stays k id t nodes h)

add_leaves-Stays :
    (k : TileId) (ts : List BudgetTile) (nodes : List TilePlanNode)
    → Stays k nodes (add_leaves ts nodes)
unfolding add_leaves
add_leaves-Stays k [] nodes h = h
add_leaves-Stays k (t ∷ ts) nodes h = add_leaves-Stays k ts _ (add_leaf-Stays k t nodes h)

pub has_leaf-add_leaves :
    (ts : List BudgetTile) (nodes : List TilePlanNode)
    → All (λ t. has_leaf t.id (add_leaves ts nodes) ≡ true) ts
unfolding add_leaves add_leaf
has_leaf-add_leaves [] nodes = tt
has_leaf-add_leaves (t ∷ ts) nodes = (
  add_leaves-Stays t.id ts (add_leaf t nodes) (has_leaf-marked t.id _),
  has_leaf-add_leaves ts (add_leaf t nodes),
)

has_leaf-insert_by :
    (k : TileId) (less : TilePlanNode → TilePlanNode → Bool) (n : TilePlanNode)
    (ns : List TilePlanNode)
    → has_leaf k (insert_by less n ns) ≡ has_leaf k (n ∷ ns)
unfolding has_leaf insert_by
has_leaf-insert_by k less n [] = refl
has_leaf-insert_by k less n (m ∷ ns) = elim (Bool-cases (less m n)) [
  | inl e ↦ rw e (ground (arith, has_leaf-insert_by k less n ns))
  | inr e ↦ rw e refl
]

pub has_leaf-sort_by :
    (k : TileId) (less : TilePlanNode → TilePlanNode → Bool) (ns : List TilePlanNode)
    → has_leaf k (sort_by less ns) ≡ has_leaf k ns
unfolding has_leaf sort_by
has_leaf-sort_by k less [] = refl
has_leaf-sort_by k less (n ∷ ns) =
    ground (arith, has_leaf-insert_by k less n (sort_by less ns), has_leaf-sort_by k less ns)
