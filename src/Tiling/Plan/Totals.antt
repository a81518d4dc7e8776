-- ===== src/Tiling/Plan/Totals.antt =====
-- What the nodes of `BuildTilePlan` count: each tile once on every level from its own up to the root.
use usd_pointcloud_plugins.Prelude.{
  ℕ, zero, suc, ◌+◌, ◌%◌, ◌^◌, ◌≡◌, refl, ap, ◌∙◌, Bool, true, false, if◌then◌else◌, List, [], ◌∷◌,
  any_of, Bool-cases, inl, inr, arith, bytes_eq, bytes_eq→eq,
}
use usd_pointcloud_plugins.Prelude.Int.{pos, pos_part, half_ℤ}
use usd_pointcloud_plugins.Prelude.Sort.{insert_by, sort_by}
use usd_pointcloud_plugins.Core.TileId.{TileId, tile_to_string}
use usd_pointcloud_plugins.Tiling.Budget.{BudgetTile}
use usd_pointcloud_plugins.Tiling.Ids.{tile_id_equal}
use usd_pointcloud_plugins.Tiling.Plan.{TilePlanNode}
use usd_pointcloud_plugins.Tiling.Plan.Build.{
  fresh_node, same_key, with_node, known_id, add_child, count_leaf, one_up, path_to, link,
  add_below, add_path, add_leaf, add_leaves,
}

-- The points counted on the nodes with the text of an identity.
unfoldable pub total_at : TileId → List TilePlanNode → ℕ
total_at k [] = 0
total_at k (n ∷ ns) = (if same_key n.id k then n.point_count else 0) + total_at k ns

-- The identity on a level whose tile holds that of an identity one level down.
abbrev pub around : TileId → ℕ → TileId
around id level = record { level = pos level; x = half_ℤ id.x; y = half_ℤ id.y; z = half_ℤ id.z }

-- The points that a tile of an identity on a level puts on `k`: its count for the identity itself and
-- for each above it that has the text of `k`.
unfoldable pub share : TileId → ℕ → ℕ → TileId → ℕ
share k points zero id = if same_key id k then points else 0
share k points (suc level) id =
    (if same_key id k then points else 0) + share k points level (around id level)

unfoldable pub shares : TileId → List BudgetTile → ℕ
shares k [] = 0
shares k (t ∷ ts) = share k t.point_count (pos_part t.id.level) t.id + shares k ts

pub same_text : (a b k : TileId) → same_key a b ≡ true → same_key a k ≡ same_key b k
same_text a b k h =
    ap (λ t. bytes_eq t (tile_to_string k)) (bytes_eq→eq (tile_to_string a) (tile_to_string b) h)

-- A change that leaves the identity and the count.
pub record Keeps (f : TilePlanNode → TilePlanNode) : Type 0 where
  pub id : (n : TilePlanNode) → (f n).id ≡ n.id
  pub count : (n : TilePlanNode) → (f n).point_count ≡ n.point_count
  pub leaf : (n : TilePlanNode) → n.is_leaf ≡ true → (f n).is_leaf ≡ true

total_at-with_node :
    (k id : TileId) (f : TilePlanNode → TilePlanNode)
    → Keeps f
    → (nodes : List TilePlanNode) → total_at k (with_node id f nodes) ≡ total_at k nodes
unfolding total_at with_node
total_at-with_node k id f keeps [] =
    rw (keeps.id (fresh_node id), keeps.count (fresh_node id)) (if_zero (same_key id k))
  where
    if_zero : (b : Bool) → (if b then 0 else 0) + 0 ≡ 0
    if_zero true = refl
    if_zero false = refl
total_at-with_node k id f keeps (n ∷ ns) = elim (Bool-cases (same_key n.id id)) [
  | inl e ↦ rw (e, keeps.id n, keeps.count n) refl
  | inr e ↦ rw e (
      ap (λ r. (if same_key n.id k then n.point_count else 0) + r)
        (total_at-with_node k id f keeps ns))
]

total_at-count_leaf :
    (k id : TileId) (t : BudgetTile) (nodes : List TilePlanNode)
    → total_at k (with_node id (count_leaf t) nodes) % 2 ^ 64
      ≡ (total_at k nodes + (if same_key id k then t.point_count else 0)) % 2 ^ 64
unfolding total_at with_node count_leaf
total_at-count_leaf k id t [] = counted (same_key id k) t.point_count
  where
    counted :
        (b : Bool) (c : ℕ)
        → ((if b then (0 + c) % 2 ^ 64 else 0) + 0) % 2 ^ 64 ≡ (0 + (if b then c else 0)) % 2 ^ 64
    counted true c = omega arith
    counted false c = omega arith
total_at-count_leaf k id t (n ∷ ns) = elim (Bool-cases (same_key n.id id)) [
  | inl e ↦
      rw (e, same_text n.id id k e)
        (counted (same_key id k) n.point_count (total_at k ns) t.point_count)
  | inr e ↦ rw e (
      later (if same_key n.id k then n.point_count else 0)
        (total_at k (with_node id (count_leaf t) ns)) (total_at k ns)
        (if same_key id k then t.point_count else 0) (total_at-count_leaf k id t ns))
]
  where
    counted :
        (b : Bool) (m r c : ℕ)
        → ((if b then (m + c) % 2 ^ 64 else 0) + r) % 2 ^ 64
          ≡ (((if b then m else 0) + r) + (if b then c else 0)) % 2 ^ 64
    counted true m r c = omega arith
    counted false m r c = omega arith

    later :
        (a x y c : ℕ) → x % 2 ^ 64 ≡ (y + c) % 2 ^ 64 → (a + x) % 2 ^ 64 ≡ ((a + y) + c) % 2 ^ 64
    later a x y c h = omega arith

pub add_child-Keeps : (c : TileId) → Keeps (add_child c)
unfolding add_child
add_child-Keeps c = record {
  id = λ n. elim (Bool-cases (any_of (λ d. tile_id_equal d c) n.children)) [
    | inl e ↦ rw e refl
    | inr e ↦ rw e refl
  ];
  count = λ n. elim (Bool-cases (any_of (λ d. tile_id_equal d c) n.children)) [
    | inl e ↦ rw e refl
    | inr e ↦ rw e refl
  ];
  leaf = λ n h. elim (Bool-cases (any_of (λ d. tile_id_equal d c) n.children)) [
    | inl e ↦ rw e h
    | inr e ↦ rw e h
  ];
}

pub parent-Keeps : (p : TileId) → Keeps (λ n. record n { parent = p })
parent-Keeps p = record { id = λ n. refl; count = λ n. refl; leaf = λ n h. h }

mark-Keeps : Keeps (λ n. record n { is_leaf = true })
mark-Keeps = record { id = λ n. refl; count = λ n. refl; leaf = λ n h. refl }

total_at-link :
    (k p id : TileId) (nodes : List TilePlanNode) → total_at k (link p id nodes) ≡ total_at k nodes
unfolding link
total_at-link k p id nodes =
    total_at-with_node k p _ (add_child-Keeps (known_id id nodes)) _
    ∙ total_at-with_node k id _ (parent-Keeps (known_id p nodes)) nodes

-- The points that the identities of a path put on `k`.
due : TileId → ℕ → List TileId → ℕ
due k c [] = 0
due k c (id ∷ ids) = (if same_key id k then c else 0) + due k c ids

more :
    (x y a c d : ℕ)
    → x % 2 ^ 64 ≡ (y + d) % 2 ^ 64
    → y % 2 ^ 64 ≡ (a + c) % 2 ^ 64
    → x % 2 ^ 64 ≡ (a + (c + d)) % 2 ^ 64
more x y a c d h g = omega arith

total_at-add_below :
    (k : TileId) (t : BudgetTile) (p : TileId) (ids : List TileId) (nodes : List TilePlanNode)
    → total_at k (add_below t p ids nodes) % 2 ^ 64
      ≡ (total_at k nodes + due k t.point_count ids) % 2 ^ 64
unfolding add_below due
total_at-add_below k t p [] nodes = omega arith
total_at-add_below k t p (id ∷ ids) nodes =
    let counted = with_node id (count_leaf t) nodes in
    more _ (total_at k counted) (total_at k nodes) _ _
      (rw (total_at-link k p id counted) at (total_at-add_below k t id ids (link p id counted)))
      (total_at-count_leaf k id t nodes)

total_at-add_path :
    (k : TileId) (t : BudgetTile) (ids : List TileId) (nodes : List TilePlanNode)
    → total_at k (add_path t ids nodes) % 2 ^ 64
      ≡ (total_at k nodes + due k t.point_count ids) % 2 ^ 64
unfolding add_path due
total_at-add_path k t [] nodes = omega arith
total_at-add_path k t (id ∷ ids) nodes =
    more _ (total_at k (with_node id (count_leaf t) nodes)) (total_at k nodes) _ _
      (total_at-add_below k t id ids (with_node id (count_leaf t) nodes))
      (total_at-count_leaf k id t nodes)

due-path_to :
    (k : TileId) (c level : ℕ) (id : TileId) (below : List TileId)
    → due k c (path_to level id below) ≡ share k c level id + due k c below
unfolding due path_to share
due-path_to k c zero id below = refl
due-path_to k c (suc level) id below =
    omega (arith, due-path_to k c level (one_up id (pos level)) (id ∷ below))

total_at-add_leaf :
    (k : TileId) (t : BudgetTile) (nodes : List TilePlanNode)
    → total_at k (add_leaf t nodes) % 2 ^ 64
      ≡ (total_at k nodes + share k t.point_count (pos_part t.id.level) t.id) % 2 ^ 64
unfolding add_leaf due
total_at-add_leaf k t nodes =
    let path = path_to (pos_part t.id.level) t.id [] in
    rw (total_at-with_node k t.id _ mark-Keeps (add_path t path nodes)) (
      ground (
        arith,
        total_at-add_path k t path nodes,
        due-path_to k t.point_count (pos_part t.id.level) t.id [],
      ))

-- The nodes of the tiles count them, up to the width of the counter.
pub total_at-add_leaves :
    (k : TileId) (ts : List BudgetTile) (nodes : List TilePlanNode)
    → total_at k (add_leaves ts nodes) % 2 ^ 64 ≡ (total_at k nodes + shares k ts) % 2 ^ 64
unfolding add_leaves shares
total_at-add_leaves k [] nodes = omega arith
total_at-add_leaves k (t ∷ ts) nodes =
    more _ (total_at k (add_leaf t nodes)) (total_at k nodes) _ _
      (total_at-add_leaves k ts (add_leaf t nodes)) (total_at-add_leaf k t nodes)

total_at-insert_by :
    (k : TileId) (less : TilePlanNode → TilePlanNode → Bool) (n : TilePlanNode)
    (ns : List TilePlanNode)
    → total_at k (insert_by less n ns) ≡ total_at k (n ∷ ns)
unfolding total_at insert_by
total_at-insert_by k less n [] = refl
total_at-insert_by k less n (m ∷ ns) = elim (Bool-cases (less m n)) [
  | inl e ↦ rw e (omega (arith, total_at-insert_by k less n ns))
  | inr e ↦ rw e refl
]

pub total_at-sort_by :
    (k : TileId) (less : TilePlanNode → TilePlanNode → Bool) (ns : List TilePlanNode)
    → total_at k (sort_by less ns) ≡ total_at k ns
unfolding total_at sort_by
total_at-sort_by k less [] = refl
total_at-sort_by k less (n ∷ ns) =
    total_at-insert_by k less n (sort_by less ns)
    ∙ ap (λ r. (if same_key n.id k then n.point_count else 0) + r) (total_at-sort_by k less ns)
