-- ===== src/Tiling/Plan/Fuel.antt =====
-- The walk over the children of a tile plan is answered with the fuel that it is given.
use mathlib.Core.Option.{some-injective}
use usd_pointcloud_plugins.Prelude.{
  ℕ, zero, suc, ◌+◌, ◌≤◌, ◌<◌, ◌≡◌, ◌≢◌, refl, sym, ap, ◌∙◌, subst, true, false, List, [], ◌∷◌,
  length, replicate, Bool-cases, Option-cases, ◌⊎◌, inl, inr, Option, some, arith,
}
use usd_pointcloud_plugins.Core.TileId.{TileId}
use usd_pointcloud_plugins.Tiling.Ids.{tile_id_equal}
use usd_pointcloud_plugins.Tiling.Plan.{TilePlanNode, find_index}
use usd_pointcloud_plugins.Tiling.Plan.Validate.{
  root_index, VisitState, unseen, entered, closed, Visited, done, refused, exhausted, set_state,
  state_at, children_at, Go, visit_children, visit_found, and_then, by_state, close, visit_node,
  walk_from_root,
}

abbrev unseen_count : List VisitState → ℕ
unseen_count [] = 0
unseen_count (unseen ∷ ss) = suc (unseen_count ss)
unseen_count (entered ∷ ss) = unseen_count ss
unseen_count (closed ∷ ss) = unseen_count ss

-- An answer that opens no node again: at most `n` nodes are unseen after it.
abbrev Fine : ℕ → ℕ → Visited → Type 0
Fine n len (done s) = (unseen_count s ≤ n) × (length s ≡ len)
Fine n len (refused m) = true ≡ true
Fine n len exhausted = true ≡ false

length-set_state :
    (s : List VisitState) (i : ℕ) (v : VisitState) → length (set_state s i v) ≡ length s
unfolding set_state
length-set_state [] i v = refl
length-set_state (a ∷ s) zero v = refl
length-set_state (a ∷ s) (suc i) v = ap suc (length-set_state s i v)

enter-count :
    (s : List VisitState) (i : ℕ)
    → i < length s
    → state_at s i ≡ unseen
    → suc (unseen_count (set_state s i entered)) ≡ unseen_count s
unfolding set_state state_at
enter-count [] i h e = ground arith
enter-count (unseen ∷ s) zero h e = refl
enter-count (entered ∷ s) zero h e = ground arith
enter-count (closed ∷ s) zero h e = ground arith
enter-count (unseen ∷ s) (suc i) h e = ap suc (enter-count s i (omega arith) e)
enter-count (entered ∷ s) (suc i) h e = enter-count s i (omega arith) e
enter-count (closed ∷ s) (suc i) h e = enter-count s i (omega arith) e

close-count : (s : List VisitState) (i : ℕ) → unseen_count (set_state s i closed) ≤ unseen_count s
unfolding set_state
close-count [] i = omega arith
close-count (unseen ∷ s) zero = omega arith
close-count (entered ∷ s) zero = omega arith
close-count (closed ∷ s) zero = omega arith
close-count (unseen ∷ s) (suc i) = omega (arith, close-count s i)
close-count (entered ∷ s) (suc i) = close-count s i
close-count (closed ∷ s) (suc i) = close-count s i

find_index-bound :
    (from : ℕ) (nodes : List TilePlanNode) (id : TileId) (i : ℕ)
    → find_index from nodes id ≡ some i
    → i < from + length nodes
unfolding find_index
find_index-bound from [] id i e = ground arith
find_index-bound from (n ∷ ns) id i e = elim (Bool-cases (tile_id_equal n.id id)) [
  | inl same ↦ (let e' = rw same at e in omega (arith, some-injective from i e'))
  | inr other ↦ (let e' = rw other at e in omega (arith, find_index-bound (suc from) ns id i e'))
]

root_index-bound :
    (from found : ℕ) (ns : List TilePlanNode) (len : ℕ)
    → found < len
    → from + length ns ≤ len
    → root_index from found ns < len
unfolding root_index
root_index-bound from found [] len h k = h
root_index-bound from found (n ∷ ns) len h k =
    root_index-bound (suc from) _ ns len (ground arith) (omega arith)

Fine-weaker : (n m len : ℕ) (v : Visited) → n ≤ m → Fine n len v → Fine m len v
Fine-weaker n m len (done s) h f = (omega (arith, f.0), f.1)
Fine-weaker n m len (refused r) h f = f
Fine-weaker n m len exhausted h f = f

Fine-close : (n len i : ℕ) (v : Visited) → Fine n len v → Fine n len (close i v)
unfolding close
Fine-close n len i (done s) f =
    (omega (arith, f.0, close-count s i), length-set_state s i closed ∙ f.1)
Fine-close n len i (refused r) f = f
Fine-close n len i exhausted f = f

module _ (nodes : List TilePlanNode) where
  abbrev Answers : ℕ → Go → Type 0
  Answers fuel go =
      (i : ℕ) (s : List VisitState)
      → length s ≡ length nodes
      → i < length nodes
      → unseen_count s < fuel
      → Fine (unseen_count s) (length nodes) (go i s)

  and_then-Fine :
      (fuel n : ℕ) (rest : List VisitState → Visited) (v : Visited)
      → ((s : List VisitState)
          → length s ≡ length nodes
          → unseen_count s < fuel
          → Fine (unseen_count s) (length nodes) (rest s))
      → n < fuel
      → Fine n (length nodes) v
      → Fine n (length nodes) (and_then v rest)
  unfolding and_then
  and_then-Fine fuel n rest (done s) h k f =
      Fine-weaker (unseen_count s) n (length nodes) (rest s) f.0 (h s f.1 (omega (arith, f.0)))
  and_then-Fine fuel n rest (refused m) h k f = refl
  and_then-Fine fuel n rest exhausted h k f = f

  visit_children-Answers :
      (fuel : ℕ) (go : Go)
      → Answers fuel go
      → (cs : List TileId) (s : List VisitState) → length s ≡ length nodes
      → unseen_count s < fuel
      → Fine (unseen_count s) (length nodes) (visit_children go nodes cs s)
  unfolding visit_children visit_found
  visit_children-Answers fuel go a [] s h k = (omega arith, h)
  visit_children-Answers fuel go a (c ∷ cs) s h k =
      let answer = λ (o : Option ℕ). visit_found go (visit_children go nodes cs) o s in
      elim (Option-cases (find_index 0 nodes c)) [
        | inl e ↦ subst (λ o. Fine (unseen_count s) (length nodes) (answer o)) (sym e) refl
        | inr (i, e) ↦
            subst (λ o. Fine (unseen_count s) (length nodes) (answer o)) (sym e)
              (and_then-Fine fuel (unseen_count s) (visit_children go nodes cs) (go i s)
                (visit_children-Answers fuel go a cs) k
                (a i s h (omega (arith, find_index-bound 0 nodes c i e)) k))
      ]

  VisitState-cases : (v : VisitState) → (v ≡ unseen) ⊎ ((v ≡ entered) ⊎ (v ≡ closed))
  VisitState-cases unseen = inl refl
  VisitState-cases entered = inr (inl refl)
  VisitState-cases closed = inr (inr refl)

  visit_node-Answers : (fuel : ℕ) → Answers fuel (visit_node fuel nodes)
  unfolding visit_node by_state
  visit_node-Answers zero i s h k b = ground arith
  visit_node-Answers (suc fuel) i s h k b =
      let enter : List VisitState → Visited = λ t. close i (
        visit_children (visit_node fuel nodes) nodes (children_at nodes i)
          (set_state t i entered)) in
      let answer = λ (v : VisitState). by_state v enter s in
      elim (VisitState-cases (state_at s i)) [
        | inr (inl e) ↦ subst (λ v. Fine (unseen_count s) (length nodes) (answer v)) (sym e) refl
        | inr (inr e) ↦
            subst (λ v. Fine (unseen_count s) (length nodes) (answer v)) (sym e) (omega arith, h)
        | inl e ↦
            (let fewer = enter-count s i (omega (arith, h)) e in
              let inner =
                visit_children (visit_node fuel nodes) nodes (children_at nodes i)
                  (set_state s i entered) in
              let below =
                visit_children-Answers fuel (visit_node fuel nodes) (visit_node-Answers fuel)
                  (children_at nodes i) (set_state s i entered) (length-set_state s i entered ∙ h)
                  (omega (arith, fewer)) in
              subst (λ v. Fine (unseen_count s) (length nodes) (answer v)) (sym e)
                (Fine-weaker (unseen_count (set_state s i entered)) (unseen_count s) (length nodes)
                  (close i inner) (omega (arith, fewer))
                  (Fine-close (unseen_count (set_state s i entered)) (length nodes) i inner below)))
      ]

all_unseen : (n : ℕ) → (unseen_count (replicate n unseen) ≡ n) × (length (replicate n unseen) ≡ n)
all_unseen zero = (refl, refl)
all_unseen (suc n) = (omega (arith, (all_unseen n).0), omega (arith, (all_unseen n).1))

Fine-answered : (n len : ℕ) (v : Visited) → Fine n len v → v ≢ exhausted
Fine-answered n len (done s) f e = ground arith
Fine-answered n len (refused m) f e = ground arith
Fine-answered n len exhausted f e = ground arith

-- The walk of `ValidateTilePlan` from the root of at least one node, whatever the nodes list as children, comes to
-- an answer: the recursion is at most one deeper than there are nodes.
pub walk_from_root-answers :
    (n : TilePlanNode) (ns : List TilePlanNode) → walk_from_root (n ∷ ns) ≢ exhausted
unfolding walk_from_root
walk_from_root-answers n ns =
    let nodes = n ∷ ns in
    let start = all_unseen (length nodes) in
    Fine-answered _ (length nodes) (walk_from_root nodes) (
      visit_node-Answers nodes (suc (length nodes)) (root_index 0 0 nodes)
        (replicate (length nodes) unseen) start.1
        (root_index-bound 0 0 nodes (length nodes) (omega arith) (omega arith))
        (omega (arith, start.0)))
