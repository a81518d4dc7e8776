-- ===== src/Tiling/Plan/Validate.antt =====
-- `ValidateTilePlan` of Tiling.cpp. The walk over the children runs on fuel.
use usd_pointcloud_plugins.Prelude.{
  ℕ, zero, suc, Bool, true, false, not, ◌&&◌, ◌||◌, if◌then◌else◌, ◌==◌, List, [], ◌∷◌, ◌++◌,
  is_empty, any_of, length, replicate, Option, none, some, String,
}
use usd_pointcloud_plugins.Prelude.Int.{pos, negsuc, eqb_ℤ, ltb_ℤ, leb_ℤ, ◌-ℤ◌}
use usd_pointcloud_plugins.Core.Diagnostic.{Diagnostic, DiagnosticCode, an_error}
use usd_pointcloud_plugins.Core.TileId.{TileId}
use usd_pointcloud_plugins.Tiling.Ids.{tile_id_equal}
use usd_pointcloud_plugins.Tiling.Plan.{
  TilePlanNode, TilePlan, plan_is_valid, find_node, find_index,
}

-- A refusal is the message of its error.
unfoldable pub refuse_if : Bool → String → Option String → Option String
refuse_if bad m rest = if bad then some m else rest

unfoldable pub or_then : Option String → Option String → Option String
or_then none rest = rest
or_then (some m) rest = some m

unfoldable pub is_root : TilePlanNode → Bool
is_root n = eqb_ℤ n.parent.level (negsuc 0)

unfoldable pub lists : TileId → Option TilePlanNode → Bool
lists id none = false
lists id (some n) = any_of (λ c. tile_id_equal c id) n.children

unfoldable pub parent_refusal : List TilePlanNode → TilePlanNode → Option String
parent_refusal nodes n =
    if leb_ℤ (pos 0) n.parent.level
    then refuse_if (not (eqb_ℤ (n.id.level -ℤ n.parent.level) (pos 1)))
        "tile plan parent and child levels are not adjacent"
        (refuse_if (not (lists n.id (find_node nodes n.parent)))
          "tile plan node has an inconsistent parent relationship" none)
    else none

unfoldable pub is_child_of : TilePlanNode → TileId → Option TilePlanNode → Bool
is_child_of n c none = false
is_child_of n c (some m) = eqb_ℤ (c.level -ℤ n.id.level) (pos 1) && tile_id_equal m.parent n.id

unfoldable pub children_refusal :
    List TilePlanNode → TilePlanNode → List TileId → List TileId → Option String
children_refusal nodes n before [] = none
children_refusal nodes n before (c ∷ cs) =
    refuse_if (any_of (λ b. tile_id_equal b c) before)
      "tile plan contains duplicate child identities"
      (refuse_if (not (is_child_of n c (find_node nodes c)))
        "tile plan node has an inconsistent child relationship"
        (children_refusal nodes n (before ++ c ∷ []) cs))

-- The body of the loop over the nodes; `before` are the nodes of the earlier rounds.
unfoldable pub node_refusal : List TilePlanNode → List TilePlanNode → TilePlanNode → Option String
node_refusal nodes before n =
    refuse_if (any_of (λ p. tile_id_equal p.id n.id) before)
      "tile plan contains duplicate node identities"
      (refuse_if
        (is_root n
          && not (eqb_ℤ n.parent.x (pos 0) && eqb_ℤ n.parent.y (pos 0) && eqb_ℤ n.parent.z (pos 0)))
        "tile plan root has an invalid parent sentinel"
        (refuse_if (ltb_ℤ n.parent.level (negsuc 0)) "tile plan node has an invalid parent level" (
          or_then (parent_refusal nodes n) (
            or_then (children_refusal nodes n [] n.children) (
              refuse_if (not n.is_leaf && is_empty n.children)
                "tile plan contains an internal node without children" none)))))

unfoldable pub nodes_refusal :
    List TilePlanNode → List TilePlanNode → List TilePlanNode → Option String
nodes_refusal nodes before [] = none
nodes_refusal nodes before (n ∷ ns) =
    or_then (node_refusal nodes before n) (nodes_refusal nodes (before ++ n ∷ []) ns)

-- `rootCount` and `rootIndex` after the loop.
unfoldable pub root_count : List TilePlanNode → ℕ
root_count [] = 0
root_count (n ∷ ns) = if is_root n then suc (root_count ns) else root_count ns

unfoldable pub root_index : ℕ → ℕ → List TilePlanNode → ℕ
root_index from found [] = found
root_index from found (n ∷ ns) = root_index (suc from) (if is_root n then from else found) ns

pub data VisitState : Type 0 where
  unseen entered closed : VisitState

-- What a visit gives: the states after it, a refusal with or without a message, or no answer.
pub data Visited : Type 0 where
  done : List VisitState → Visited
  refused : Option String → Visited
  exhausted : Visited

unfoldable pub set_state : List VisitState → ℕ → VisitState → List VisitState
set_state [] i v = []
set_state (s ∷ ss) zero v = v ∷ ss
set_state (s ∷ ss) (suc i) v = s ∷ set_state ss i v

unfoldable pub state_at : List VisitState → ℕ → VisitState
state_at [] i = unseen
state_at (s ∷ ss) zero = s
state_at (s ∷ ss) (suc i) = state_at ss i

unfoldable pub children_at : List TilePlanNode → ℕ → List TileId
children_at [] i = []
children_at (n ∷ ns) zero = n.children
children_at (n ∷ ns) (suc i) = children_at ns i

abbrev pub Go : Type 0
Go = ℕ → List VisitState → Visited

unfoldable pub and_then : Visited → (List VisitState → Visited) → Visited
and_then (done s) rest = rest s
and_then (refused m) rest = refused m
and_then exhausted rest = exhausted

unfoldable pub visit_found : Go → (List VisitState → Visited) → Option ℕ → List VisitState → Visited
visit_found go rest none s = refused none
visit_found go rest (some i) s = and_then (go i s) rest

unfoldable pub visit_children : Go → List TilePlanNode → List TileId → List VisitState → Visited
visit_children go nodes [] s = done s
visit_children go nodes (c ∷ cs) s =
    visit_found go (visit_children go nodes cs) (find_index 0 nodes c) s

unfoldable pub close : ℕ → Visited → Visited
close i (done s) = done (set_state s i closed)
close i (refused m) = refused m
close i exhausted = exhausted

unfoldable pub by_state : VisitState → (List VisitState → Visited) → List VisitState → Visited
by_state unseen enter s = enter s
by_state entered enter s = refused (some "tile plan contains a parent-child cycle")
by_state closed enter s = done s

unfoldable pub visit_node : ℕ → List TilePlanNode → Go
visit_node zero nodes i s = exhausted
visit_node (suc fuel) nodes i s =
    by_state (state_at s i)
      (λ t. close i (
        visit_children (visit_node fuel nodes) nodes (children_at nodes i) (set_state t i entered)))
      s

unfoldable pub is_unseen : VisitState → Bool
is_unseen unseen = true
is_unseen entered = false
is_unseen closed = false

-- The walk from the root; each visit opens a node, so one more than the nodes is enough fuel.
unfoldable pub walk_from_root : List TilePlanNode → Visited
walk_from_root nodes =
    visit_node (suc (length nodes)) nodes (root_index 0 0 nodes) (replicate (length nodes) unseen)

abbrev pub refusal_errors : Option String → List Diagnostic
refusal_errors none = []
refusal_errors (some m) = an_error DiagnosticCode.invalid_point_tile m ∷ []

abbrev pub refusal : Option String → Bool × List Diagnostic
refusal m = (false, refusal_errors m)

unfoldable pub finish_walk : Visited → Bool × List Diagnostic
finish_walk (done s) =
    if any_of is_unseen s
    then refusal (some "tile plan contains a node disconnected from its root")
    else (true, [])
finish_walk (refused m) = refusal m
finish_walk exhausted = refusal none

unfoldable pub validate_roots : List TilePlanNode → Bool × List Diagnostic
validate_roots [] = (true, [])
validate_roots (n ∷ ns) =
    if not (root_count (n ∷ ns) == 1)
    then refusal (some "tile plan must contain exactly one root node")
    else finish_walk (walk_from_root (n ∷ ns))

unfoldable pub header_refusal : TilePlan → Option String
header_refusal p =
    refuse_if
      (is_empty p.planner_id
        || any_of (λ b. b == b'\n') p.planner_id
        || any_of (λ b. b == b'\r') p.planner_id)
      "tile plan requires a non-empty single-line planner identity"
      (refuse_if (p.planner_version == 0) "tile plan planner version must be greater than zero"
        (refuse_if (not (plan_is_valid p)) "tile plan contains an invalid node" none))

unfoldable pub validate_nodes : List TilePlanNode → Option String → Bool × List Diagnostic
validate_nodes nodes none = validate_roots nodes
validate_nodes nodes (some m) = refusal (some m)

unfoldable pub validate_tile_plan : TilePlan → Bool × List Diagnostic
validate_tile_plan p =
    validate_nodes p.nodes (or_then (header_refusal p) (nodes_refusal p.nodes [] p.nodes))
