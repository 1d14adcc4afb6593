-- ===== src/View/Arms.antt =====
-- The arms of a branch, src/flawed/_semantic/_cfgview.py: a depth-first search from the targets of one
-- direction that does not enter those of the other.
use flawed.Base.{
  ℕ, zero, suc, ◌+◌, String, Bool, true, false, not, ◌&&◌, ◌||◌, Option, none, some, List, [], ◌∷◌,
  map, if◌then◌else◌, add, diff, length, ◌==◌, nat_eq, string_eq, contains, pair_eq,
}
use flawed.Types.{SourceSpan, CfgBlock, CfgEdge}
use flawed.Cfg.{ControlFlowGraph, block_for, key_ids}
use flawed.Cfg.Blocks.{successors}
use flawed.View.Control.{Location, source_span, ControlFlowView}

abbrev pub reversed : List ℕ → List ℕ → List ℕ
reversed [] ys = ys
reversed (x ∷ xs) ys = reversed xs (x ∷ ys)

abbrev pub successor_ids : ControlFlowGraph → ℕ → List ℕ
successor_ids g id = map (λ (b : CfgBlock). b.id) (successors g id)

module _ (succ : ℕ → List ℕ) (blocked : List ℕ) where
  -- the loop of `_reachable_block_ids`: `pending` has the end of the list first, where it is popped
  unfoldable pub search : ℕ → List ℕ → List ℕ → Option (List ℕ)
  search fuel seen [] = some seen
  search zero seen (id ∷ pending) = none
  search (suc fuel) seen (id ∷ pending) = elim (contains seen id || contains blocked id) [
    | true ↦ search fuel seen pending
    | false ↦ search fuel (add seen id) (reversed (succ id) pending)
  ]

  -- the successors of the keys that are not seen yet
  unfoldable pub unseen_edges : List ℕ → List ℕ → ℕ
  unseen_edges [] seen = 0
  unseen_edges (k ∷ ks) seen =
      (if contains seen k then 0 else length (succ k)) + unseen_edges ks seen

module _ (g : ControlFlowGraph) where
  -- one round for each start and each edge
  unfoldable pub reachable_ids : List ℕ → List ℕ → Option (List ℕ)
  unfolding search unseen_edges
  reachable_ids starts blocked =
      search (successor_ids g) blocked
        (length starts + unseen_edges (successor_ids g) blocked (key_ids g.block_list) []) []
        (reversed starts [])

  abbrev targets_in : List CfgEdge → ℕ → String → List ℕ
  targets_in [] block_id label = []
  targets_in (x ∷ xs) block_id label =
      if x.source_id == block_id && x.label == label
      then x.target_id ∷ targets_in xs block_id label
      else targets_in xs block_id label

  unfoldable pub branch_targets : ℕ → Bool → List ℕ
  branch_targets block_id direction =
      targets_in g.edge_list block_id (if direction then "true" else "false")

  -- what `_branch_block_ids` returns of its two searches
  abbrev pub arm_of : Bool → Option (List ℕ) → Option (List ℕ) → Option (List ℕ)
  arm_of include_join none opposite = none
  arm_of true (some selected) opposite = some selected
  arm_of false (some selected) none = none
  arm_of false (some selected) (some opposite) = some (diff selected opposite)

  -- the targets of the selected and of the opposite direction
  unfoldable pub arm_from : Bool → List ℕ → List ℕ → Option (List ℕ)
  arm_from include_join [] opposite = some []
  arm_from include_join (t ∷ ts) opposite =
      arm_of include_join (reachable_ids (t ∷ ts) opposite) (reachable_ids opposite (t ∷ ts))

  unfoldable pub branch_ids_at : ℕ → Bool → Bool → Option (List ℕ)
  branch_ids_at block_id direction include_join =
      arm_from include_join (branch_targets block_id direction)
        (branch_targets block_id (not direction))

abbrev pub branch_ids_of : ControlFlowGraph → Option CfgBlock → Bool → Bool → Option (List ℕ)
branch_ids_of g none direction include_join = some []
branch_ids_of g (some b) direction include_join = branch_ids_at g b.id direction include_join

abbrev pub branch_ids_in : Option ControlFlowGraph → SourceSpan → Bool → Bool → Option (List ℕ)
branch_ids_in none span direction include_join = some []
branch_ids_in (some g) span direction include_join =
    branch_ids_of g (block_for g span) direction include_join

unfoldable pub branch_block_ids : ControlFlowView → Location → Bool → Bool → Option (List ℕ)
branch_block_ids view loc direction include_join =
    branch_ids_in view.graph (source_span loc) direction include_join

abbrev pub branch_arm_block_ids : ControlFlowView → Location → Bool → Option (List ℕ)
branch_arm_block_ids view loc direction = branch_block_ids view loc direction false

abbrev pub branch_path_block_ids : ControlFlowView → Location → Bool → Option (List ℕ)
branch_path_block_ids view loc direction = branch_block_ids view loc direction true
