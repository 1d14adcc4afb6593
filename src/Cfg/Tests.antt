-- ===== src/Cfg/Tests.antt =====
-- The theorems about the control-flow graph at a concrete graph: a branch whose arms rejoin.
use flawed.Dominators.Walks.{Dominates, on_entry}
use flawed.Cfg.Order.{
  Before, precedes-asymm, precedes_trans, Placed, Before-precedes, precedes_decides,
  reachable_between_decides,
}
use flawed.Reach.{here, Walk, step}
use flawed.Base.{
  ℕ, ◌+◌, String, ◌≡◌, refl, ap, ◌∙◌, ◌≢◌, ◌↔◌, inl, inr, Bool, true, false, none, some, List, [],
  ◌∷◌, nat_eq, string_eq, contains, map,
}
use flawed.Types.{SourceSpan, CfgBlock, CfgEdge}
use flawed.Cfg.{
  ControlFlowGraph, control_flow_graph, block_for, block_in, find_entry, reachable_between,
  dominates, build_cfg_adjacency, precedes, Adjacency,
}
use flawed.Cfg.Blocks.{successors, predecessors, successors-ids}
use flawed.Cfg.Dominance.{control_flow_graph_total, dominates_decides}

abbrev at_line : ℕ → SourceSpan
at_line n = record { file = "app.py"; line = n; column = 4; end_line = n; end_column = 20 }

abbrev a_block : ℕ → List ℕ → List ℕ → CfgBlock
a_block n succs preds = record {
  id = n;
  statements = at_line (n + 1) ∷ [];
  successors = succs;
  predecessors = preds;
  condition_expr = none;
  condition_location = none;
  value_predicates = [];
}

abbrev an_edge : ℕ → ℕ → String → CfgEdge
an_edge u v label = record { source_id = u; target_id = v; label = label; is_exceptional = false }

abbrev branch_blocks : List CfgBlock
branch_blocks =
    a_block 0 (1 ∷ 2 ∷ []) []
    ∷ a_block 1 (3 ∷ []) (0 ∷ [])
    ∷ a_block 2 (3 ∷ []) (0 ∷ [])
    ∷ a_block 3 [] (1 ∷ 2 ∷ [])
    ∷ []

abbrev branch_edges : List CfgEdge
branch_edges =
    an_edge 0 1 "true"
    ∷ an_edge 0 2 "false"
    ∷ an_edge 1 3 "fallthrough"
    ∷ an_edge 2 3 "fallthrough"
    ∷ []

abbrev branch : ControlFlowGraph
branch = (control_flow_graph_total branch_blocks branch_edges []).0

branch_made : control_flow_graph branch_blocks branch_edges [] ≡ some branch
branch_made = (control_flow_graph_total branch_blocks branch_edges []).1

branch_root : branch.entry_id ≡ some 0
unfolding find_entry
branch_root = (control_flow_graph_total branch_blocks branch_edges []).6 ∙ refl

branch_block :
    (n : ℕ) (b : CfgBlock)
    → block_in branch_blocks (at_line n) ≡ some b
    → block_for branch (at_line n) ≡ some b
unfolding block_for
branch_block n b h =
    ap (λ l. block_in l (at_line n)) (control_flow_graph_total branch_blocks branch_edges []).2 ∙ h

found_0 : block_for branch (at_line 1) ≡ some (a_block 0 (1 ∷ 2 ∷ []) [])
unfolding block_in
found_0 = branch_block 1 _ refl

found_1 : block_for branch (at_line 2) ≡ some (a_block 1 (3 ∷ []) (0 ∷ []))
unfolding block_in
found_1 = branch_block 2 _ refl

found_3 : block_for branch (at_line 4) ≡ some (a_block 3 [] (1 ∷ 2 ∷ []))
unfolding block_in
found_3 = branch_block 4 _ refl

branch_step :
    (u v : ℕ)
    → contains ((build_cfg_adjacency branch_blocks branch_edges).succs u) v ≡ true
    → contains (branch.adjacency.succs u) v ≡ true
branch_step u v h =
    ap (λ (a : Adjacency). contains (a.succs u) v)
      (control_flow_graph_total branch_blocks branch_edges []).5
    ∙ h

to_1 : Walk branch.adjacency.succs 0 1
unfolding build_cfg_adjacency
to_1 = step here (branch_step 0 1 refl)

to_3 : Walk branch.adjacency.succs 0 3
unfolding build_cfg_adjacency
to_3 = step to_1 (branch_step 1 3 refl)

abbrev PlacedAt : (n : ℕ) → Type 0
PlacedAt n = Placed branch_blocks branch_edges [] branch branch_made 0 branch_root (at_line n)

abbrev placed_0 : PlacedAt 1
placed_0 = record { block = a_block 0 (1 ∷ 2 ∷ []) []; found = found_0; live = here }

abbrev placed_1 : PlacedAt 2
placed_1 = record { block = a_block 1 (3 ∷ []) (0 ∷ []); found = found_1; live = to_1 }

abbrev placed_3 : PlacedAt 4
placed_3 = record { block = a_block 3 [] (1 ∷ 2 ∷ []); found = found_3; live = to_3 }

dominates_decides_example :
    (r : Bool) × (dominates branch (at_line 2) (at_line 4) ≡ some r)
    × ((r ≡ true) ↔ Dominates branch.adjacency.succs 0 1 3)
dominates_decides_example =
    dominates_decides branch_blocks branch_edges [] branch branch_made 0 branch_root (at_line 2)
      (at_line 4) (a_block 1 (3 ∷ []) (0 ∷ [])) (a_block 3 [] (1 ∷ 2 ∷ [])) found_1 found_3 to_3

control_flow_graph_total_example :
    (g : ControlFlowGraph) × (control_flow_graph branch_blocks branch_edges [] ≡ some g)
    × (g.block_list ≡ branch_blocks)
    × (g.edge_list ≡ branch_edges)
    × (g.try_regions ≡ [])
    × (g.adjacency ≡ build_cfg_adjacency branch_blocks branch_edges)
    × (g.entry_id ≡ find_entry branch_blocks)
control_flow_graph_total_example = control_flow_graph_total branch_blocks branch_edges []

precedes_decides_example :
    (r : Bool) × (precedes branch (at_line 1) (at_line 4) ≡ some r)
    × ((r ≡ true)
        ↔ Before branch_blocks branch_edges [] branch branch_made 0 branch_root placed_0 placed_3)
precedes_decides_example =
    precedes_decides branch_blocks branch_edges [] branch branch_made 0 branch_root placed_0
      placed_3

abbrev mid_line : SourceSpan
mid_line = record { file = "app.py"; line = 1; column = 8; end_line = 1; end_column = 20 }

found_mid : block_for branch mid_line ≡ some (a_block 0 (1 ∷ 2 ∷ []) [])
unfolding block_in block_for
found_mid =
    ap (λ l. block_in l mid_line) (control_flow_graph_total branch_blocks branch_edges []).2 ∙ refl

abbrev placed_mid : Placed branch_blocks branch_edges [] branch branch_made 0 branch_root mid_line
placed_mid = record { block = a_block 0 (1 ∷ 2 ∷ []) []; found = found_mid; live = here }

first_precedes_mid : precedes branch (at_line 1) mid_line ≡ some true
first_precedes_mid =
    Before-precedes branch_blocks branch_edges [] branch branch_made 0 branch_root placed_0
      placed_mid (inl (refl, refl))

mid_precedes_last : precedes branch mid_line (at_line 4) ≡ some true
mid_precedes_last =
    Before-precedes branch_blocks branch_edges [] branch branch_made 0 branch_root placed_mid
      placed_3 (inr (refl, λ w. on_entry branch.adjacency.succs 0 w))

precedes_trans_example : precedes branch (at_line 1) (at_line 4) ≡ some true
precedes_trans_example =
    precedes_trans branch_blocks branch_edges [] branch branch_made 0 branch_root placed_0
      placed_mid placed_3 first_precedes_mid mid_precedes_last

precedes-asymm_example : precedes branch (at_line 4) mid_line ≢ some true
precedes-asymm_example =
    precedes-asymm branch_blocks branch_edges [] branch branch_made 0 branch_root placed_mid
      placed_3 mid_precedes_last

reachable_between_decides_example :
    (r : Bool) × (reachable_between branch (at_line 2) (at_line 4) ≡ some r)
    × ((r ≡ true) ↔ ∥ Walk branch.adjacency.succs 1 3 ∥₁)
reachable_between_decides_example =
    reachable_between_decides branch_blocks branch_edges [] branch branch_made 0 branch_root
      placed_1 placed_3 refl

successors-ids_example :
    (map (λ b. b.id) (successors branch 0) ≡ branch.adjacency.succs 0)
    × (map (λ b. b.id) (predecessors branch 0) ≡ branch.adjacency.preds 0)
successors-ids_example = successors-ids branch_blocks branch_edges [] branch branch_made 0
