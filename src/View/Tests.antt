-- ===== src/View/Tests.antt =====
-- The theorems about control-flow views at a function of one block and at the graph of a branch.
use flawed.Base.{
  ℕ, ◌+◌, String, ◌≡◌, refl, sym, ap, ◌∙◌, subst, ◌≢◌, ◌↔◌, Bool, true, false, Option, none, some,
  List, [], ◌∷◌, if◌then◌else◌, ◌==◌, nat_eq, string_eq, contains, pair_eq,
}
use flawed.Types.{SourceSpan, CfgBlock, CfgEdge}
use flawed.Reach.{Walk, here}
use flawed.CallGraph.{CallGraph, call_graph}
use flawed.Cfg.{
  ControlFlowGraph, control_flow_graph, block_for, block_in, find_entry, precedes, any_contains,
  span_contains_start,
}
use flawed.Cfg.Dominance.{control_flow_graph_total}
use flawed.View.Control.{Location, source_span}
use flawed.View.Arms.{successor_ids, reachable_ids, branch_arm_block_ids}
use flawed.View.Search.{Disjoint, branch_arm_block_ids-Disjoint}
use flawed.View.Reached.{Reached, reachable_ids_decides}
use flawed.View.Across.{AcrossView, IsLive, across_precedes, owning_fqn, across_precedes-asymm}

abbrev at_line : ℕ → SourceSpan
at_line n = record { file = "app.py"; line = n; column = 4; end_line = n; end_column = 20 }

abbrev place : ℕ → Location
place n = record { file = "app.py"; line = n; column = 4; end_line = none; end_column = none }

abbrev only_block : CfgBlock
only_block = record {
  id = 0;
  statements = at_line 1 ∷ at_line 2 ∷ [];
  successors = [];
  predecessors = [];
  condition_expr = none;
  condition_location = none;
  value_predicates = [];
}

abbrev straight : ControlFlowGraph
straight = (control_flow_graph_total (only_block ∷ []) [] []).0

abbrev of_branch : ℕ → String → CfgEdge
of_branch target label = record {
  source_id = 0;
  target_id = target;
  label = label;
  is_exceptional = false;
}

abbrev arm_block : ℕ → CfgBlock
arm_block n = record {
  id = n;
  statements = at_line (n + 1) ∷ [];
  successors = [];
  predecessors = [];
  condition_expr = none;
  condition_location = none;
  value_predicates = [];
}

abbrev branch : ControlFlowGraph
branch =
    (control_flow_graph_total (arm_block 0 ∷ arm_block 1 ∷ arm_block 2 ∷ [])
      (of_branch 1 "true" ∷ of_branch 2 "false" ∷ []) []).0

straight_made : control_flow_graph (only_block ∷ []) [] [] ≡ some straight
straight_made = (control_flow_graph_total (only_block ∷ []) [] []).1

straight_block : (s : SourceSpan) → block_for straight s ≡ block_in (only_block ∷ []) s
unfolding block_for
straight_block s = ap (λ l. block_in l s) (control_flow_graph_total (only_block ∷ []) [] []).2

straight_root : straight.entry_id ≡ some 0
unfolding find_entry
straight_root = (control_flow_graph_total (only_block ∷ []) [] []).6 ∙ refl

if_some : {A : Type 0} (c : Bool) (x y : A) → (if c then some x else none) ≡ some y → x ≡ y
if_some true x y h = cc
if_some false x y h = cc

only_one_block :
    (s : SourceSpan) (b : CfgBlock) → block_in (only_block ∷ []) s ≡ some b → only_block ≡ b
unfolding block_in
only_one_block s b h = if_some _ only_block b h

straight-IsLive : IsLive straight
straight-IsLive = record {
  block_list = only_block ∷ [];
  edge_list = [];
  regions = [];
  made = straight_made;
  root = 0;
  root_eq = straight_root;
  live = λ s b h.
      subst (λ (c : CfgBlock). Walk straight.adjacency.succs 0 c.id)
        (only_one_block s b (sym (straight_block s) ∙ h)) here;
}

abbrev cfg : String → Option ControlFlowGraph
cfg fqn = if fqn == "app.f" then some straight else none

cfg-IsLive : (fqn : String) (g : ControlFlowGraph) → cfg fqn ≡ some g → IsLive g
cfg-IsLive fqn g h = subst IsLive (if_some (fqn == "app.f") straight g h) straight-IsLive

abbrev calls : CallGraph
calls = call_graph []

abbrev view : AcrossView
view = record { root_fqn = "app.f"; reachable_fqns = [] }

found_1 : block_for straight (source_span (place 1)) ≡ some only_block
unfolding block_in any_contains span_contains_start
found_1 = straight_block (source_span (place 1)) ∙ refl

found_2 : block_for straight (source_span (place 2)) ≡ some only_block
unfolding block_in any_contains span_contains_start
found_2 = straight_block (source_span (place 2)) ∙ refl

-- the owner of a location, given the block that the one function has for it
abbrev owner : Option CfgBlock → Option String
owner o = if (elim o as (λ _. Bool) [ none ↦ false | some b ↦ true ]) then some "app.f" else none

owned_1 : owning_fqn cfg calls view (place 1) ≡ some "app.f"
unfolding owning_fqn
owned_1 = ap owner found_1

owned_2 : owning_fqn cfg calls view (place 2) ≡ some "app.f"
unfolding owning_fqn
owned_2 = ap owner found_2

in_order : precedes straight (source_span (place 1)) (source_span (place 2)) ≡ some true
unfolding precedes
in_order = rw (found_1, precedes) (rw found_2 refl)

across_run : across_precedes cfg calls view (place 1) (place 2) ≡ some true
unfolding across_precedes
across_run = rw (owned_1, across_precedes) (rw owned_2 in_order)

-- -- witnesses --------------------------------------------------------

branch_arm_block_ids-Disjoint_example :
    Disjoint
      (branch_arm_block_ids (record { graph = some branch; block_filter = none }) (place 1) true)
      (branch_arm_block_ids (record { graph = some branch; block_filter = none }) (place 1) false)
branch_arm_block_ids-Disjoint_example =
    branch_arm_block_ids-Disjoint (record { graph = some branch; block_filter = none }) (place 1)

reachable_ids_decides_example :
    (r : List ℕ) × (reachable_ids branch (1 ∷ []) (2 ∷ []) ≡ some r)
    × ((x : ℕ) → (contains r x ≡ true) ↔ Reached (successor_ids branch) (1 ∷ []) (2 ∷ []) x)
reachable_ids_decides_example = reachable_ids_decides branch (1 ∷ []) (2 ∷ [])

across_precedes-asymm_example : across_precedes cfg calls view (place 2) (place 1) ≢ some true
across_precedes-asymm_example =
    across_precedes-asymm cfg calls view cfg-IsLive (place 1) (place 2) across_run
