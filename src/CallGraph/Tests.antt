-- ===== src/CallGraph/Tests.antt =====
-- The call graph at three edges, one of them with an unresolved callee.
use flawed.Base.{
  ℕ, String, ◌≡◌, refl, true, Option, none, some, List, [], ◌∷◌, nat_eq, string_eq, contains,
  pair_eq,
}
use flawed.Types.{SourceSpan, CallEdge, ExtractionProvenance, ast, resolved, unresolved}
use flawed.CallGraph.{call_graph, callees, callers, edge_from_to, reachable_within}
use flawed.CallGraph.{levels, visit_level, visit_callees, add_calls, add_call, index_callee}
use flawed.CallGraph.Levels.{Called}
use mathlib.Core.Logic.{◌↔◌}
use flawed.CallGraph.Complete.{reachable_within_decides}
use flawed.CallGraph.Edges.{is_call, has_call, find, callees-callers, edge_from_to-find}

abbrev at_line : ℕ → SourceSpan
at_line n = record { file = "app.py"; line = n; column = 4; end_line = n; end_column = 20 }

abbrev a_pass : ExtractionProvenance
a_pass = record { producer = "call_graph_pass"; producer_version = "1"; artifact = "app.py" }

abbrev a_call : String → Option String → ℕ → CallEdge
a_call caller callee n = record {
  caller_fqn = caller;
  callee_fqn = callee;
  arguments = [];
  resolution = elim callee [ some _ ↦ resolved | none ↦ unresolved ];
  source = ast;
  unresolved_reason = none;
  location = at_line n;
  provenance = a_pass;
  call_expression = none;
  dynamic_dispatch_kind = none;
}

abbrev some_calls : List CallEdge
some_calls =
    a_call "app.view" (some "app.load") 3
    ∷ a_call "app.view" none 4
    ∷ a_call "app.load" (some "db.query") 9
    ∷ []

callees-callers_example :
    (contains (callees (call_graph some_calls) "app.view") "app.load"
      ≡ has_call some_calls "app.view" "app.load")
    × (contains (callers (call_graph some_calls) "app.load") "app.view"
        ≡ has_call some_calls "app.view" "app.load")
callees-callers_example = callees-callers some_calls "app.view" "app.load"

edge_from_to-find_example :
    edge_from_to (call_graph some_calls) "app.load" "db.query"
    ≡ find (is_call "app.load" "db.query") some_calls
edge_from_to-find_example = edge_from_to-find some_calls "app.load" "db.query"

found_query : contains (reachable_within (call_graph some_calls) "app.view" 2) "db.query" ≡ true
unfolding reachable_within levels visit_level visit_callees call_graph add_calls add_call
    index_callee
found_query = refl

view_known : contains (call_graph some_calls).resolved_nodes "app.view" ≡ true
unfolding call_graph add_calls add_call index_callee
view_known = refl

reachable_within_decides_example :
    (contains (reachable_within (call_graph some_calls) "app.view" 2) "db.query" ≡ true)
    ↔ Called (call_graph some_calls) "app.view" 2 "db.query"
reachable_within_decides_example =
    reachable_within_decides (call_graph some_calls) "app.view" 2 "db.query" view_known
