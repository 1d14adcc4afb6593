-- ===== src/Builder/Tests.antt =====
-- The builder at a function with a loop that a `try` leaves: each result is checked by running it.
use flawed.Base.{
  ℕ, ◌≤◌, ◌≡◌, refl, true, false, none, some, [], ◌∷◌, map, length, nat_eq, string_eq, contains,
}
use flawed.Types.{SourceSpan, CfgEdge}
use flawed.Cfg.{ControlFlowGraph, control_flow_graph, build_cfg_adjacency}
use flawed.Cfg.Edges.{has_edge}
use flawed.Builder.{
  build, walk_function, start_state, process_stmts, process_try_body, implicit_return,
}
use flawed.Builder.State.{
  ◌>>=◌, ◌>>◌, pure, new_block, add_edge_with, add_statement, set_condition, report_depth,
  degrade_depth_budget, in_loop, if_joined, connect,
}
use flawed.Builder.Steps.{
  capture_optional, jump, after_small, process_simple_line, exception_edges, complete_try,
  enter_else, remove_edge, record_region, try_join, within_budget, process_loop,
}
use flawed.Builder.Safe.{AllEdges, AllRegions, depth_errors}
use flawed.Builder.Graph.{
  build-AllEdges, build-AllRegions, build-reports_once, build-control_flow_graph, build-succs,
}
use flawed.Builder.Syntax.{
  returns, breaks, continues, assign, expr, simple_line, while_stmt, try_stmt, Stmts, done,
  then_stmt, absent, clause, no_handlers, handler,
}

abbrev at_line : ℕ → SourceSpan
at_line n = record { file = "app.py"; line = n; column = 4; end_line = n; end_column = 20 }

-- while more():
--     try:
--         x = yield
--     except Stop:
--         break
--     else:
--         continue
--     finally:
--         close()
-- return
abbrev sample_body : Stmts
sample_body =
    then_stmt (at_line 1)
      (while_stmt "more()" (at_line 1)
        (then_stmt (at_line 2)
          (try_stmt (then_stmt (at_line 3) (simple_line (assign none true ∷ [])) done)
            (handler ("Stop" ∷ []) none (then_stmt (at_line 5) (simple_line (breaks ∷ [])) done)
              no_handlers)
            (clause (then_stmt (at_line 7) (simple_line (continues ∷ [])) done))
            (clause (then_stmt (at_line 9) (simple_line (expr false ∷ [])) done)))
          done)
        absent)
      (then_stmt (at_line 10) (simple_line (returns none ∷ [])) done)

abbrev ends : CfgEdge → ℕ × ℕ
ends x = (x.source_id, x.target_id)

test_edges :
    map ends (build "app.py" 200 sample_body).edges
    ≡ (0, 2)
      ∷ (2, 4)
      ∷ (7, 3)
      ∷ (4, 8)
      ∷ (8, 9)
      ∷ (9, 7)
      ∷ (9, 10)
      ∷ (10, 2)
      ∷ (6, 5)
      ∷ (5, 2)
      ∷ (2, 3)
      ∷ (3, 1)
      ∷ []
unfolding build walk_function start_state process_stmts process_try_body implicit_return ◌>>=◌ ◌>>◌
    pure new_block add_edge_with add_statement set_condition report_depth degrade_depth_budget
    in_loop if_joined connect capture_optional jump after_small process_simple_line exception_edges
    complete_try enter_else remove_edge record_region try_join within_budget process_loop
test_edges = refl

-- past the budget, the body of the loop is opaque
test_budget : depth_errors (build "app.py" 0 sample_body).errors ≡ 1
unfolding build walk_function start_state process_stmts process_try_body implicit_return ◌>>=◌ ◌>>◌
    pure new_block add_edge_with add_statement set_condition report_depth degrade_depth_budget
    in_loop if_joined connect capture_optional jump after_small process_simple_line exception_edges
    complete_try enter_else remove_edge record_region try_join within_budget process_loop
test_budget = refl

build-AllEdges_example :
    AllEdges (length (build "app.py" 200 sample_body).blocks) (build "app.py" 200 sample_body).edges
build-AllEdges_example = build-AllEdges "app.py" 200 sample_body

build-AllRegions_example :
    AllRegions
      (length (build "app.py" 200 sample_body).blocks)
      (build "app.py" 200 sample_body).try_regions
build-AllRegions_example = build-AllRegions "app.py" 200 sample_body

build-reports_once_example : depth_errors (build "app.py" 0 sample_body).errors ≤ 1
build-reports_once_example = build-reports_once "app.py" 0 sample_body

build-control_flow_graph_example :
    let r = build "app.py" 200 sample_body in
    (g : ControlFlowGraph) × (control_flow_graph r.blocks r.edges r.try_regions ≡ some g)
    × (g.entry_id ≡ some 0)
build-control_flow_graph_example = build-control_flow_graph "app.py" 200 sample_body

build-succs_example :
    let r = build "app.py" 200 sample_body in
    contains ((build_cfg_adjacency r.blocks r.edges).succs 2) 4 ≡ has_edge r.edges 2 4
build-succs_example = build-succs "app.py" 200 sample_body 2 4
