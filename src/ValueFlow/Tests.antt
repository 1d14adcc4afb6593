-- ===== src/ValueFlow/Tests.antt =====
-- The value-flow graph at one assignment.
use flawed.Base.{ℕ, ◌≡◌, none, some, [], ◌∷◌, keep, ◌==◌, nat_eq, string_eq, pair_eq}
use flawed.Types.{SourceSpan, ValueFlowEdge, ExtractionProvenance}
use flawed.Types
use flawed.ValueFlow.{value_flow_graph, flows_from, flows_to, key_of, flows-keep}

abbrev at_line : ℕ → SourceSpan
at_line n = record { file = "app.py"; line = n; column = 4; end_line = n; end_column = 20 }

abbrev a_pass : ExtractionProvenance
a_pass = record { producer = "value_flow_pass"; producer_version = "1"; artifact = "app.py" }

abbrev a_flow : ValueFlowEdge
a_flow = record {
  source_expr = "request.args";
  source_location = at_line 2;
  target_expr = "name";
  target_location = at_line 2;
  kind = Types.assign;
  containing_function_fqn = some "app.view";
  provenance = a_pass;
  callsite_callee_fqn = none;
  callsite_expr = none;
  argument_position = none;
  argument_keyword = none;
}

flows-keep_example :
    (flows_from (value_flow_graph (a_flow ∷ [])) (at_line 2)
      ≡ keep (λ x. key_of x.source_location == key_of (at_line 2)) (a_flow ∷ []))
    × (flows_to (value_flow_graph (a_flow ∷ [])) (at_line 2)
        ≡ keep (λ x. key_of x.target_location == key_of (at_line 2)) (a_flow ∷ []))
flows-keep_example = flows-keep (a_flow ∷ []) (at_line 2)
