-- ===== src/ValueFlow.antt =====
-- The class `ValueFlowGraph` of src/flawed/_index/_graphs.py: its dicts by file and line, and the queries
-- by location.
mod Tests
use flawed.Base.{
  ℕ, zero, suc, ◌+◌, ◌-◌, ◌*◌, ◌≤◌, ◌<◌, String, ◌≡◌, refl, sym, ap, ◌∙◌, subst, ◌≢◌, ◌↔◌, ◌⊎◌, inl,
  inr, Bool, true, false, not, ◌&&◌, ◌||◌, Option, none, some, List, [], ◌∷◌, ◌++◌, map, foldl,
  arith, ltb, leb, nat_beq, if◌then◌else◌, nat_beq_iff, Bool-cases, Option-cases, add, inter, diff,
  is_subset, set_eq, IsUnique, to_set_from, to_set, contains-add, is_subset_at, is_subset-false,
  is_subset-true, IsUnique-append_one, IsUnique-keep, count_in, count_in-le, count_in_mono,
  count_in-lt, contains-to_set_from, contains-to_set, IsUnique-add, IsUnique-to_set_from,
  length-to_set_from, length-count_in, length-keep_le, length-keep_lt, ne_of_mem,
  length-le_of_subset, length-lt_of_subset, keep, length, length-append, List-cases, length-map, Eq,
  ◌==◌, nat_eq, string_eq, contains, beq_refl, beq_sym, contains-append, contains-keep, append_at,
  add_at, contains-add_at, append_nil, append_at_lem, append_assoc, pair_eq, append_all,
  append_all-keep,
}
use flawed.Types.{SourceSpan, ValueFlowEdge}

abbrev pub Key : Type 0
Key = String × ℕ

abbrev pub key_of : SourceSpan → Key
key_of location = (location.file, location.line)

pub record ValueFlowGraph : Type 0 where
  pub edge_list : List ValueFlowEdge
  pub by_source_file_line : Key → List ValueFlowEdge
  pub by_target_file_line : Key → List ValueFlowEdge
  pub nodes : List Key

-- the body of the constructor's loop
unfoldable pub add_flow : ValueFlowGraph → ValueFlowEdge → ValueFlowGraph
add_flow g x =
    let src_key = key_of x.source_location in
    let tgt_key = key_of x.target_location in
    record g {
      by_source_file_line = append_at g.by_source_file_line src_key x;
      by_target_file_line = append_at g.by_target_file_line tgt_key x;
      nodes = add (add g.nodes src_key) tgt_key;
    }

unfoldable pub add_flows : ValueFlowGraph → List ValueFlowEdge → ValueFlowGraph
unfolding add_flow
add_flows g [] = g
add_flows g (x ∷ xs) = add_flows (add_flow g x) xs

-- `__init__`
unfoldable pub value_flow_graph : List ValueFlowEdge → ValueFlowGraph
unfolding add_flows
value_flow_graph edges =
    add_flows
      (record {
        edge_list = edges;
        by_source_file_line = λ _. [];
        by_target_file_line = λ _. [];
        nodes = [];
      })
      edges

abbrev is_target : String → String → ValueFlowEdge → Bool
is_target name fn_fqn x =
    (elim x.containing_function_fqn [ none ↦ false | some fqn ↦ fqn == fn_fqn ])
    && x.target_expr == name

module _ (g : ValueFlowGraph) where
  unfoldable pub flows_from : SourceSpan → List ValueFlowEdge
  flows_from location = g.by_source_file_line (key_of location)

  unfoldable pub flows_to : SourceSpan → List ValueFlowEdge
  flows_to location = g.by_target_file_line (key_of location)

  pub assignments_to : String → String → List ValueFlowEdge
  assignments_to name fn_fqn = keep (is_target name fn_fqn) g.edge_list

add_flows-keep :
    (g : ValueFlowGraph) (xs : List ValueFlowEdge) (k : Key)
    → ((add_flows g xs).by_source_file_line k
        ≡ append_all (λ x. key_of x.source_location) g.by_source_file_line xs k)
      × ((add_flows g xs).by_target_file_line k
          ≡ append_all (λ x. key_of x.target_location) g.by_target_file_line xs k)
unfolding add_flows add_flow
add_flows-keep g [] k = (refl, refl)
add_flows-keep g (x ∷ xs) k = add_flows-keep (add_flow g x) xs k

-- The two indexed queries are the searches that they replace: `flows_from` returns the edges whose source
-- stands in the file and the line of the location, and `flows_to` those whose target does, each once and
-- in the order of extraction.
pub flows-keep :
    (edges : List ValueFlowEdge) (location : SourceSpan)
    → (flows_from (value_flow_graph edges) location
        ≡ keep (λ x. key_of x.source_location == key_of location) edges)
      × (flows_to (value_flow_graph edges) location
          ≡ keep (λ x. key_of x.target_location == key_of location) edges)
unfolding flows_from flows_to value_flow_graph
flows-keep edges location =
    let (out, into) = add_flows-keep _ edges (key_of location) in
    (
      out ∙ append_all-keep (λ x. key_of x.source_location) (λ _. []) edges (key_of location),
      into ∙ append_all-keep (λ x. key_of x.target_location) (λ _. []) edges (key_of location),
    )
