-- ===== src/CallGraph.antt =====
-- The class `CallGraph` of src/flawed/_index/_graphs.py: the dicts that its constructor fills, one edge at
-- a time, and the queries on them. The two counts that only its `__repr__` reads are left out.
pub mod Edges
pub mod Levels
pub mod Complete
mod Tests
use flawed.Base.{
  ℕ, zero, suc, ◌+◌, ◌-◌, ◌*◌, ◌≤◌, ◌<◌, String, ◌≡◌, refl, sym, ap, ◌∙◌, subst, ◌≢◌, ◌↔◌, ◌⊎◌, inl,
  inr, Bool, true, false, not, ◌&&◌, ◌||◌, Option, none, some, List, [], ◌∷◌, ◌++◌, map, foldl,
  arith, ltb, leb, nat_beq, if◌then◌else◌, nat_beq_iff, Bool-cases, Option-cases, add, inter, diff,
  is_subset, set_eq, IsUnique, to_set_from, to_set, contains-add, is_subset_at, is_subset-false,
  is_subset-true, IsUnique-append_one, IsUnique-keep, count_in, count_in-le, count_in_mono,
  count_in-lt, contains-to_set_from, contains-to_set, IsUnique-add, IsUnique-to_set_from,
  length-to_set_from, length-count_in, length-keep_le, length-keep_lt, ne_of_mem,
  length-le_of_subset, length-lt_of_subset, keep, length, length-append, List-cases, length-map, Eq,
  ◌==◌, nat_eq, string_eq, contains, beq_refl, beq_sym, contains-append, contains-keep,
  contains-add_at, append_at, add_at,
}
use flawed.Types.{CallEdge}

pub record CallGraph : Type 0 where
  pub edge_list : List CallEdge
  pub edges_by_caller : String → List CallEdge
  pub edges_by_callee : String → List CallEdge
  pub callees_by_caller : String → List String
  pub callers_by_callee : String → List String
  pub resolved_nodes : List String

-- what a resolved callee adds
unfoldable pub index_callee : Option String → CallEdge → CallGraph → CallGraph
index_callee none x g = g
index_callee (some callee) x g = record g {
  edges_by_callee = append_at g.edges_by_callee callee x;
  callees_by_caller = add_at g.callees_by_caller x.caller_fqn callee;
  callers_by_callee = add_at g.callers_by_callee callee x.caller_fqn;
  resolved_nodes = add (add g.resolved_nodes x.caller_fqn) callee;
}

-- the body of the constructor's loop
unfoldable pub add_call : CallGraph → CallEdge → CallGraph
unfolding index_callee
add_call g x =
    index_callee x.callee_fqn x
      (record g { edges_by_caller = append_at g.edges_by_caller x.caller_fqn x })

unfoldable pub add_calls : CallGraph → List CallEdge → CallGraph
unfolding add_call
add_calls g [] = g
add_calls g (x ∷ xs) = add_calls (add_call g x) xs

-- `__init__`
unfoldable pub call_graph : List CallEdge → CallGraph
unfolding add_calls
call_graph edges =
    add_calls
      (record {
        edge_list = edges;
        edges_by_caller = λ _. [];
        edges_by_callee = λ _. [];
        callees_by_caller = λ _. [];
        callers_by_callee = λ _. [];
        resolved_nodes = [];
      })
      edges

-- the first edge to `callee`
unfoldable pub first_to : String → List CallEdge → Option CallEdge
first_to callee [] = none
first_to callee (x ∷ xs) = elim x.callee_fqn [
  | none ↦ first_to callee xs
  | some name ↦ if name == callee then some x else first_to callee xs
]

-- one node of a level: its callees that are new
unfoldable pub visit_callees :
    String → List String × List String → List String → List String × List String
visit_callees start (reachable, next) [] = (reachable, next)
visit_callees start (reachable, next) (succ ∷ succs) =
    if succ == start || contains reachable succ
    then visit_callees start (reachable, next) succs
    else visit_callees start (add reachable succ, add next succ) succs

module _ (g : CallGraph) where
  unfoldable pub callees : String → List String
  callees fqn = if not (contains g.resolved_nodes fqn) then [] else g.callees_by_caller fqn

  unfoldable pub callers : String → List String
  callers fqn = if not (contains g.resolved_nodes fqn) then [] else g.callers_by_callee fqn

  pub edges_from : String → List CallEdge
  edges_from fqn = g.edges_by_caller fqn

  pub edges_to : String → List CallEdge
  edges_to fqn = g.edges_by_callee fqn

  unfoldable pub edge_from_to : String → String → Option CallEdge
  unfolding first_to
  edge_from_to caller callee = first_to callee (g.edges_by_caller caller)

  pub visit_level : String → List String × List String → List String → List String × List String
  unfolding visit_callees
  visit_level start acc [] = acc
  visit_level start acc (node ∷ nodes) =
      visit_level start (visit_callees start acc (g.callees_by_caller node)) nodes

  -- the loop, with the number of levels that `max_depth` still allows
  pub levels : String → ℕ → List String → List String → List String
  levels start zero reachable frontier = reachable
  levels start (suc depth) reachable [] = reachable
  levels start (suc depth) reachable (node ∷ nodes) =
      let visited = visit_level start (reachable, []) (node ∷ nodes) in
      levels start depth visited.0 visited.1

  -- `reachable_from` with a `max_depth`
  pub reachable_within : String → ℕ → List String
  unfolding levels
  reachable_within fqn max_depth =
      if not (contains g.resolved_nodes fqn) then [] else levels fqn max_depth [] (fqn ∷ [])
