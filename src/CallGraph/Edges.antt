-- ===== src/CallGraph/Edges.antt =====
-- Who calls whom: the queries of `CallGraph` in src/flawed/_index/_graphs.py, against its list of edges.
use flawed.Base.{
  String, ◌≡◌, refl, ap, ◌∙◌, inl, inr, Bool, true, false, ◌&&◌, ◌||◌, Option, none, some, List, [],
  ◌∷◌, ◌++◌, arith, if◌then◌else◌, Bool-cases, Option-cases, add, contains-add, keep, ◌==◌, nat_eq,
  string_eq, contains, beq_sym, append_at, contains-add_at, append_nil, append_at_lem, append_assoc,
}
use flawed.Types.{CallEdge}
use flawed.CallGraph.{
  index_callee, CallGraph, add_call, add_calls, call_graph, first_to, callees, callers,
  edge_from_to,
}

abbrev pub is_call : String → String → CallEdge → Bool
is_call caller callee x =
    x.caller_fqn == caller && (elim x.callee_fqn [ none ↦ false | some name ↦ name == callee ])

abbrev pub has_call : List CallEdge → String → String → Bool
has_call [] caller callee = false
has_call (x ∷ xs) caller callee = is_call caller callee x || has_call xs caller callee

-- the first edge that satisfies `p`
abbrev pub find : (CallEdge → Bool) → List CallEdge → Option CallEdge
find p [] = none
find p (x ∷ xs) = if p x then some x else find p xs

module _ (g : CallGraph) (x : CallEdge) (a b : String) where
  add_call-callees :
      contains ((add_call g x).callees_by_caller a) b
      ≡ (contains (g.callees_by_caller a) b || is_call a b x)
  unfolding add_call index_callee
  add_call-callees = elim (Option-cases x.callee_fqn) [
    | inl open_edge ↦ rw open_edge (ground arith)
    | inr (callee, known) ↦
        rw (known, contains-add_at g.callees_by_caller x.caller_fqn callee a b)
          (ground (arith, beq_sym a x.caller_fqn, beq_sym b callee))
  ]

  add_call-callers :
      contains ((add_call g x).callers_by_callee b) a
      ≡ (contains (g.callers_by_callee b) a || is_call a b x)
  unfolding add_call index_callee
  add_call-callers = elim (Option-cases x.callee_fqn) [
    | inl open_edge ↦ rw open_edge (ground arith)
    | inr (callee, known) ↦
        rw (known, contains-add_at g.callers_by_callee callee x.caller_fqn b a)
          (ground (arith, beq_sym a x.caller_fqn, beq_sym b callee))
  ]

  add_call-nodes :
      contains g.resolved_nodes a ≡ true → contains (add_call g x).resolved_nodes a ≡ true
  unfolding add_call index_callee
  add_call-nodes h = elim (Option-cases x.callee_fqn) [
    | inl open_edge ↦ rw open_edge h
    | inr (callee, known) ↦
        rw
          (
            known,
            contains-add (add g.resolved_nodes x.caller_fqn) callee a,
            contains-add g.resolved_nodes x.caller_fqn a,
          )
          (ground (arith, h))
  ]

  add_call-ends :
      is_call a b x ≡ true
      → (contains (add_call g x).resolved_nodes a ≡ true)
        × (contains (add_call g x).resolved_nodes b ≡ true)
  unfolding add_call index_callee
  add_call-ends h = elim (Option-cases x.callee_fqn) [
    | inl open_edge ↦ absurd (ground (arith, open_edge))
    | inr (callee, known) ↦
        let read : is_call a b x ≡ (x.caller_fqn == a && callee == b) = rw known refl in
        rw
          (
            known,
            contains-add (add g.resolved_nodes x.caller_fqn) callee a,
            contains-add g.resolved_nodes x.caller_fqn a,
            contains-add (add g.resolved_nodes x.caller_fqn) callee b,
          )
          (ground (arith, h, read, beq_sym a x.caller_fqn, beq_sym b callee))
  ]

add_calls-callees :
    (g : CallGraph) (xs : List CallEdge) (a b : String)
    → contains ((add_calls g xs).callees_by_caller a) b
      ≡ (contains (g.callees_by_caller a) b || has_call xs a b)
unfolding add_calls
add_calls-callees g [] a b = ground arith
add_calls-callees g (x ∷ xs) a b =
    rw (add_calls-callees (add_call g x) xs a b) (rw (add_call-callees g x a b) (ground arith))

add_calls-callers :
    (g : CallGraph) (xs : List CallEdge) (a b : String)
    → contains ((add_calls g xs).callers_by_callee b) a
      ≡ (contains (g.callers_by_callee b) a || has_call xs a b)
unfolding add_calls
add_calls-callers g [] a b = ground arith
add_calls-callers g (x ∷ xs) a b =
    rw (add_calls-callers (add_call g x) xs a b) (rw (add_call-callers g x a b) (ground arith))

add_calls-nodes :
    (g : CallGraph) (xs : List CallEdge) (a : String)
    → contains g.resolved_nodes a ≡ true
    → contains (add_calls g xs).resolved_nodes a ≡ true
unfolding add_calls
add_calls-nodes g [] a h = h
add_calls-nodes g (x ∷ xs) a h = add_calls-nodes (add_call g x) xs a (add_call-nodes g x a a h)

add_calls-ends :
    (g : CallGraph) (xs : List CallEdge) (a b : String)
    → has_call xs a b ≡ true
    → (contains (add_calls g xs).resolved_nodes a ≡ true)
      × (contains (add_calls g xs).resolved_nodes b ≡ true)
unfolding add_calls
add_calls-ends g [] a b h = absurd (ground (arith, h))
add_calls-ends g (x ∷ xs) a b h = elim (Bool-cases (is_call a b x)) [
  | inl here ↦
      let (at_a, at_b) = add_call-ends g x a b here in
      (add_calls-nodes (add_call g x) xs a at_a, add_calls-nodes (add_call g x) xs b at_b)
  | inr later ↦ add_calls-ends (add_call g x) xs a b (ground (arith, h, later))
]

-- `callees` and `callers` answer by the edges and are converse: `b` is among the callees of `a`, and
-- `a` among the callers of `b`, if and only if some edge of the list leads from `a` to the resolved
-- callee `b`. The test for resolved nodes at their heads changes no answer.
pub callees-callers :
    (edges : List CallEdge) (a b : String)
    → (contains (callees (call_graph edges) a) b ≡ has_call edges a b)
      × (contains (callers (call_graph edges) b) a ≡ has_call edges a b)
unfolding callees callers call_graph
callees-callers edges a b =
    let fresh : CallGraph = record {
      edge_list = edges;
      edges_by_caller = λ _. [];
      edges_by_callee = λ _. [];
      callees_by_caller = λ _. [];
      callers_by_callee = λ _. [];
      resolved_nodes = [];
    } in
    let out = add_calls-callees fresh edges a b in
    let into = add_calls-callers fresh edges a b in
    elim (Bool-cases (has_call edges a b)) [
      | inl call ↦
          let (at_a, at_b) = add_calls-ends fresh edges a b call in
          (ground (arith, out, at_a), ground (arith, into, at_b))
      | inr none_such ↦ (ground (arith, out, none_such), ground (arith, into, none_such))
    ]

index_callee-by_caller :
    (o : Option String) (x : CallEdge) (g : CallGraph)
    → (index_callee o x g).edges_by_caller ≡ g.edges_by_caller
unfolding index_callee
index_callee-by_caller none x g = refl
index_callee-by_caller (some callee) x g = refl

add_call-edges_from :
    (g : CallGraph) (x : CallEdge) (a : String)
    → (add_call g x).edges_by_caller a
      ≡ g.edges_by_caller a ++ keep (λ y. y.caller_fqn == a) (x ∷ [])
unfolding add_call index_callee
add_call-edges_from g x a =
    ap (λ d. d a)
      (index_callee-by_caller x.callee_fqn x
        (record g { edges_by_caller = append_at g.edges_by_caller x.caller_fqn x }))
    ∙ append_at_lem g.edges_by_caller x.caller_fqn x a

find-first_to :
    (xs : List CallEdge) (a b : String)
    → first_to b (keep (λ y. y.caller_fqn == a) xs) ≡ find (is_call a b) xs
unfolding first_to
find-first_to [] a b = refl
find-first_to (x ∷ xs) a b = elim (Bool-cases (x.caller_fqn == a)) [
  | inl same ↦ elim (Option-cases x.callee_fqn) [
    | inl open_edge ↦ simp (same, open_edge) (find-first_to xs a b)
    | inr (callee, known) ↦
        simp (same, known) (ap (λ o. if callee == b then some x else o) (find-first_to xs a b))
  ]
  | inr other ↦ rw other (find-first_to xs a b)
]

add_calls-edges_from :
    (g : CallGraph) (xs : List CallEdge) (a : String)
    → (add_calls g xs).edges_by_caller a ≡ g.edges_by_caller a ++ keep (λ y. y.caller_fqn == a) xs
unfolding add_calls
add_calls-edges_from g [] a = append_nil (g.edges_by_caller a)
add_calls-edges_from g (x ∷ xs) a =
    add_calls-edges_from (add_call g x) xs a
    ∙ ap (λ ys. ys ++ keep (λ y. y.caller_fqn == a) xs) (add_call-edges_from g x a)
    ∙ append_assoc (g.edges_by_caller a) (keep (λ y. y.caller_fqn == a) (x ∷ [])) _
    ∙ ap (λ ys. g.edges_by_caller a ++ ys)
        (elim (Bool-cases (x.caller_fqn == a)) [
          | inl same ↦ rw same refl
          | inr other ↦ rw other refl
        ])

-- The indexed lookup of an edge is the search that it replaces: `edge` returns the first edge of the
-- whole list from the caller to the resolved callee, and `none` if there is none.
pub edge_from_to-find :
    (edges : List CallEdge) (a b : String)
    → edge_from_to (call_graph edges) a b ≡ find (is_call a b) edges
unfolding edge_from_to call_graph
edge_from_to-find edges a b =
    ap (first_to b) (add_calls-edges_from _ edges a) ∙ find-first_to edges a b
