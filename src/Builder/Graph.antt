-- ===== src/Builder/Graph.antt =====
-- What `CFGBuilder.build` of src/flawed/_index/_cfg.py returns.
use flawed.Cfg.{block_ids, build_cfg_adjacency, find_entry, ControlFlowGraph, control_flow_graph}
use flawed.Base.{
  ℕ, zero, suc, ◌+◌, ◌≤◌, ◌<◌, String, ◌≡◌, refl, sym, ap, ◌∙◌, subst, inl, inr, Bool, true, false,
  Option, none, some, List, [], ◌∷◌, arith, Bool-cases, length, ◌==◌, nat_eq, string_eq, contains,
}
use flawed.Cfg.{
  block_ids, build_cfg_adjacency, find_entry, first_root, ControlFlowGraph, control_flow_graph,
}
use flawed.Cfg.Edges.{has_edge, build_cfg_adjacency-succs}
use flawed.Cfg.Dominance.{control_flow_graph_total}
use flawed.Types.{CfgEdge}
use flawed.Builder.{freeze, freeze_from, start_state, implicit_return, walk_function, build}
use flawed.Builder.Syntax.{Stmts}
use flawed.Builder.State.{Builder, MutableBlock, ◌>>=◌, ◌>>◌, new_block}
use flawed.Builder.Safe.{IsSound, AllEdges, AllRegions, depth_errors, flag}
use flawed.Builder.Rules.{
  After, Safe, Any, Safe-pure, Safe-then, Safe-bind, Safe-new_block, Safe-add_edge, Safe-weaken,
  Fresh,
}
use flawed.Builder.Errors.{Falls}
use flawed.Builder.Parts.{exit-IsTarget}
use flawed.Builder.Walk.{process_stmts-Safe}

Safe-implicit_return :
    (n : ℕ) (tail : Option ℕ) → 1 < n → Falls tail n → Safe n (implicit_return tail 1) Any
unfolding implicit_return
Safe-implicit_return n none big h = Safe-pure n tt Any (λ _ _. tt)
Safe-implicit_return n (some tail) big h = elim (Bool-cases (tail == 1)) [
  | inl same ↦ rw same (Safe-pure n tt Any (λ _ _. tt))
  | inr other ↦ rw other (Safe-add_edge n tail 1 "implicit_return" false h (exit-IsTarget big))
]

start-IsSound : (file : String) (budget : ℕ) → IsSound (start_state file budget)
unfolding start_state
start-IsSound file budget = record {
  edges_ok = tt;
  stack_ok = tt;
  regions_ok = tt;
  entry_preds = refl;
  exit_succs = refl;
  reported_once = refl;
}

-- the state in which the body's walk begins, with the entry and the exit block
abbrev opened : String → ℕ → Builder
opened file budget = (new_block (new_block (start_state file budget)).1).1

opened-After : (file : String) (budget : ℕ) → After (start_state file budget) (opened file budget)
unfolding start_state new_block ◌>>◌
opened-After file budget =
    ((Safe-then (Safe-new_block 0)
        (λ k le. Safe-weaken k new_block (Fresh k) Any (λ _ _ _ _. tt) (Safe-new_block k))).at
      (start_state file budget) (start-IsSound file budget) (omega arith)).0

pub walk_function-After :
    (file : String) (budget : ℕ) (body : Stmts)
    → After (opened file budget) (walk_function body (start_state file budget)).1
unfolding walk_function start_state new_block ◌>>=◌ ◌>>◌
walk_function-After file budget body =
    ((Safe-bind
        (process_stmts-Safe 2 body 0 0 (omega arith)
          (record { below = omega arith; not_exit = λ e. omega (arith, e) }))
        (λ tail k le falls. Safe-implicit_return k tail (omega arith) falls)).at
      (opened file budget) (opened-After file budget).sound (omega arith)).0

length-freeze_from : (i n : ℕ) (blocks : ℕ → MutableBlock) → length (freeze_from i n blocks) ≡ n
unfolding freeze_from
length-freeze_from i zero blocks = refl
length-freeze_from i (suc n) blocks = ap suc (length-freeze_from (suc i) n blocks)

flag-le : {k : ℕ} (reported : Bool) → k ≡ flag reported → k ≤ 1
flag-le true e = omega arith
flag-le false e = omega arith

find_entry-freeze_from :
    (n : ℕ) (blocks : ℕ → MutableBlock)
    → 0 < n
    → (blocks 0).preds ≡ []
    → find_entry (freeze_from 0 n blocks) ≡ some 0
unfolding freeze_from find_entry first_root freeze
find_entry-freeze_from zero blocks big root = absurd (omega (arith, big))
find_entry-freeze_from (suc n) blocks big root = rw root refl

-- The builder's graph is closed and its ends are ends: each edge of `build` leads from a block of the
-- result that is not the exit (block 1) to a block of the result that is not the entry (block 0).
pub build-AllEdges :
    (file : String) (budget : ℕ) (body : Stmts)
    → AllEdges (length (build file budget body).blocks) (build file budget body).edges
unfolding build
build-AllEdges file budget body =
    let b = (walk_function body (start_state file budget)).1 in
    subst (λ n. AllEdges n b.edges) (sym (length-freeze_from 0 b.next_id b.blocks))
      (walk_function-After file budget body).sound.edges_ok

-- The `try` regions of `build` name only blocks of the result: those of the body, the entries of the
-- handlers, which are never the entry block of the function, and those of `finally` and `else`.
pub build-AllRegions :
    (file : String) (budget : ℕ) (body : Stmts)
    → AllRegions (length (build file budget body).blocks) (build file budget body).try_regions
unfolding build
build-AllRegions file budget body =
    let b = (walk_function body (start_state file budget)).1 in
    subst (λ n. AllRegions n b.try_regions) (sym (length-freeze_from 0 b.next_id b.blocks))
      (walk_function-After file budget body).sound.regions_ok

-- However many statements lie past the depth budget, `build` reports it at most once.
pub build-reports_once :
    (file : String) (budget : ℕ) (body : Stmts) → depth_errors (build file budget body).errors ≤ 1
unfolding build
build-reports_once file budget body =
    let b = (walk_function body (start_state file budget)).1 in
    flag-le b.depth_budget_reported (walk_function-After file budget body).sound.reported_once

-- A graph of `ControlFlowGraph` is made from every result of `build`, and its entry is the block where
-- the walk of the body began (block 0).
pub build-control_flow_graph :
    (file : String) (budget : ℕ) (body : Stmts)
    → let r = build file budget body in
      (g : ControlFlowGraph) × (control_flow_graph r.blocks r.edges r.try_regions ≡ some g)
      × (g.entry_id ≡ some 0)
unfolding build start_state new_block
build-control_flow_graph file budget body =
    let b = (walk_function body (start_state file budget)).1 in
    let after = walk_function-After file budget body in
    let r = build file budget body in
    let (g, made, _, _, _, _, root) = control_flow_graph_total r.blocks r.edges r.try_regions in
    (
      g,
      made,
      root
          ∙ find_entry-freeze_from b.next_id b.blocks (omega (arith, after.grows))
              after.sound.entry_preds,
    )

contains-freeze_from :
    (i n j : ℕ) (blocks : ℕ → MutableBlock)
    → i ≤ j
    → j < i + n
    → contains (block_ids (freeze_from i n blocks)) j ≡ true
unfolding freeze_from freeze block_ids
contains-freeze_from i zero j blocks low high = absurd (omega (arith, low, high))
contains-freeze_from i (suc n) j blocks low high = elim (Bool-cases (j == i)) [
  | inl same ↦ rw same refl
  | inr other ↦
      let later : suc i ≤ j = grind (arith, other, low) in
      rw other (contains-freeze_from (suc i) n j blocks later (omega (arith, high)))
]

has_edge-AllEdges :
    (n : ℕ) (xs : List CfgEdge) (u v : ℕ)
    → AllEdges n xs
    → has_edge xs u v ≡ true
    → (u < n) × (v < n)
has_edge-AllEdges n [] u v a h = cc
has_edge-AllEdges n (x ∷ xs) u v a h = ground (arith, a.0, a.1, has_edge-AllEdges n xs u v a.2)

-- The class that queries the graph of `build` sees all of its edges and no others: `v` is a successor
-- of `u` in the adjacency that it makes if and only if `build` returned an edge from `u` to `v`.
pub build-succs :
    (file : String) (budget : ℕ) (body : Stmts) (u v : ℕ)
    → contains
        ((build_cfg_adjacency (build file budget body).blocks (build file budget body).edges).succs
          u)
        v
      ≡ has_edge (build file budget body).edges u v
unfolding build
build-succs file budget body u v =
    let b = (walk_function body (start_state file budget)).1 in
    build_cfg_adjacency-succs (freeze_from 0 b.next_id b.blocks) b.edges u v
    ∙ elim (Bool-cases (has_edge b.edges u v)) [
      | inl here ↦
          let (hu, hv) =
            has_edge-AllEdges b.next_id b.edges u v
              (walk_function-After file budget body).sound.edges_ok here in
          let cu = contains-freeze_from 0 b.next_id u b.blocks (omega arith) (omega arith) in
          let cv = contains-freeze_from 0 b.next_id v b.blocks (omega arith) (omega arith) in
          ground (arith, here, cu, cv)
      | inr absent ↦ ground (arith, absent)
    ]
