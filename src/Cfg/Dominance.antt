-- ===== src/Cfg/Dominance.antt =====
-- The graph that `ControlFlowGraph.__init__` builds, and what its `dominates` and
-- `reachable_between` answer.
use flawed.Base.{
  ℕ, suc, ◌≤◌, ◌≡◌, refl, ap, ◌∙◌, subst, ◌↔◌, inl, inr, Bool, true, none, some, List, [], ◌∷◌,
  arith, Option-cases, IsUnique-to_set_from, length-to_set_from, length, List-cases, length-map,
  nat_eq, string_eq, contains,
}
use mathlib.Core.Path.{ap₂}
use flawed.Types.{SourceSpan, CfgBlock, CfgEdge, TryExceptRegion}
use flawed.Reach.{Walk}
use flawed.Dominators.{Idom, immediate_dominators}
use flawed.Dominators.Walks.{Dominates}
use flawed.Dominators.Total.{Decides, immediate_dominators_total, immediate_dominators-none}
use flawed.Cfg.{
  ControlFlowGraph, control_flow_graph, block_ids, key_ids, build_cfg_adjacency, first_root,
  find_entry, block_in, block_for, dominates, block_dominates_in,
}
use flawed.Cfg.Edges.{build_cfg_adjacency-converse, build_cfg_adjacency-IsClosed}

first_root-mem :
    (blocks : List CfgBlock) (e : ℕ)
    → first_root blocks ≡ some e
    → contains (block_ids blocks) e ≡ true
unfolding first_root block_ids
first_root-mem [] e h = cc
first_root-mem (b ∷ bs) e h = elim (List-cases b.predecessors) [
  | inl root ↦ ground arith
  | inr (p, ps, more) ↦ let later = first_root-mem bs e (rw (more, first_root) at h) in ground arith
]

find_entry-mem :
    (blocks : List CfgBlock) (e : ℕ)
    → find_entry blocks ≡ some e
    → contains (block_ids blocks) e ≡ true
unfolding find_entry
find_entry-mem [] e h = cc
find_entry-mem (b ∷ bs) e h = elim (Option-cases (first_root (b ∷ bs))) [
  | inl no_root ↦ (unfold block_ids in ground arith)
  | inr (r, root) ↦ let inside = first_root-mem (b ∷ bs) r root in ground arith
]

block_in-mem :
    (blocks : List CfgBlock) (location : SourceSpan) (b : CfgBlock)
    → block_in blocks location ≡ some b
    → contains (block_ids blocks) b.id ≡ true
unfolding block_in block_ids
block_in-mem [] location b h = cc
block_in-mem (x ∷ xs) location b h = ground (arith, block_in-mem xs location b)

length-key_ids : (blocks : List CfgBlock) → length (key_ids blocks) ≤ length blocks
unfolding block_ids
length-key_ids blocks =
    omega
      (arith, length-to_set_from [] (block_ids blocks), length-map (λ (b : CfgBlock). b.id) blocks)

-- A graph as the constructor leaves it.
pub record IsBuilt (g : ControlFlowGraph) : Type 0 where
  pub adjacency_eq : g.adjacency ≡ build_cfg_adjacency g.block_list g.edge_list
  pub entry_eq : g.entry_id ≡ find_entry g.block_list
  pub links :
      (e : ℕ)
      → g.entry_id ≡ some e
      → Decides g.adjacency.succs g.adjacency.preds e (key_ids g.block_list) g.idom

abbrev graph_of : List CfgBlock → List CfgEdge → List TryExceptRegion → Idom → ControlFlowGraph
graph_of blocks edges regions idom = record {
  block_list = blocks;
  edge_list = edges;
  try_regions = regions;
  adjacency = build_cfg_adjacency blocks edges;
  entry_id = find_entry blocks;
  idom = idom;
}

control_flow_graph-eq :
    (blocks : List CfgBlock) (edges : List CfgEdge) (regions : List TryExceptRegion) (idom : Idom)
    → immediate_dominators
        (find_entry blocks)
        (key_ids blocks)
        (build_cfg_adjacency blocks edges).succs
        (build_cfg_adjacency blocks edges).preds
      ≡ some idom
    → control_flow_graph blocks edges regions ≡ some (graph_of blocks edges regions idom)
unfolding control_flow_graph
control_flow_graph-eq blocks edges regions idom h = rw (h, control_flow_graph)

control_flow_graph-IsBuilt :
    (blocks : List CfgBlock) (edges : List CfgEdge) (regions : List TryExceptRegion)
    → (g : ControlFlowGraph) × (control_flow_graph blocks edges regions ≡ some g)
      × (g.block_list ≡ blocks)
      × (g.edge_list ≡ edges)
      × (g.try_regions ≡ regions)
      × IsBuilt g
unfolding control_flow_graph
control_flow_graph-IsBuilt blocks edges regions = elim (Option-cases (find_entry blocks)) [
  | inl empty ↦
      let a = build_cfg_adjacency blocks edges in
      (
        graph_of blocks edges regions (λ _. none),
        control_flow_graph-eq blocks edges regions (λ _. none)
            (rw empty (immediate_dominators-none (key_ids blocks) a.succs a.preds)),
        refl,
        refl,
        refl,
        record { adjacency_eq = refl; entry_eq = refl; links = λ e h. cc },
      )
  | inr (e, root) ↦
      let a = build_cfg_adjacency blocks edges in
      let inside = find_entry-mem blocks e root in
      let (idom, ends, decides) =
        immediate_dominators_total a.succs a.preds e (key_ids blocks)
          (IsUnique-to_set_from [] (block_ids blocks) tt)
          (build_cfg_adjacency-IsClosed blocks edges e inside)
          (build_cfg_adjacency-converse blocks edges) in
      (
        graph_of blocks edges regions idom,
        control_flow_graph-eq blocks edges regions idom (rw root ends),
        refl,
        refl,
        refl,
        record {
          adjacency_eq = refl;
          entry_eq = refl;
          links = λ e' h.
              (let same : e ≡ e' = ground arith in
                subst (λ j. Decides a.succs a.preds j (key_ids blocks) idom) same decides);
        },
      )
]

-- The constructor ends, whatever the blocks and edges, with the blocks, edges and regions that it was
-- given, their adjacency and their entry.
pub control_flow_graph_total :
    (blocks : List CfgBlock) (edges : List CfgEdge) (regions : List TryExceptRegion)
    → (g : ControlFlowGraph) × (control_flow_graph blocks edges regions ≡ some g)
      × (g.block_list ≡ blocks)
      × (g.edge_list ≡ edges)
      × (g.try_regions ≡ regions)
      × (g.adjacency ≡ build_cfg_adjacency blocks edges)
      × (g.entry_id ≡ find_entry blocks)
control_flow_graph_total blocks edges regions =
    let (g, made, eb, ee, er, built) = control_flow_graph-IsBuilt blocks edges regions in
    (
      g,
      made,
      eb,
      ee,
      er,
      built.adjacency_eq ∙ ap₂ build_cfg_adjacency eb ee,
      built.entry_eq ∙ ap find_entry eb,
    )

pub made-IsBuilt :
    (blocks : List CfgBlock) (edges : List CfgEdge) (regions : List TryExceptRegion)
    (g : ControlFlowGraph)
    → control_flow_graph blocks edges regions ≡ some g
    → IsBuilt g
made-IsBuilt blocks edges regions g made =
    let (g', made', _, _, _, built) = control_flow_graph-IsBuilt blocks edges regions in
    let same : g' ≡ g = cc in subst IsBuilt same built

module _ (blocks : List CfgBlock) (edges : List CfgEdge) (regions : List TryExceptRegion)
    (g : ControlFlowGraph) (made : control_flow_graph blocks edges regions ≡ some g) (e : ℕ)
    (root : g.entry_id ≡ some e) where
  -- Of a block that walks from the entry reach, the query by ids decides dominance.
  pub block_dominates_in_decides :
      (a b : ℕ)
      → Walk g.adjacency.succs e b
      → (r : Bool) × (block_dominates_in g a b ≡ some r)
        × ((r ≡ true) ↔ Dominates g.adjacency.succs e a b)
  block_dominates_in_decides a b w =
      (made-IsBuilt blocks edges regions g made).links e root (suc (length g.block_list)) a b
        (omega (arith, length-key_ids g.block_list)) w

  -- What `block_for` finds is one of the blocks.
  pub block_for-mem :
      (location : SourceSpan) (b : CfgBlock)
      → block_for g location ≡ some b
      → contains (block_ids g.block_list) b.id ≡ true
  unfolding block_for
  block_for-mem = block_in-mem g.block_list

  -- Two locations in blocks, the second reachable: `dominates` answers, and says whether every walk
  -- from the entry to the second block passes through the first.
  pub dominates_decides :
      (loc_a loc_b : SourceSpan) (a b : CfgBlock)
      → block_for g loc_a ≡ some a
      → block_for g loc_b ≡ some b
      → Walk g.adjacency.succs e b.id
      → (r : Bool) × (dominates g loc_a loc_b ≡ some r)
        × ((r ≡ true) ↔ Dominates g.adjacency.succs e a.id b.id)
  unfolding dominates
  dominates_decides loc_a loc_b a b ha hb w =
      let (r, runs, iff) = block_dominates_in_decides a.id b.id w in
      (r, rw (ha, dominates) (rw (hb, dominates) runs), iff)
