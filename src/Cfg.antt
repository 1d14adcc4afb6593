-- ===== src/Cfg.antt =====
-- The class `ControlFlowGraph` of src/flawed/_index/_graphs.py: the graph of one function with its
-- queries. A dict from block ids is a function; the graph is built once, in `control_flow_graph`,
-- and never changes.
pub mod Edges
pub mod Dominance
pub mod Order
pub mod Blocks
mod Tests
use text.Mathlib.Text.{◌==◌ as str_eq}
use flawed.Base.{
  ℕ, zero, suc, ◌+◌, ◌-◌, ◌*◌, ◌≤◌, ◌<◌, String, ◌≡◌, refl, sym, ap, ◌∙◌, subst, ◌≢◌, ◌↔◌, ◌⊎◌, inl,
  inr, Bool, true, false, not, ◌&&◌, ◌||◌, Option, none, some, List, [], ◌∷◌, ◌++◌, map, foldl,
  arith, ltb, leb, nat_beq, if◌then◌else◌, nat_beq_iff, Bool-cases, Option-cases, add, inter, diff,
  is_subset, set_eq, IsUnique, to_set_from, to_set, contains-add, is_subset_at, is_subset-false,
  is_subset-true, IsUnique-append_one, IsUnique-keep, count_in, count_in-le, count_in_mono,
  count_in-lt, contains-to_set_from, contains-to_set, IsUnique-add, IsUnique-to_set_from,
  length-count_in, length-keep_le, length-keep_lt, ne_of_mem, length-le_of_subset,
  length-lt_of_subset, length, length-append, List-cases, length-map, Eq, ◌==◌, nat_eq, string_eq,
  contains, beq_refl, beq_sym, contains-append, keep, contains-keep,
}
use flawed.Types.{SourceSpan, CfgBlock, CfgEdge, TryExceptRegion}
use flawed.Dominators.{Idom, update, immediate_dominators, block_dominates}
use flawed.Reach.HasPath.{has_path}

-- The dicts of `_build_cfg_adjacency`.
pub record Adjacency : Type 0 where
  pub succs : ℕ → List ℕ
  pub preds : ℕ → List ℕ
  pub pairs : ℕ → ℕ → Option CfgEdge

-- `d.setdefault((source, target), edge)`
abbrev pub set_default : (ℕ → ℕ → Option CfgEdge) → ℕ → ℕ → CfgEdge → ℕ → ℕ → Option CfgEdge
set_default d u v x i j =
    if i == u && j == v then (elim (d u v) [ none ↦ some x | some old ↦ some old ]) else d i j

-- one edge: endpoints that are no blocks are passed over
pub add_adjacency : List ℕ → Adjacency → CfgEdge → Adjacency
add_adjacency ids a x =
    if not (contains ids x.source_id) || not (contains ids x.target_id) then a else record {
      succs = update a.succs x.source_id (add (a.succs x.source_id) x.target_id);
      preds = update a.preds x.target_id (add (a.preds x.target_id) x.source_id);
      pairs = set_default a.pairs x.source_id x.target_id x;
    }

pub adjacency_loop : List ℕ → Adjacency → List CfgEdge → Adjacency
adjacency_loop ids a [] = a
adjacency_loop ids a (x ∷ xs) = adjacency_loop ids (add_adjacency ids a x) xs

unfoldable pub block_ids : List CfgBlock → List ℕ
block_ids blocks = map (λ b. b.id) blocks

pub build_cfg_adjacency : List CfgBlock → List CfgEdge → Adjacency
unfolding adjacency_loop add_adjacency block_ids
build_cfg_adjacency blocks edges =
    adjacency_loop (block_ids blocks)
      (record { succs = λ _. []; preds = λ _. []; pairs = λ _ _. none }) edges

-- `{b.id: b for b in blocks}`, where a later block with the same id wins
unfoldable pub blocks_by_id : List CfgBlock → ℕ → Option CfgBlock
blocks_by_id [] j = none
blocks_by_id (b ∷ bs) j = elim (blocks_by_id bs j) [
  | some later ↦ some later
  | none ↦ if j == b.id then some b else none
]

unfoldable pub first_root : List CfgBlock → Option ℕ
first_root [] = none
first_root (b ∷ bs) = elim b.predecessors [ [] ↦ some b.id | _ ∷ _ ↦ first_root bs ]

unfoldable pub find_entry : List CfgBlock → Option ℕ
unfolding first_root
find_entry [] = none
find_entry (b ∷ bs) = elim (first_root (b ∷ bs)) [ some root ↦ some root | none ↦ some b.id ]

pub record ControlFlowGraph : Type 0 where
  pub block_list : List CfgBlock
  pub edge_list : List CfgEdge
  pub try_regions : List TryExceptRegion
  pub adjacency : Adjacency
  pub entry_id : Option ℕ
  pub idom : Idom

-- The keys of `_blocks_by_id`.
abbrev pub key_ids : List CfgBlock → List ℕ
key_ids blocks = to_set (block_ids blocks)

-- `__init__`; `none` would be a loop that does not end, and never happens: `Cfg.Dominance`.
pub control_flow_graph :
    List CfgBlock → List CfgEdge → List TryExceptRegion → Option ControlFlowGraph
unfolding build_cfg_adjacency
control_flow_graph blocks edges regions =
    let a = build_cfg_adjacency blocks edges in
    elim (immediate_dominators (find_entry blocks) (key_ids blocks) a.succs a.preds) [
      | none ↦ none
      | some idom ↦ some (record {
        block_list = blocks;
        edge_list = edges;
        try_regions = regions;
        adjacency = a;
        entry_id = find_entry blocks;
        idom = idom;
      })
    ]

unfoldable pub span_contains_start : SourceSpan → SourceSpan → Bool
span_contains_start span location =
    if not (str_eq span.file location.file)
    then false
    else if ltb location.line span.line || ltb span.end_line location.line
    then false
    else if location.line == span.line && ltb location.column span.column
    then false
    else not (location.line == span.end_line && ltb span.end_column location.column)

unfoldable pub any_contains : List SourceSpan → SourceSpan → Bool
any_contains [] location = false
any_contains (s ∷ ss) location = span_contains_start s location || any_contains ss location

abbrev condition_contains : Option SourceSpan → SourceSpan → Bool
condition_contains none location = false
condition_contains (some s) location = span_contains_start s location

unfoldable pub block_in : List CfgBlock → SourceSpan → Option CfgBlock
unfolding any_contains span_contains_start
block_in [] location = none
block_in (b ∷ bs) location =
    if condition_contains b.condition_location location || any_contains b.statements location
    then some b
    else block_in bs location

module _ (g : ControlFlowGraph) where
  unfoldable pub block_for : SourceSpan → Option CfgBlock
  unfolding block_in
  block_for = block_in g.block_list

  -- One more round than there are blocks.
  abbrev pub block_dominates_in : ℕ → ℕ → Option Bool
  block_dominates_in a b = block_dominates g.idom (suc (length g.block_list)) a b

  pub dominates : SourceSpan → SourceSpan → Option Bool
  dominates loc_a loc_b = elim (block_for loc_a) [
    | none ↦ some false
    | some a ↦ elim (block_for loc_b) [ none ↦ some false | some b ↦ block_dominates_in a.id b.id ]
  ]

  unfoldable pub precedes : SourceSpan → SourceSpan → Option Bool
  precedes loc_a loc_b = elim (block_for loc_a) [
    | none ↦ some false
    | some a ↦ elim (block_for loc_b) [
      | none ↦ some false
      | some b ↦
          if a.id == b.id
          then some (
              ltb loc_a.line loc_b.line
              || loc_a.line == loc_b.line && ltb loc_a.column loc_b.column)
          else block_dominates_in a.id b.id
    ]
  ]

  pub reachable_between : SourceSpan → SourceSpan → Option Bool
  reachable_between loc_a loc_b = elim (block_for loc_a) [
    | none ↦ some false
    | some a ↦ elim (block_for loc_b) [
      | none ↦ some false
      | some b ↦
          if a.id == b.id
          then some true
          else has_path g.adjacency.succs (length (key_ids g.block_list)) a.id b.id
    ]
  ]
