-- ===== src/View/Control.antt =====
-- The class ControlFlowView of src/flawed/_semantic/_cfgview.py, and its answers through the graph. The gaps
-- that it only passes on are left out. `none` is a loop that does not end, as in the graph's own queries.
use flawed.Base.{
  ℕ, String, Bool, true, false, ◌&&◌, Option, none, some, List, [], ◌∷◌, map, if◌then◌else◌, keep,
  ◌==◌, nat_eq, string_eq, contains, pair_eq,
}
use flawed.Types.{SourceSpan, CfgBlock, CfgEdge, TryExceptRegion}
use flawed.Cfg.{ControlFlowGraph, block_for, dominates, precedes, reachable_between}

pub record Location : Type 0 where
  pub file : String
  pub line : ℕ
  pub column : ℕ
  pub end_line : Option ℕ
  pub end_column : Option ℕ

abbrev or_start : ℕ → Option ℕ → ℕ
or_start n none = n
or_start n (some m) = m

abbrev pub source_span : Location → SourceSpan
source_span loc = record {
  file = loc.file;
  line = loc.line;
  column = loc.column;
  end_line = or_start loc.line loc.end_line;
  end_column = or_start loc.column loc.end_column;
}

-- `location` of _conversion_utils.py
abbrev pub location_of : SourceSpan → Location
location_of span = record {
  file = span.file;
  line = span.line;
  column = span.column;
  end_line = some span.end_line;
  end_column = some span.end_column;
}

pub record ControlFlowView : Type 0 where
  pub graph : Option ControlFlowGraph
  pub block_filter : Option (List ℕ)

unfoldable pub restricted_to : ControlFlowView → List ℕ → ControlFlowView
restricted_to view block_ids = elim view.graph [
  | none ↦ view
  | some g ↦ record { graph = some g; block_filter = some block_ids }
]

-- `self._block_filter is None or id in self._block_filter`
abbrev pub is_visible : Option (List ℕ) → ℕ → Bool
is_visible none id = true
is_visible (some ids) id = contains ids id

unfoldable pub blocks : ControlFlowView → List CfgBlock
blocks view = elim view.graph [
  | none ↦ []
  | some g ↦ keep (λ (b : CfgBlock). is_visible view.block_filter b.id) g.block_list
]

abbrev pub in_filter : ControlFlowGraph → List ℕ → Location → Bool
in_filter g ids loc = elim (block_for g (source_span loc)) [
  | none ↦ false
  | some b ↦ contains ids b.id
]

unfoldable pub contains_locations : ControlFlowGraph → Option (List ℕ) → Location → Location → Bool
contains_locations g none a b = true
contains_locations g (some ids) a b = in_filter g ids a && in_filter g ids b

-- the three queries ask the graph, unless it is missing or a location is filtered out
abbrev pub asked :
    (ControlFlowGraph → SourceSpan → SourceSpan → Option Bool)
    → Option ControlFlowGraph
    → Option (List ℕ)
    → Location
    → Location
    → Option Bool
asked query none filter a b = some false
asked query (some g) filter a b =
    if contains_locations g filter a b then query g (source_span a) (source_span b) else some false

unfoldable pub view_dominates : ControlFlowView → Location → Location → Option Bool
view_dominates view = asked dominates view.graph view.block_filter

unfoldable pub view_precedes : ControlFlowView → Location → Location → Option Bool
view_precedes view = asked precedes view.graph view.block_filter

unfoldable pub view_reachable_between : ControlFlowView → Location → Location → Option Bool
view_reachable_between view = asked reachable_between view.graph view.block_filter

-- `all(...)` of pairs: it stops at the first that is false
unfoldable pub all_ordered : ControlFlowView → Location → List Location → Option Bool
unfolding view_precedes
all_ordered view a [] = some true
all_ordered view a (b ∷ locs) =
    let rest = all_ordered view b locs in
    elim (view_precedes view a b) [ none ↦ none | some true ↦ rest | some false ↦ some false ]

unfoldable pub view_ordered : ControlFlowView → List Location → Option Bool
unfolding all_ordered
view_ordered view [] = some true
view_ordered view (a ∷ locs) = all_ordered view a locs

unfoldable pub view_try_regions : ControlFlowView → List TryExceptRegion
view_try_regions view = elim view.graph [ none ↦ [] | some g ↦ g.try_regions ]

abbrev locations_in : List CfgBlock → ℕ → List Location
locations_in [] block_id = []
locations_in (b ∷ bs) block_id =
    if b.id == block_id then map location_of b.statements else locations_in bs block_id

unfoldable pub statement_locations : ControlFlowView → ℕ → List Location
unfolding blocks
statement_locations view block_id = locations_in (blocks view) block_id

abbrev last_location : List Location → Option Location
last_location [] = none
last_location (l ∷ []) = some l
last_location (l ∷ m ∷ ls) = last_location (m ∷ ls)

-- the loop of `raise_edges`
unfoldable pub raise_edges_in : ControlFlowView → List CfgEdge → List (ℕ × Location)
unfolding statement_locations
raise_edges_in view [] = []
raise_edges_in view (x ∷ xs) =
    let rest = raise_edges_in view xs in
    if x.label == "raise"
    then elim (last_location (statement_locations view x.source_id)) [
      | none ↦ rest
      | some l ↦ (x.source_id, l) ∷ rest
    ]
    else rest

unfoldable pub raise_edges : ControlFlowView → List (ℕ × Location)
unfolding raise_edges_in
raise_edges view = elim view.graph [ none ↦ [] | some g ↦ raise_edges_in view g.edge_list ]

unfoldable pub block_id_for : ControlFlowView → Location → Option ℕ
block_id_for view loc = elim view.graph [
  | none ↦ none
  | some g ↦ elim (block_for g (source_span loc)) [
    | none ↦ none
    | some b ↦ if is_visible view.block_filter b.id then some b.id else none
  ]
]
