-- ===== src/Lib.antt =====
-- A model of the core of flawed, a static-analysis engine for Python web applications. Its index layer
-- builds one control-flow graph for each function of an application, and answers questions about it:
-- does a check run before an effect, can one place be reached from another. Rules and the layers above
-- trust these answers. Its configuration is merged from files and from blocks that match a repository.
--
-- The parts, and the code that each models (paths from the repository's root):
--   Base        lists, Booleans, sets as lists without repeats; no code of its own.
--   Types       src/flawed/_index/_types.py: the frozen data classes that the parts exchange.
--   Builder     src/flawed/_index/_cfg.py, class CFGBuilder: Builder/Syntax has the statements it walks,
--               Builder/State its state and _new_block, _add_edge, _deferred, _degrade_depth_budget,
--               _capture_value_predicates; Builder/Steps simple lines and parts of `try`; Builder.antt
--               _process_stmts, _process_one and the walks they call, freeze and build. The proofs are
--               by one rule for each action (Builder/Rules, Errors, Parts, Clauses, Try), put together
--               along the statements in Builder/Walk and read off the result in Builder/Graph.
--   Reach       src/flawed/_index/_graphs.py, _reachable_block_ids and _has_path.
--   Dominators  the same file, _initial_dominators, _updated_dominators, _refine_dominators,
--               _immediate_dominators, _collapse_immediate_dominators, and _block_dominates.
--   CallGraph   the same file, class CallGraph: __init__ (add_call is the body of its loop), callees,
--               callers, edges_from, edges_to, edge (edge_from_to), reachable_from with a max_depth.
--   ValueFlow   the same file, class ValueFlowGraph: __init__, flows_from, flows_to, assignments_to.
--   Symbols     the same file, class SymbolIndex: __init__, resolve, fqn_exists, usages, unresolved.
--   Cfg         the same file, class ControlFlowGraph with _build_cfg_adjacency, _find_entry, block_for,
--               dominates, precedes and reachable_between; Cfg/Blocks has successors, predecessors,
--               entry, exits, _edge_between and _path_conditions.
--   Config      src/flawed/_config: Config/Values has the values of a YAML file and _deep_merge_dicts of
--               merge.py; Config/Schema, Parse and Blocks the types and parsers of schema.py;
--               Config/Merge and Files the merges of merge.py up to merge_raw_into; Config/Match match.py.
--               The proofs: Deep (the recursive merge), Limits and Bounds (limits of accepted settings),
--               Types (the type enrichment of a block), Groups (criteria), Providers (the entries after a file),
--               Settings (a provider's settings after a file), Entries (the entries after a block),
--               Overrides (what a block may change). An error is its kind and the key it names; what
--               Python computes for `str` of a value that is no text, for `~` in a path and for `dict` of
--               a value that is no dict, and its `float` of an int, are parameters.
--   Suppress    src/flawed/_cli/suppression.py: Suppress/Directives has the inline directives and the
--               .flawedignore file, Suppress/Engine compute_suppressions and the records it makes,
--               Suppress/Dedup findings by fingerprint; Meaning says what the sources mean; Partition and
--               Sources have the proofs. The text methods of Python, the pattern of a directive, gitignore
--               matching, hashing and the lines of a source file are parameters; the cache of directives
--               only saves work.
--   Predicates  src/flawed/_semantic/_predicate_eval.py: Predicates/Facts has the lookup of type facts of
--               src/flawed/_index/_type_enrichment.py, Predicates/Eval the evaluation (`evaluate` is
--               _evaluate_when_predicate of a predicate that is there); Sound, Gaps and Refine have the
--               proofs. ast.literal_eval and str.endswith are parameters.
--   Findings    src/flawed/findings.py and src/flawed/severity.py: Findings/Severity the ladder,
--               Findings/Records the records, Loading and Sarif the two formats over the values of
--               Config/Values, Collection the filters and diff; Diff and Complete have the proofs. `str` of
--               a value that is no text, the normal form of a severity's name and the digest of a foreign
--               result are parameters.
--   View        src/flawed/_semantic/_cfgview.py: View/Control the class ControlFlowView (its queries are
--               prefixed view_ where the graph has one of the same name), View/Arms the blocks of the arms
--               of a branch, View/Across the class InterproceduralControlFlowView (its precedes is
--               across_precedes; `index.cfg` is a parameter); Search and Reached have the proofs.
--
-- How they interact: `build` returns blocks, edges and regions; `control_flow_graph` (the constructor)
-- computes from them the adjacency, the entry and the immediate dominators; the queries look a location
-- up by its span and ask the links or search the adjacency. The views ask these queries, and the call graph
-- for the one call that joins two functions. Config merges files into one configuration and then applies the
-- blocks that match; suppression splits the findings of a scan; Findings reads a stored scan back.
--
-- State: the builder is an explicit state that each action maps to a new one. A block object that the
-- code shares is its id, so a write through one holder is seen by all. A dict from ids is a function,
-- a set is a list without repeats, and a dict of lists gives the empty list for a missing key, as the
-- code's `.get(key, ())` does. LibCST is not modelled: what the builder reads of a node, its span, its
-- source text and whether a yield stands in it, are fields of the syntax tree, given by the caller.
--
-- Loops: the two searches run on fuel, one unit for each key of the graph; the fixed point on one unit
-- more than (number of keys) * (number of reachable blocks), as each pass but the last takes a block
-- out of some set; the climb along the links on one more than the number of blocks. Each loop returns
-- `none` when its fuel ends, and it is proved that it does not, of the climb for the blocks that the entry
-- reaches, where the queries are judged. The search for an arm of a branch has one
-- round for each start and each successor of a block. The walk of the builder is structural.
--
-- Not modelled: of ControlFlowGraph, paths_between; of the builder, the interning of
-- spans and the extraction of handler names; of the call graph, reachable_from without a max_depth; of
-- the value-flow graph, connected; the extraction of calls, flows and symbols, which reads LibCST,
-- astroid and mypy; the reading of configuration files, the lock and the hashes of a repository, which are
-- I/O; the rest of the semantic layer, the rules and the command line.
pub mod Base
pub mod Types
pub mod Reach
pub mod Dominators
pub mod Cfg
pub mod Builder
pub mod CallGraph
pub mod ValueFlow
pub mod Symbols
pub mod Config
pub mod Suppress
pub mod Predicates
pub mod Findings
pub mod View
