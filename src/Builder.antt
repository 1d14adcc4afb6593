-- ===== src/Builder.antt =====
-- `CFGBuilder` of src/flawed/_index/_cfg.py: from the statements of a function to the blocks, edges
-- and regions of its control-flow graph. A method that returns "the id that falls through, or None"
-- returns an option; `depth` and the ids `current` and `exit` are its arguments.
pub mod Syntax
pub mod State
pub mod Steps
pub mod Safe
pub mod Rules
pub mod Errors
pub mod Parts
pub mod Clauses
pub mod Try
pub mod Walk
pub mod Graph
mod Tests
use flawed.Base.{
  ℕ, zero, suc, ◌+◌, ◌-◌, ◌*◌, ◌≤◌, ◌<◌, String, ◌≡◌, refl, sym, ap, ◌∙◌, subst, ◌≢◌, ◌↔◌, ◌⊎◌, inl,
  inr, Bool, true, false, not, ◌&&◌, ◌||◌, Option, none, some, List, [], ◌∷◌, ◌++◌, map, foldl,
  arith, ltb, leb, nat_beq, if◌then◌else◌, nat_beq_iff, Bool-cases, Option-cases, add, inter, diff,
  is_subset, set_eq, IsUnique, to_set_from, to_set, contains-add, is_subset_at, is_subset-false,
  is_subset-true, IsUnique-append_one, IsUnique-keep, count_in, count_in-le, count_in_mono,
  count_in-lt, contains-to_set_from, contains-to_set, IsUnique-add, IsUnique-to_set_from,
  length-to_set_from, length-count_in, length-keep_le, length-keep_lt, ne_of_mem,
  length-le_of_subset, length-lt_of_subset, keep, length, length-append, List-cases, length-map, Eq,
  ◌==◌, nat_eq, string_eq, contains, beq_refl, beq_sym, contains-append, contains-keep,
}
use flawed.Types.{SourceSpan, CfgBlock, CfgEdge, ExceptHandler, TryExceptRegion}
use flawed.Builder.Syntax.{
  Pattern, Stmt, simple_line, simple_suite, if_stmt, while_stmt, for_stmt, try_stmt, try_star,
  with_stmt, match_stmt, definition, Stmts, done, then_stmt, If, if_node, Else, no_else, elif,
  else_body, Orelse, absent, clause, Handlers, no_handlers, handler, Cases, no_cases, case_of,
}
use flawed.Builder.State.{
  MutableBlock, ExtractionError, Builder, M, ◌>>=◌, ◌>>◌, pure, empty_block, new_block, add_edge,
  add_statement, set_condition, deferred, degrade_depth_budget, in_loop, if_joined, connect,
}
use flawed.Builder.Steps.{
  process_with, process_simple_line, is_wildcard_pattern, TryBody, Join, complete_try,
  exception_edges, enter_else, record_region, try_join, within_budget, within_chain_budget,
  opaque_stmt, process_loop, within_budget, opaque_stmt, within_chain_budget,
}

mutual
  pub process_stmts : Stmts → ℕ → ℕ → ℕ → M (Option ℕ)
  process_stmts done depth current exit = pure (some current)
  process_stmts (then_stmt span stmt stmts) depth current exit = do
    result ← process_one stmt span depth current exit
    elim result [ none ↦ pure none | some next ↦ process_stmts stmts depth next exit ]

  pub process_one : Stmt → SourceSpan → ℕ → ℕ → ℕ → M (Option ℕ)
  process_one (simple_line smalls) span depth current exit =
      within_budget span depth current (process_simple_line span exit smalls current)
  process_one (simple_suite smalls) span depth current exit =
      within_budget span depth current (opaque_stmt span current)
  process_one (if_stmt node) span depth current exit =
      within_budget span depth current
        do join ← new_block; process_if node span depth current join exit; if_joined join
  process_one (while_stmt text test body otherwise) span depth current exit =
      within_budget span depth current do
        cond ← new_block
        add_edge current cond "fallthrough"
        add_statement cond test
        set_condition cond text test
        process_loop cond (λ body_block. process_stmts body (depth + 1) body_block exit)
            (λ after_loop. process_loop_else otherwise depth cond after_loop exit)
  process_one (for_stmt text iter target body otherwise) span depth current exit =
      within_budget span depth current do
        cond ← new_block
        add_edge current cond "fallthrough"
        add_statement cond target
        set_condition cond text iter
        process_loop cond (λ body_block. process_stmts body (depth + 1) body_block exit)
            (λ after_loop. process_loop_else otherwise depth cond after_loop exit)
  process_one (try_stmt body hs otherwise finalbody) span depth current exit =
      within_budget span depth current do
        after_try ← new_block
        (finally_block, join) ← try_join finalbody after_try
        metadata ← process_handlers hs depth join exit
        first ← new_block
        add_edge current first "fallthrough"
        met ← process_try_body body depth exit metadata first (first ∷ [])
        complete_try met.try_block metadata join
        else_block ← process_try_else otherwise depth met.try_block join exit
        process_finally finalbody depth finally_block after_try exit
        record_region (record {
          try_body_block_ids = met.body_ids;
          handlers = metadata;
          finally_block_id = finally_block;
          else_block_id = else_block;
          location = span;
        })
        if_joined after_try
  process_one try_star span depth current exit =
      within_budget span depth current do deferred span; opaque_stmt span current
  process_one (with_stmt body) span depth current exit =
      within_budget span depth current
        (process_with span current (λ block. process_stmts body (depth + 1) block exit))
  process_one (match_stmt text subject cases) span depth current exit =
      within_budget span depth current do
        add_statement current subject
        set_condition current text subject
        join ← new_block
        last ← process_cases cases depth current join exit
        connect last join "false"
        if_joined join
  process_one definition span depth current exit =
      within_budget span depth current (opaque_stmt span current)

  -- the loop over an `if` with its `elif`s; `depth` grows along the chain
  pub process_if : If → SourceSpan → ℕ → ℕ → ℕ → ℕ → M (Unit {0})
  process_if (if_node text test body rest) span depth condition_block join exit =
      within_chain_budget span depth condition_block join do
        add_statement condition_block test
        set_condition condition_block text test
        true_block ← new_block
        add_edge condition_block true_block "true"
        true_tail ← process_stmts body (depth + 1) true_block exit
        connect true_tail join "fallthrough"
        process_else rest depth condition_block join exit

  pub process_else : Else → ℕ → ℕ → ℕ → ℕ → M (Unit {0})
  process_else no_else depth condition_block join exit = add_edge condition_block join "false"
  process_else (elif span node) depth condition_block join exit = do
    next_condition ← new_block
    add_edge condition_block next_condition "false"
    process_if node span (depth + 1) next_condition join exit
  process_else (else_body body) depth condition_block join exit = do
    false_block ← new_block
    add_edge condition_block false_block "false"
    false_tail ← process_stmts body (depth + 1) false_block exit
    connect false_tail join "fallthrough"

  pub process_loop_else : Orelse → ℕ → ℕ → ℕ → ℕ → M (Unit {0})
  process_loop_else absent depth cond after_loop exit = add_edge cond after_loop "false"
  process_loop_else (clause body) depth cond after_loop exit = do
    else_block ← new_block
    add_edge cond else_block "false"
    else_tail ← process_stmts body (depth + 1) else_block exit
    connect else_tail after_loop "fallthrough"

  pub process_handlers : Handlers → ℕ → Join → ℕ → M (List ExceptHandler)
  process_handlers no_handlers depth join exit = pure []
  process_handlers (handler types bound body hs) depth join exit = do
    hblock ← new_block
    htail ← process_stmts body (depth + 1) hblock exit
    connect htail join.target join.label
    rest ← process_handlers hs depth join exit
    pure (record { exception_types = types; entry_block_id = hblock; name = bound } ∷ rest)

  -- the statements of a `try` body; one that ends all paths still gets its exception edges
  pub process_try_body : Stmts → ℕ → ℕ → List ExceptHandler → ℕ → List ℕ → M TryBody
  process_try_body done depth exit metadata try_block ids =
      pure (record { try_block = some try_block; body_ids = ids })
  process_try_body (then_stmt span stmt stmts) depth exit metadata try_block ids = do
    result ← process_one stmt span (depth + 1) try_block exit
    elim result [
      | none ↦ (do
        exception_edges try_block metadata
        pure (record { try_block = none; body_ids = ids }))
      | some next ↦
          process_try_body stmts depth exit metadata next
            (if next == try_block then ids else ids ++ next ∷ [])
    ]

  pub process_try_else : Orelse → ℕ → Option ℕ → Join → ℕ → M (Option ℕ)
  process_try_else absent depth try_block join exit = pure none
  process_try_else (clause body) depth try_block join exit = do
    else_block ← new_block
    enter_else try_block else_block join
    else_tail ← process_stmts body (depth + 1) else_block exit
    connect else_tail join.target join.label
    pure (some else_block)

  pub process_finally : Orelse → ℕ → Option ℕ → ℕ → ℕ → M (Unit {0})
  process_finally absent depth finally_block after_try exit = pure tt
  process_finally (clause body) depth none after_try exit = pure tt
  process_finally (clause body) depth (some finally_block) after_try exit = do
    fin_tail ← process_stmts body (depth + 1) finally_block exit
    connect fin_tail after_try "fallthrough"

  pub process_cases : Cases → ℕ → ℕ → ℕ → ℕ → M (Option ℕ)
  process_cases no_cases depth prev_block join exit = pure (some prev_block)
  process_cases (case_of pattern text at guarded body cases) depth prev_block join exit = do
    body_block ← new_block
    add_edge prev_block body_block "true"
    body_tail ← process_stmts body (depth + 1) body_block exit
    connect body_tail join "fallthrough"
    elim (is_wildcard_pattern pattern) [
      | true ↦ pure none
      | false ↦ (do
        next_check ← new_block
        add_edge prev_block next_check "false"
        add_statement next_check at
        set_condition next_check text at
        process_cases cases depth next_check join exit)
    ]

-- `freeze`, with `dict.fromkeys` on the two lists
pub freeze : ℕ → MutableBlock → CfgBlock
freeze i k = record {
  id = i;
  statements = k.statements;
  successors = to_set k.succs;
  predecessors = to_set k.preds;
  condition_expr = k.condition_expr;
  condition_location = k.condition_location;
  value_predicates = k.value_predicates;
}

-- the blocks `i`, `i` + 1, … , `n` of them
pub freeze_from : ℕ → ℕ → (ℕ → MutableBlock) → List CfgBlock
unfolding freeze
freeze_from i zero blocks = []
freeze_from i (suc n) blocks = freeze i (blocks i) ∷ freeze_from (suc i) n blocks

-- `__init__`
pub start_state : String → ℕ → Builder
start_state file budget = record {
  file = file;
  depth_budget = budget;
  depth_budget_reported = false;
  blocks = λ _. empty_block;
  edges = [];
  errors = [];
  try_regions = [];
  next_id = 0;
  loop_stack = [];
}

-- the edge to the exit where the body falls through
pub implicit_return : Option ℕ → ℕ → M (Unit {0})
implicit_return none exit = pure tt
implicit_return (some tail) exit =
    if tail == exit then pure tt else add_edge tail exit "implicit_return"

pub walk_function : Stmts → M (Unit {0})
unfolding implicit_return
walk_function body = do
  entry ← new_block
  exit ← new_block
  tail ← process_stmts body 0 entry exit
  implicit_return tail exit

pub record Built : Type 0 where
  pub blocks : List CfgBlock
  pub edges : List CfgEdge
  pub try_regions : List TryExceptRegion
  pub errors : List ExtractionError

-- `build`
pub build : String → ℕ → Stmts → Built
unfolding walk_function freeze_from start_state
build file budget body =
    let b = (walk_function body (start_state file budget)).1 in
    record {
      blocks = freeze_from 0 b.next_id b.blocks;
      edges = b.edges;
      try_regions = b.try_regions;
      errors = b.errors;
    }
