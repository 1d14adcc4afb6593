-- ===== src/Builder/Steps.antt =====
-- The steps of `CFGBuilder` in src/flawed/_index/_cfg.py that walk no nested statements: simple lines,
-- and the parts of the `try` statement.
use text.Mathlib.Text.{◌==◌ as str_eq}
use flawed.Base.{
  ℕ, String, Bool, true, false, not, ◌&&◌, Option, none, some, List, [], ◌∷◌, ◌++◌, ltb,
  if◌then◌else◌, ◌==◌, nat_eq, string_eq, keep,
}
use flawed.Types.{SourceSpan, CfgEdge, ExceptHandler, TryExceptRegion}
use flawed.Builder.Syntax.{
  Value, Small, returns, raises, breaks, continues, assign, expr, other_small, Pattern, match_as,
  other_pattern, Orelse, absent, clause,
}
use flawed.Builder.State.{
  M, ◌>>=◌, ◌>>◌, pure, new_block, add_edge_with, add_edge, add_statement, degrade_depth_budget,
  capture_value_predicates, in_loop, if_joined, connect, at_block,
}

-- -- simple statements ---------------------------------------------

unfoldable pub capture_optional : Option Value → String → ℕ → M (Unit {0})
capture_optional none position block = pure tt
capture_optional (some value) position block = capture_value_predicates value position block

-- the edge of `break` or `continue`, if a loop is open
unfoldable pub jump : ((ℕ × ℕ) → ℕ) → ℕ → String → M (Unit {0})
jump target current label b = elim b.loop_stack [
  | [] ↦ (tt, b)
  | t ∷ _ ↦ add_edge current (target t) label b
]

-- a `yield` is a suspend point: the line's span is recorded, and a new block resumes
unfoldable pub after_small : Bool → SourceSpan → ℕ → (ℕ → M (Option ℕ)) → M (Option ℕ)
after_small true span current rest = do
  add_statement current span
  resume ← new_block
  add_edge current resume "yield"
  rest resume
after_small false span current rest = rest current

unfoldable pub process_simple_line : SourceSpan → ℕ → List Small → ℕ → M (Option ℕ)
unfolding after_small capture_optional jump
process_simple_line span exit [] current = do add_statement current span; pure (some current)
process_simple_line span exit (returns value ∷ smalls) current = do
  add_statement current span
  capture_optional value "return" current
  add_edge current exit "return"
  pure none
process_simple_line span exit (raises ∷ smalls) current = do
  add_statement current span
  add_edge current exit "raise"
  pure none
process_simple_line span exit (breaks ∷ smalls) current = do
  jump (λ t. t.1) current "break"
  add_statement current span
  pure none
process_simple_line span exit (continues ∷ smalls) current = do
  jump (λ t. t.0) current "continue"
  add_statement current span
  pure none
process_simple_line span exit (assign value has_yield ∷ smalls) current = do
  capture_optional value "assign" current
  after_small has_yield span current (process_simple_line span exit smalls)
process_simple_line span exit (expr is_yield ∷ smalls) current =
    after_small is_yield span current (process_simple_line span exit smalls)
process_simple_line span exit (other_small ∷ smalls) current =
    process_simple_line span exit smalls current

-- -- compound statements -------------------------------------------

-- one edge to each handler, as an exception may take it
unfoldable pub exception_edges : ℕ → List ExceptHandler → M (Unit {0})
exception_edges try_block [] = pure tt
exception_edges try_block (h ∷ hs) = do
  add_edge_with try_block h.entry_block_id "exception" true
  exception_edges try_block hs

unfoldable pub is_wildcard_pattern : Pattern → Bool
is_wildcard_pattern (match_as has_subpattern) = not has_subpattern
is_wildcard_pattern other_pattern = false

-- the blocks of the `try` body that were met, and the last one, if the body completes
pub record TryBody : Type 0 where
  pub try_block : Option ℕ
  pub body_ids : List ℕ

-- Within `_process_try`: where handlers and the body flow to.
pub record Join : Type 0 where
  pub target : ℕ
  pub label : String

-- remove the first occurrence
unfoldable pub remove : ℕ → List ℕ → List ℕ
remove x [] = []
remove x (y ∷ ys) = if x == y then ys else y ∷ remove x ys

unfoldable pub same_edge : ℕ → ℕ → String → CfgEdge → Bool
same_edge src tgt label x = x.source_id == src && x.target_id == tgt && str_eq x.label label

-- the direct edge from the `try` body to the join is taken back
unfoldable pub remove_edge : ℕ → ℕ → String → M (Unit {0})
unfolding remove same_edge
remove_edge src tgt label b = (
  tt,
  at_block tgt (λ k. record k { preds = remove src k.preds })
      (at_block src (λ k. record k { succs = remove tgt k.succs })
        (record b { edges = keep (λ x. not (same_edge src tgt label x)) b.edges })),
)

-- a completed `try` body: exception edges, and the edge to the join
unfoldable pub complete_try : Option ℕ → List ExceptHandler → Join → M (Unit {0})
complete_try none handlers join = pure tt
complete_try (some try_block) handlers join = do
  exception_edges try_block handlers
  add_edge try_block join.target join.label

unfoldable pub enter_else : Option ℕ → ℕ → Join → M (Unit {0})
enter_else none else_block join = pure tt
enter_else (some try_block) else_block join = do
  remove_edge try_block join.target join.label
  add_edge try_block else_block "no_exception"

unfoldable pub record_region : TryExceptRegion → M (Unit {0})
record_region r b = (tt, record b { try_regions = b.try_regions ++ r ∷ [] })

-- the join of a `try`: the `finally` block if there is one
unfoldable pub try_join : Orelse → ℕ → M (Option ℕ × Join)
try_join absent after_try = pure (none, record { target = after_try; label = "fallthrough" })
try_join (clause body) after_try = do
  finally_block ← new_block
  pure (some finally_block, record { target = finally_block; label = "finally" })

-- The test at the head of `_process_one`: past the depth budget a statement is opaque.
unfoldable pub within_budget : SourceSpan → ℕ → ℕ → M (Option ℕ) → M (Option ℕ)
within_budget span depth current m b =
    if ltb b.depth_budget depth
    then (do tail ← degrade_depth_budget span current; pure (some tail)) b
    else m b

-- The same test in the loop over an `elif` chain: the rest is one opaque block before the join.
unfoldable pub within_chain_budget : SourceSpan → ℕ → ℕ → ℕ → M (Unit {0}) → M (Unit {0})
within_chain_budget span depth condition_block join m b =
    if ltb b.depth_budget depth
    then (do
      degraded ← new_block
      add_edge condition_block degraded "false"
      tail ← degrade_depth_budget span degraded
      add_edge tail join "fallthrough")
        b
    else m b

-- an opaque statement: its span, and it falls through
unfoldable pub opaque_stmt : SourceSpan → ℕ → M (Option ℕ)
opaque_stmt span current = do add_statement current span; pure (some current)

-- The span of a `with` statement, and its body, whose walk is given.
unfoldable pub process_with : SourceSpan → ℕ → (ℕ → M (Option ℕ)) → M (Option ℕ)
process_with span current walk_body = do add_statement current span; walk_body current

-- What `while` and `for` share, from the condition block on: the walks of the body, from its block, and
-- of the `else` clause, which flows to the block after the loop, are given.
unfoldable pub process_loop : ℕ → (ℕ → M (Option ℕ)) → (ℕ → M (Unit {0})) → M (Option ℕ)
process_loop cond walk_body walk_else = do
  after_loop ← new_block
  body_block ← new_block
  add_edge cond body_block "true"
  body_tail ← in_loop cond after_loop (walk_body body_block)
  connect body_tail cond "back"
  walk_else after_loop
  if_joined after_loop
