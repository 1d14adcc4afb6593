-- ===== src/Builder/Syntax.antt =====
-- The statements that src/flawed/_index/_cfg.py walks. LibCST parses them; of a node the builder reads
-- its span and its source text, which are fields here, and its parts. A list of statements is a type
-- of its own, since a statement holds such lists.
use flawed.Base.{String, Bool, Option, List, nat_eq, string_eq}
use flawed.Types.{SourceSpan}

-- An expression in value position, by what `_capture_value_predicates` tells apart.
pub data Value : Type 0 where
  if_exp : Value → Value → Value
  comparison : String → SourceSpan → Value
  boolean_operation : String → SourceSpan → Value
  not_operation : String → SourceSpan → Value
  other_value : Value

-- A small statement. The Boolean of `assign` says that a `yield` stands in it, that of `expr` that its
-- value is one.
pub data Small : Type 0 where
  returns : Option Value → Small
  raises : Small
  breaks : Small
  continues : Small
  assign : Option Value → Bool → Small
  expr : Bool → Small
  other_small : Small

-- A case pattern: `match_as` with its subpattern or without.
pub data Pattern : Type 0 where
  match_as : Bool → Pattern
  other_pattern : Pattern

mutual
  pub data Stmt : Type 0 where
    simple_line : List Small → Stmt
    -- the one-line body of a compound statement, `if x: return`
    simple_suite : List Small → Stmt
    if_stmt : If → Stmt
    -- the test's text and span, the body, the `else` clause
    while_stmt : String → SourceSpan → Stmts → Orelse → Stmt
    -- the iterable's text and span, the target's span, the body, the `else` clause
    for_stmt : String → SourceSpan → SourceSpan → Stmts → Orelse → Stmt
    -- the body, the handlers, the `else` and the `finally` clause
    try_stmt : Stmts → Handlers → Orelse → Orelse → Stmt
    try_star : Stmt
    with_stmt : Stmts → Stmt
    -- the subject's text and span
    match_stmt : String → SourceSpan → Cases → Stmt
    -- a class, a function, and whatever else there is
    definition : Stmt

  -- each statement with its span
  pub data Stmts : Type 0 where
    done : Stmts
    then_stmt : SourceSpan → Stmt → Stmts → Stmts

  -- the test's text and span, the body, what follows
  pub data If : Type 0 where
    if_node : String → SourceSpan → Stmts → Else → If

  pub data Else : Type 0 where
    no_else : Else
    -- the span of the nested `if`
    elif : SourceSpan → If → Else
    else_body : Stmts → Else

  -- an optional clause
  pub data Orelse : Type 0 where
    absent : Orelse
    clause : Stmts → Orelse

  -- the exception types, the bound name, the body
  pub data Handlers : Type 0 where
    no_handlers : Handlers
    handler : List String → Option String → Stmts → Handlers → Handlers

  -- the pattern with its text and span, whether there is a guard, the body
  pub data Cases : Type 0 where
    no_cases : Cases
    case_of : Pattern → String → SourceSpan → Bool → Stmts → Cases → Cases
