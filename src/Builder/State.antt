-- ===== src/Builder/State.antt =====
-- The state of `CFGBuilder` in src/flawed/_index/_cfg.py, and the operations that change it. The dict
-- `_blocks` has the keys 0 .. `next_id` - 1, in this order; it is a function, read at those keys only.
-- A block object that the code holds is its id here, so that a write to it is seen by every holder.
use flawed.Base.{
  ℕ, suc, String, Bool, true, false, Option, none, some, List, [], ◌∷◌, ◌++◌, ltb, if◌then◌else◌,
  nat_eq, string_eq,
}
use flawed.Types.{SourceSpan, ValuePredicate, CfgEdge, TryExceptRegion}
use flawed.Dominators.{update}
use flawed.Builder.Syntax.{Value, if_exp, comparison, boolean_operation, not_operation, other_value}

pub record MutableBlock : Type 0 where
  pub statements : List SourceSpan
  pub succs : List ℕ
  pub preds : List ℕ
  pub condition_expr : Option String
  pub condition_location : Option SourceSpan
  pub value_predicates : List ValuePredicate

pub record ExtractionError : Type 0 where
  pub file : String
  pub pass_name : String
  pub error_kind : String
  pub message : String
  pub is_fatal : Bool
  pub location : SourceSpan

pub record Builder : Type 0 where
  pub file : String
  pub depth_budget : ℕ
  pub depth_budget_reported : Bool
  pub blocks : ℕ → MutableBlock
  pub edges : List CfgEdge
  pub errors : List ExtractionError
  pub try_regions : List TryExceptRegion
  pub next_id : ℕ
  -- (continue_target, break_target), the innermost loop first
  pub loop_stack : List (ℕ × ℕ)

abbrev pub M : Type 0 → Type 0
M A = Builder → A × Builder

infixl 5 ◌>>=◌ ◌>>◌
unfoldable pub ◌>>=◌ : {A B : Type 0} → M A → (A → M B) → M B
◌>>=◌ m f b = f (m b).0 (m b).1

unfoldable pub ◌>>◌ : {A B : Type 0} → M A → M B → M B
◌>>◌ m k b = k (m b).1

unfoldable pub pure : {A : Type 0} → A → M A
pure a b = (a, b)

abbrev pub empty_block : MutableBlock
empty_block = record {
  statements = [];
  succs = [];
  preds = [];
  condition_expr = none;
  condition_location = none;
  value_predicates = [];
}

unfoldable pub new_block : M ℕ
new_block b = (
  b.next_id,
  record b { next_id = suc b.next_id; blocks = update b.blocks b.next_id empty_block },
)

-- `f(self._blocks[i])` if the key is there
abbrev pub at_block : ℕ → (MutableBlock → MutableBlock) → Builder → Builder
at_block i f b =
    if ltb i b.next_id then record b { blocks = update b.blocks i (f (b.blocks i)) } else b

abbrev pub edge : ℕ → ℕ → String → Bool → CfgEdge
edge src tgt label exceptional = record {
  source_id = src;
  target_id = tgt;
  label = label;
  is_exceptional = exceptional;
}

unfoldable pub add_edge_with : ℕ → ℕ → String → Bool → M (Unit {0})
add_edge_with src tgt label exceptional b = (
  tt,
  at_block src (λ k. record k { succs = k.succs ++ tgt ∷ [] })
      (at_block tgt (λ k. record k { preds = k.preds ++ src ∷ [] })
        (record b { edges = b.edges ++ edge src tgt label exceptional ∷ [] })),
)

abbrev pub add_edge : ℕ → ℕ → String → M (Unit {0})
add_edge src tgt label = add_edge_with src tgt label false

-- `block.statements.append(span)`
unfoldable pub add_statement : ℕ → SourceSpan → M (Unit {0})
add_statement i span b =
    (tt, at_block i (λ k. record k { statements = k.statements ++ span ∷ [] }) b)

-- the assignments of `condition_expr` and `condition_location`
unfoldable pub set_condition : ℕ → String → SourceSpan → M (Unit {0})
set_condition i text span b = (
  tt,
  at_block i (λ k. record k { condition_expr = some text; condition_location = some span }) b,
)

abbrev pub cfg_error : Builder → String → SourceSpan → ExtractionError
cfg_error b message span = record {
  file = b.file;
  pass_name = "cfg_builder";
  error_kind = "cfg";
  message = message;
  is_fatal = false;
  location = span;
}

abbrev pub deferred_message : String
deferred_message = "Deferred construct: except*"

abbrev pub depth_message : String
depth_message = "CFG depth budget exceeded; treating the remaining subtree as opaque control flow"

-- `_deferred("except*", stmt)`
unfoldable pub deferred : SourceSpan → M (Unit {0})
deferred span b = (tt, record b { errors = b.errors ++ cfg_error b deferred_message span ∷ [] })

-- the first time only, an error
unfoldable pub report_depth : SourceSpan → M (Unit {0})
report_depth span b = (
  tt,
  if b.depth_budget_reported then b else record b {
    errors = b.errors ++ cfg_error b depth_message span ∷ [];
    depth_budget_reported = true;
  },
)

unfoldable pub degrade_depth_budget : SourceSpan → ℕ → M ℕ
degrade_depth_budget span current = do report_depth span; add_statement current span; pure current

unfoldable pub add_value_predicate : ℕ → String → SourceSpan → String → M (Unit {0})
add_value_predicate i text span position b =
    let p : ValuePredicate = record { expression = text; location = span; position = position } in
    (tt, at_block i (λ k. record k { value_predicates = k.value_predicates ++ p ∷ [] }) b)

unfoldable pub capture_value_predicates : Value → String → ℕ → M (Unit {0})
capture_value_predicates (if_exp body orelse) position block =
    capture_value_predicates body "ternary" block >> capture_value_predicates orelse "ternary" block
capture_value_predicates (comparison text span) position block =
    add_value_predicate block text span position
capture_value_predicates (boolean_operation text span) position block =
    add_value_predicate block text span position
capture_value_predicates (not_operation text span) position block =
    add_value_predicate block text span position
capture_value_predicates other_value position block = pure tt

abbrev pub tail_of : List (ℕ × ℕ) → List (ℕ × ℕ)
tail_of [] = []
tail_of (x ∷ xs) = xs

-- `self._loop_stack.append(...)`, the body, `self._loop_stack.pop()`
unfoldable pub in_loop : {A : Type 0} → ℕ → ℕ → M A → M A
in_loop continue_target break_target m b =
    let r = m (record b { loop_stack = (continue_target, break_target) ∷ b.loop_stack }) in
    (r.0, record (r.1) { loop_stack = tail_of r.1.loop_stack })

-- `block.block_id if block.preds else None`
unfoldable pub if_joined : ℕ → M (Option ℕ)
if_joined i b = (elim (b.blocks i).preds [ [] ↦ none | _ ∷ _ ↦ some i ], b)

-- `if tail is not None: self._add_edge(tail, target, label)`
unfoldable pub connect : Option ℕ → ℕ → String → M (Unit {0})
connect none target label = pure tt
connect (some tail) target label = add_edge tail target label
