-- ===== src/Types.antt =====
-- The records of src/flawed/_index/_types.py that the graphs are made of. Line and column numbers and
-- block ids are natural numbers.
use flawed.Base.{ℕ, String, Bool, Option, List, nat_eq, string_eq}

pub record SourceSpan : Type 0 where
  pub file : String
  pub line : ℕ
  pub column : ℕ
  pub end_line : ℕ
  pub end_column : ℕ

pub record ValuePredicate : Type 0 where
  pub expression : String
  pub location : SourceSpan
  pub position : String

pub record CfgBlock : Type 0 where
  pub id : ℕ
  pub statements : List SourceSpan
  pub successors : List ℕ
  pub predecessors : List ℕ
  pub condition_expr : Option String
  pub condition_location : Option SourceSpan
  pub value_predicates : List ValuePredicate

pub record CfgEdge : Type 0 where
  pub source_id : ℕ
  pub target_id : ℕ
  pub label : String
  pub is_exceptional : Bool

pub record ExceptHandler : Type 0 where
  pub exception_types : List String
  pub entry_block_id : ℕ
  pub name : Option String

pub record TryExceptRegion : Type 0 where
  pub try_body_block_ids : List ℕ
  pub handlers : List ExceptHandler
  pub finally_block_id : Option ℕ
  pub else_block_id : Option ℕ
  pub location : SourceSpan

pub record BranchCondition : Type 0 where
  pub condition_expr : String
  pub direction : Bool
  pub location : SourceSpan

pub record CfgPath : Type 0 where
  pub blocks : List CfgBlock
  pub conditions : List BranchCondition

pub data EdgeSource : Type 0 where
  ast : EdgeSource
  hierarchy : EdgeSource

pub data ResolutionStatus : Type 0 where
  resolved : ResolutionStatus
  unresolved : ResolutionStatus
  partial : ResolutionStatus

pub data FlowKind : Type 0 where
  assign : FlowKind
  argument : FlowKind
  return_value : FlowKind
  alias : FlowKind
  unpack : FlowKind
  augmented_assign : FlowKind
  annotated_assign : FlowKind
  chain : FlowKind
  comprehension_binding : FlowKind
  attribute_write : FlowKind
  yield_value : FlowKind
  transform_input : FlowKind

pub record ExtractionProvenance : Type 0 where
  pub producer : String
  pub producer_version : String
  pub artifact : String

pub record CallArgument : Type 0 where
  pub position : Option ℕ
  pub keyword : Option String
  pub expression : String
  pub location : SourceSpan

pub record CallEdge : Type 0 where
  pub caller_fqn : String
  pub callee_fqn : Option String
  pub arguments : List CallArgument
  pub resolution : ResolutionStatus
  pub source : EdgeSource
  pub unresolved_reason : Option String
  pub location : SourceSpan
  pub provenance : ExtractionProvenance
  pub call_expression : Option String
  pub dynamic_dispatch_kind : Option String

pub record SymbolRef : Type 0 where
  pub name : String
  pub fqn : Option String
  pub resolution : ResolutionStatus
  pub location : SourceSpan
  pub provenance : ExtractionProvenance

pub record ValueFlowEdge : Type 0 where
  pub source_expr : String
  pub source_location : SourceSpan
  pub target_expr : String
  pub target_location : SourceSpan
  pub kind : FlowKind
  pub containing_function_fqn : Option String
  pub provenance : ExtractionProvenance
  pub callsite_callee_fqn : Option String
  pub callsite_expr : Option String
  pub argument_position : Option ℕ
  pub argument_keyword : Option String
