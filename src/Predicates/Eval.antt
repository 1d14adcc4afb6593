-- ===== src/Predicates/Eval.antt =====
-- The three-valued evaluation of predicates, src/flawed/_semantic/_predicate_eval.py. What Python's
-- `ast.literal_eval` and `str.endswith` compute are parameters. A gap is the reason that its message words;
-- its kind and its phase are always the same.
use flawed.Base.{
  ℕ, String, Bool, true, false, ◌&&◌, ◌||◌, Option, none, some, List, [], ◌∷◌, ◌++◌, if◌then◌else◌,
  keep, ◌==◌, nat_eq, string_eq, pair_eq,
}
use flawed.Types.{CallArgument, CallEdge}
use flawed.Predicates.Facts.{
  TypeFact, TypeEnrichmentIndex, types_for_expression, concrete_facts_disagree, type_matches,
}

pub data WhenPredicate : Type 0 where
  type_check : Option ℕ → Option String → String → List String → WhenPredicate
  literal_string : Option ℕ → Option String → WhenPredicate
  both : WhenPredicate → WhenPredicate → WhenPredicate
  either : WhenPredicate → WhenPredicate → WhenPredicate
  negation : WhenPredicate → WhenPredicate
  -- an instance of the base class or of a class that the evaluation does not know
  unsupported : WhenPredicate

pub data PredicateStatus : Type 0 where
  passed : PredicateStatus
  failed : PredicateStatus
  unknown : PredicateStatus

pub data GapReason : Type 0 where
  needs_enrichment : Option ℕ → String → GapReason
  no_fact : String → GapReason
  imprecise_facts : String → List TypeFact → GapReason
  conflicting_facts : String → List TypeFact → GapReason

pub record AnalysisGap : Type 0 where
  pub reason : GapReason
  pub affected_file : String
  pub affected_function : String

pub record PredicateEval : Type 0 where
  pub status : PredicateStatus
  pub gaps : List AnalysisGap

-- what `ast.literal_eval` returns: a text, a tuple, list or set, a dict of keys and values, anything else
mutual
  pub data Literal : Type 0 where
    str : String → Literal
    sequence : Literals → Literal
    mapping : Pairs → Literal
    other : Literal

  pub data Literals : Type 0 where
    no_literals : Literals
    literal : Literal → Literals → Literals

  pub data Pairs : Type 0 where
    no_pairs : Pairs
    pair : Literal → Literal → Pairs → Pairs

unfoldable mutual
  pub is_literal_string_value : Literal → Bool
  is_literal_string_value (str s) = true
  is_literal_string_value (sequence xs) = all_literal_strings xs
  is_literal_string_value (mapping ps) = all_literal_pairs ps
  is_literal_string_value other = false

  all_literal_strings : Literals → Bool
  all_literal_strings no_literals = true
  all_literal_strings (literal x xs) = is_literal_string_value x && all_literal_strings xs

  all_literal_pairs : Pairs → Bool
  all_literal_pairs no_pairs = true
  all_literal_pairs (pair key item ps) =
      is_literal_string_value key && is_literal_string_value item && all_literal_pairs ps

pub record Python : Type 0 where
  pub literal_eval : String → Option Literal
  -- `left.endswith("." + right)`
  pub ends_with : String → String → Bool

abbrev is_at : Option ℕ → Option ℕ → Bool
is_at none position = false
is_at (some n) none = false
is_at (some n) (some m) = m == n

-- `keyword is not None and argument.keyword == keyword`, or the position where no keyword is given
abbrev pub fits : Option ℕ → Option String → CallArgument → Bool
fits position none argument = is_at position argument.position
fits position (some k) argument = elim argument.keyword [ none ↦ false | some j ↦ j == k ]

unfoldable pub find_argument : List CallArgument → Option ℕ → Option String → Option CallArgument
find_argument [] position keyword = none
find_argument (argument ∷ arguments) position keyword =
    if fits position keyword argument
    then some argument
    else find_argument arguments position keyword

abbrev pub only_status : PredicateStatus → PredicateEval
only_status s = record { status = s; gaps = [] }

abbrev pub unknown_because : CallEdge → GapReason → PredicateEval
unknown_because edge reason = record {
  status = unknown;
  gaps =
      record {
        reason = reason;
        affected_file = edge.location.file;
        affected_function = edge.caller_fqn;
      }
      ∷ [];
}

abbrev pub is_status : PredicateStatus → PredicateStatus → Bool
is_status passed passed = true
is_status failed failed = true
is_status unknown unknown = true
is_status s r = false

-- `_combine_predicates`, with what its two tests say of the sides
unfoldable pub combine_predicates : PredicateEval → PredicateEval → Bool → Bool → PredicateEval
combine_predicates left right failed_when passed_when = record {
  status = if failed_when then failed else if passed_when then passed else unknown;
  gaps = left.gaps ++ right.gaps;
}

module _ (py : Python) where
  unfoldable pub is_literal_string_expression : String → Bool
  is_literal_string_expression expression = elim (py.literal_eval expression) [
    | none ↦ false
    | some value ↦ is_literal_string_value value
  ]

  -- the facts that are concrete, the first one apart
  abbrev pub decide_concrete :
      String → List String → CallEdge → String → TypeFact → List TypeFact → PredicateEval
  decide_concrete type_fqn alt_fqns edge expression fact facts =
      if concrete_facts_disagree py.ends_with (fact ∷ facts)
      then unknown_because edge (conflicting_facts expression (fact ∷ facts))
      else if type_matches py.ends_with fact.declared_type (type_fqn ∷ alt_fqns)
      then only_status passed
      else only_status failed

  abbrev pub decide_kept :
      String → List String → CallEdge → String → List TypeFact → List TypeFact → PredicateEval
  decide_kept type_fqn alt_fqns edge expression matching [] =
      unknown_because edge (imprecise_facts expression matching)
  decide_kept type_fqn alt_fqns edge expression matching (fact ∷ facts) =
      decide_concrete type_fqn alt_fqns edge expression fact facts

  abbrev pub decide_facts : String → List String → CallEdge → String → List TypeFact → PredicateEval
  decide_facts type_fqn alt_fqns edge expression [] = unknown_because edge (no_fact expression)
  decide_facts type_fqn alt_fqns edge expression (fact ∷ facts) =
      decide_kept type_fqn alt_fqns edge expression (fact ∷ facts)
        (keep (λ (f : TypeFact). f.is_concrete) (fact ∷ facts))

  unfoldable pub resolve_type_predicate :
      String → List String → CallArgument → CallEdge → TypeEnrichmentIndex → PredicateEval
  resolve_type_predicate type_fqn alt_fqns arg edge index =
      decide_facts type_fqn alt_fqns edge arg.expression
        (types_for_expression index arg.expression arg.location.file (some edge.caller_fqn))

  unfoldable pub evaluate_type_check :
      Option ℕ
      → String
      → List String
      → Option CallArgument
      → CallEdge
      → Option TypeEnrichmentIndex
      → PredicateEval
  evaluate_type_check position type_fqn alt_fqns none edge enrichment = only_status failed
  evaluate_type_check position type_fqn alt_fqns (some arg) edge none =
      unknown_because edge (needs_enrichment position type_fqn)
  evaluate_type_check position type_fqn alt_fqns (some arg) edge (some index) =
      resolve_type_predicate type_fqn alt_fqns arg edge index

  abbrev pub literal_status : Option CallArgument → PredicateEval
  literal_status none = only_status failed
  literal_status (some arg) =
      only_status (if is_literal_string_expression arg.expression then passed else failed)

  abbrev pub negated : PredicateStatus → PredicateStatus
  negated passed = failed
  negated failed = passed
  negated unknown = unknown

  unfoldable pub evaluate : CallEdge → Option TypeEnrichmentIndex → WhenPredicate → PredicateEval
  unfolding combine_predicates
  evaluate edge enrichment (type_check position keyword type_fqn alt_fqns) =
      evaluate_type_check position type_fqn alt_fqns (find_argument edge.arguments position keyword)
        edge enrichment
  evaluate edge enrichment (literal_string position keyword) =
      literal_status (find_argument edge.arguments position keyword)
  evaluate edge enrichment (negation inner) =
      let result = evaluate edge enrichment inner in
      record { status = negated result.status; gaps = result.gaps }
  evaluate edge enrichment (both left right) =
      let l = evaluate edge enrichment left in
      let r = evaluate edge enrichment right in
      combine_predicates l r (is_status l.status failed || is_status r.status failed)
        (is_status l.status passed && is_status r.status passed)
  evaluate edge enrichment (either left right) =
      let l = evaluate edge enrichment left in
      let r = evaluate edge enrichment right in
      combine_predicates l r (is_status l.status failed && is_status r.status failed)
        (is_status l.status passed || is_status r.status passed)
  evaluate edge enrichment unsupported = only_status unknown

  -- `_evaluate_when_predicate` also takes no predicate at all
  unfoldable pub evaluate_when_predicate :
      CallEdge → Option TypeEnrichmentIndex → Option WhenPredicate → PredicateEval
  evaluate_when_predicate edge enrichment none = only_status passed
  evaluate_when_predicate edge enrichment (some predicate) = evaluate edge enrichment predicate
