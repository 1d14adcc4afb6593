-- ===== src/Predicates/Gaps.antt =====
-- An unknown evaluation says why, src/flawed/_semantic/_predicate_eval.py.
use flawed.Base.{
  ℕ, String, ◌≡◌, refl, inl, inr, Bool, true, false, not, ◌&&◌, ◌||◌, Option, none, some, List, [],
  ◌∷◌, ◌++◌, arith, Bool-cases, nat_eq, string_eq, pair_eq,
}
use flawed.Types.{CallArgument, CallEdge}
use flawed.Predicates.Facts.{
  TypeFact, TypeEnrichmentIndex, types_for_expression, concrete_facts_disagree, type_matches,
}
use flawed.Predicates.Eval.{
  WhenPredicate, type_check, literal_string, both, either, negation, unsupported, PredicateStatus,
  passed, failed, unknown, AnalysisGap, PredicateEval, Python, find_argument, is_status,
  resolve_type_predicate, evaluate_type_check, evaluate, negated, decide_facts, decide_kept,
  decide_concrete, literal_status, is_literal_string_expression,
}
use flawed.Predicates.Sound.{both_of, either_of}

module _ (py : Python) where
  -- -- gaps -------------------------------------------------------------

  abbrev is_empty : List AnalysisGap → Bool
  is_empty [] = true
  is_empty (g ∷ gs) = false

  is_empty-append : (xs ys : List AnalysisGap) → is_empty (xs ++ ys) ≡ (is_empty xs && is_empty ys)
  is_empty-append [] ys = refl
  is_empty-append (x ∷ xs) ys = refl

  -- an evaluation that is unknown has a gap
  abbrev pub is_explained : PredicateEval → Bool
  is_explained e = not (is_status e.status unknown && is_empty e.gaps)

  abbrev pub IsSupported : WhenPredicate → Type 0
  IsSupported unsupported = ⊥
  IsSupported (negation p) = IsSupported p
  IsSupported (both p q) = IsSupported p × IsSupported q
  IsSupported (either p q) = IsSupported p × IsSupported q
  IsSupported _ = Unit {0}

  decide_concrete-is_explained :
      (type_fqn : String) (alt_fqns : List String) (edge : CallEdge) (expression : String)
      (fact : TypeFact) (facts : List TypeFact)
      → is_explained (decide_concrete py type_fqn alt_fqns edge expression fact facts) ≡ true
  decide_concrete-is_explained type_fqn alt_fqns edge expression fact facts =
      elim (Bool-cases (concrete_facts_disagree py.ends_with (fact ∷ facts))) [
        | inl conflict ↦ rw conflict refl
        | inr one ↦
            elim (Bool-cases (type_matches py.ends_with fact.declared_type (type_fqn ∷ alt_fqns))) [
              | inl matched ↦ rw (one, matched) refl
              | inr other ↦ rw (one, other) refl
            ]
      ]

  decide_kept-is_explained :
      (type_fqn : String) (alt_fqns : List String) (edge : CallEdge) (expression : String)
      (matching kept : List TypeFact)
      → is_explained (decide_kept py type_fqn alt_fqns edge expression matching kept) ≡ true
  decide_kept-is_explained type_fqn alt_fqns edge expression matching [] = refl
  decide_kept-is_explained type_fqn alt_fqns edge expression matching (fact ∷ facts) =
      decide_concrete-is_explained type_fqn alt_fqns edge expression fact facts

  decide_facts-is_explained :
      (type_fqn : String) (alt_fqns : List String) (edge : CallEdge) (expression : String)
      (facts : List TypeFact)
      → is_explained (decide_facts py type_fqn alt_fqns edge expression facts) ≡ true
  decide_facts-is_explained type_fqn alt_fqns edge expression [] = refl
  decide_facts-is_explained type_fqn alt_fqns edge expression (fact ∷ facts) =
      decide_kept-is_explained type_fqn alt_fqns edge expression (fact ∷ facts) _

  resolve-is_explained :
      (type_fqn : String) (alt_fqns : List String) (arg : CallArgument) (edge : CallEdge)
      (index : TypeEnrichmentIndex)
      → is_explained (resolve_type_predicate py type_fqn alt_fqns arg edge index) ≡ true
  unfolding resolve_type_predicate
  resolve-is_explained type_fqn alt_fqns arg edge index =
      decide_facts-is_explained type_fqn alt_fqns edge arg.expression
        (types_for_expression index arg.expression arg.location.file (some edge.caller_fqn))

  evaluate_type_check-is_explained :
      (position : Option ℕ) (type_fqn : String) (alt_fqns : List String) (arg : Option CallArgument)
      (edge : CallEdge) (enrichment : Option TypeEnrichmentIndex)
      → is_explained (evaluate_type_check py position type_fqn alt_fqns arg edge enrichment) ≡ true
  unfolding evaluate_type_check
  evaluate_type_check-is_explained position type_fqn alt_fqns none edge enrichment = refl
  evaluate_type_check-is_explained position type_fqn alt_fqns (some arg) edge none = refl
  evaluate_type_check-is_explained position type_fqn alt_fqns (some arg) edge (some index) =
      resolve-is_explained type_fqn alt_fqns arg edge index

  both_of-unknown :
      (l r : PredicateStatus)
      → is_status (both_of py l r) unknown ≡ true
      → (is_status l unknown || is_status r unknown) ≡ true
  both_of-unknown passed passed h = cc
  both_of-unknown passed failed h = cc
  both_of-unknown passed unknown h = refl
  both_of-unknown failed r h = cc
  both_of-unknown unknown r h = refl

  either_of-unknown :
      (l r : PredicateStatus)
      → is_status (either_of py l r) unknown ≡ true
      → (is_status l unknown || is_status r unknown) ≡ true
  either_of-unknown failed passed h = cc
  either_of-unknown failed failed h = cc
  either_of-unknown failed unknown h = refl
  either_of-unknown passed r h = cc
  either_of-unknown unknown r h = refl

  join-is_explained :
      (l r : PredicateEval) (s : PredicateStatus)
      → (is_status s unknown ≡ true
          → (is_status l.status unknown || is_status r.status unknown) ≡ true)
      → is_explained l ≡ true
      → is_explained r ≡ true
      → is_explained (record { status = s; gaps = l.gaps ++ r.gaps }) ≡ true
  join-is_explained l r s h k m = ground (arith, h, k, m, is_empty-append l.gaps r.gaps)

  is_status-negated : (s : PredicateStatus) → is_status (negated py s) unknown ≡ is_status s unknown
  is_status-negated passed = refl
  is_status-negated failed = refl
  is_status-negated unknown = refl

  literal-is_explained : (arg : Option CallArgument) → is_explained (literal_status py arg) ≡ true
  literal-is_explained none = refl
  literal-is_explained (some arg) =
      elim (Bool-cases (is_literal_string_expression py arg.expression)) [
        | inl literal ↦ rw literal refl
        | inr other ↦ rw other refl
      ]

  -- An evaluation never stays unknown in silence: for a predicate of the classes that it knows, an unknown
  -- status comes with a gap that says why.
  pub evaluate-is_explained :
      (edge : CallEdge) (enrichment : Option TypeEnrichmentIndex) (p : WhenPredicate)
      → IsSupported p
      → is_explained (evaluate py edge enrichment p) ≡ true
  unfolding evaluate
  evaluate-is_explained edge enrichment (type_check position keyword type_fqn alt_fqns) h =
      evaluate_type_check-is_explained position type_fqn alt_fqns
        (find_argument edge.arguments position keyword) edge enrichment
  evaluate-is_explained edge enrichment (literal_string position keyword) h =
      literal-is_explained (find_argument edge.arguments position keyword)
  evaluate-is_explained edge enrichment unsupported h = absurd h
  evaluate-is_explained edge enrichment (negation p) h =
      rw (is_status-negated (evaluate py edge enrichment p).status)
        (evaluate-is_explained edge enrichment p h)
  evaluate-is_explained edge enrichment (both p q) (h, k) =
      join-is_explained (evaluate py edge enrichment p) (evaluate py edge enrichment q) _
        (both_of-unknown _ _) (evaluate-is_explained edge enrichment p h)
        (evaluate-is_explained edge enrichment q k)
  evaluate-is_explained edge enrichment (either p q) (h, k) =
      join-is_explained (evaluate py edge enrichment p) (evaluate py edge enrichment q) _
        (either_of-unknown _ _) (evaluate-is_explained edge enrichment p h)
        (evaluate-is_explained edge enrichment q k)
