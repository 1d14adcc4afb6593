-- ===== src/Predicates/Refine.antt =====
-- Type facts only decide more, src/flawed/_semantic/_predicate_eval.py.
use flawed.Base.{ℕ, String, ◌≡◌, refl, ap, Option, none, some, List, nat_eq, string_eq, pair_eq}
use flawed.Types.{CallArgument, CallEdge}
use flawed.Predicates.Facts.{TypeEnrichmentIndex}
use flawed.Predicates.Eval.{
  WhenPredicate, type_check, literal_string, both, either, negation, unsupported, PredicateStatus,
  passed, failed, unknown, Python, find_argument, evaluate_type_check, evaluate, negated,
}
use flawed.Predicates.Sound.{both_of, either_of}

module _ (py : Python) where
  -- the first status is unknown, or the second is the same
  abbrev pub Refines : PredicateStatus → PredicateStatus → Type 0
  Refines unknown r = Unit {0}
  Refines passed r = r ≡ passed
  Refines failed r = r ≡ failed

  Refines-refl : (s : PredicateStatus) → Refines s s
  Refines-refl passed = refl
  Refines-refl failed = refl
  Refines-refl unknown = tt

  Refines-negated : (s r : PredicateStatus) → Refines s r → Refines (negated py s) (negated py r)
  Refines-negated passed r h = ap (negated py) h
  Refines-negated failed r h = ap (negated py) h
  Refines-negated unknown r h = tt

  both_of-failed : (s : PredicateStatus) → both_of py s failed ≡ failed
  both_of-failed passed = refl
  both_of-failed failed = refl
  both_of-failed unknown = refl

  either_of-passed : (s : PredicateStatus) → either_of py s passed ≡ passed
  either_of-passed passed = refl
  either_of-passed failed = refl
  either_of-passed unknown = refl

  Refines-both :
      (l r m n : PredicateStatus)
      → Refines l m
      → Refines r n
      → Refines (both_of py l r) (both_of py m n)
  Refines-both passed passed m n h k = rw (h, k) refl
  Refines-both passed failed m n h k = rw (h, k) refl
  Refines-both passed unknown m n h k = tt
  Refines-both failed r m n h k = rw h refl
  Refines-both unknown passed m n h k = tt
  Refines-both unknown failed m n h k = rw k (both_of-failed m)
  Refines-both unknown unknown m n h k = tt

  Refines-either :
      (l r m n : PredicateStatus)
      → Refines l m
      → Refines r n
      → Refines (either_of py l r) (either_of py m n)
  Refines-either failed failed m n h k = rw (h, k) refl
  Refines-either failed passed m n h k = rw (h, k) refl
  Refines-either failed unknown m n h k = tt
  Refines-either passed r m n h k = rw h refl
  Refines-either unknown failed m n h k = tt
  Refines-either unknown passed m n h k = rw k (either_of-passed m)
  Refines-either unknown unknown m n h k = tt

  evaluate_type_check-Refines :
      (position : Option ℕ) (type_fqn : String) (alt_fqns : List String) (arg : Option CallArgument)
      (edge : CallEdge) (enrichment : Option TypeEnrichmentIndex)
      → Refines
          (evaluate_type_check py position type_fqn alt_fqns arg edge none).status
          (evaluate_type_check py position type_fqn alt_fqns arg edge enrichment).status
  unfolding evaluate_type_check
  evaluate_type_check-Refines position type_fqn alt_fqns none edge enrichment = refl
  evaluate_type_check-Refines position type_fqn alt_fqns (some arg) edge enrichment = tt

  -- What is decided without type facts is decided in the same way with them, whatever the facts are.
  pub evaluate-Refines :
      (edge : CallEdge) (enrichment : Option TypeEnrichmentIndex) (p : WhenPredicate)
      → Refines (evaluate py edge none p).status (evaluate py edge enrichment p).status
  unfolding evaluate
  evaluate-Refines edge enrichment (type_check position keyword type_fqn alt_fqns) =
      evaluate_type_check-Refines position type_fqn alt_fqns
        (find_argument edge.arguments position keyword) edge enrichment
  evaluate-Refines edge enrichment (literal_string position keyword) = Refines-refl _
  evaluate-Refines edge enrichment unsupported = tt
  evaluate-Refines edge enrichment (negation p) =
      Refines-negated _ _ (evaluate-Refines edge enrichment p)
  evaluate-Refines edge enrichment (both p q) =
      Refines-both (evaluate py edge none p).status (evaluate py edge none q).status _ _
        (evaluate-Refines edge enrichment p) (evaluate-Refines edge enrichment q)
  evaluate-Refines edge enrichment (either p q) =
      Refines-either (evaluate py edge none p).status (evaluate py edge none q).status _ _
        (evaluate-Refines edge enrichment p) (evaluate-Refines edge enrichment q)
