-- ===== src/Predicates/Sound.antt =====
-- What an evaluation promises, src/flawed/_semantic/_predicate_eval.py.
use flawed.Base.{
  ◌≡◌, Bool, true, false, not, ◌&&◌, ◌||◌, Option, arith, if◌then◌else◌, nat_eq, string_eq, pair_eq,
}
use flawed.Types.{CallEdge}
use flawed.Predicates.Facts.{TypeEnrichmentIndex}
use flawed.Predicates.Eval.{
  WhenPredicate, type_check, literal_string, both, either, negation, unsupported, PredicateStatus,
  passed, failed, unknown, Python, is_status, evaluate, negated,
}

module _ (py : Python) where
  -- -- two-valued reading -------------------------------------------------

  -- a predicate under an assignment of truth values to what is not a connective
  abbrev pub holds : (WhenPredicate → Bool) → WhenPredicate → Bool
  holds v (type_check position keyword type_fqn alt_fqns) =
      v (type_check position keyword type_fqn alt_fqns)
  holds v (literal_string position keyword) = v (literal_string position keyword)
  holds v unsupported = v unsupported
  holds v (negation p) = not (holds v p)
  holds v (both p q) = holds v p && holds v q
  holds v (either p q) = holds v p || holds v q

  -- a status says nothing against a truth value
  abbrev pub Agrees : PredicateStatus → Bool → Type 0
  Agrees passed b = b ≡ true
  Agrees failed b = b ≡ false
  Agrees unknown b = Unit {0}

  Agrees-negated : (s : PredicateStatus) (b : Bool) → Agrees s b → Agrees (negated py s) (not b)
  Agrees-negated passed b h = ground (arith, h)
  Agrees-negated failed b h = ground (arith, h)
  Agrees-negated unknown b h = tt

  abbrev pub both_of : PredicateStatus → PredicateStatus → PredicateStatus
  both_of l r =
      if is_status l failed || is_status r failed
      then failed
      else if is_status l passed && is_status r passed
      then passed
      else unknown

  Agrees-both :
      (l r : PredicateStatus) (b c : Bool) → Agrees l b → Agrees r c → Agrees (both_of l r) (b && c)
  Agrees-both passed passed b c h k = ground (arith, h, k)
  Agrees-both passed failed b c h k = ground (arith, h, k)
  Agrees-both passed unknown b c h k = tt
  Agrees-both failed r b c h k = ground (arith, h)
  Agrees-both unknown passed b c h k = tt
  Agrees-both unknown failed b c h k = ground (arith, k)
  Agrees-both unknown unknown b c h k = tt

  abbrev pub either_of : PredicateStatus → PredicateStatus → PredicateStatus
  either_of l r =
      if is_status l failed && is_status r failed
      then failed
      else if is_status l passed || is_status r passed
      then passed
      else unknown

  Agrees-either :
      (l r : PredicateStatus) (b c : Bool)
      → Agrees l b
      → Agrees r c
      → Agrees (either_of l r) (b || c)
  Agrees-either failed failed b c h k = ground (arith, h, k)
  Agrees-either failed passed b c h k = ground (arith, h, k)
  Agrees-either failed unknown b c h k = tt
  Agrees-either passed r b c h k = ground (arith, h)
  Agrees-either unknown passed b c h k = ground (arith, k)
  Agrees-either unknown failed b c h k = tt
  Agrees-either unknown unknown b c h k = tt

  -- the assignment says of every atom of the predicate what its evaluation says, where that says anything
  abbrev pub AtomsAgree :
      CallEdge → Option TypeEnrichmentIndex → (WhenPredicate → Bool) → WhenPredicate → Type 0
  AtomsAgree edge enrichment v (negation p) = AtomsAgree edge enrichment v p
  AtomsAgree edge enrichment v (both p q) =
      AtomsAgree edge enrichment v p × AtomsAgree edge enrichment v q
  AtomsAgree edge enrichment v (either p q) =
      AtomsAgree edge enrichment v p × AtomsAgree edge enrichment v q
  AtomsAgree edge enrichment v p = Agrees (evaluate py edge enrichment p).status (v p)

  -- A predicate that passes is true, and one that fails is false, whatever the atoms are that the evaluation
  -- could not decide.
  pub evaluate-Agrees :
      (edge : CallEdge) (enrichment : Option TypeEnrichmentIndex) (v : WhenPredicate → Bool)
      (p : WhenPredicate)
      → AtomsAgree edge enrichment v p
      → Agrees (evaluate py edge enrichment p).status (holds v p)
  unfolding evaluate
  evaluate-Agrees edge enrichment v (type_check position keyword type_fqn alt_fqns) h = h
  evaluate-Agrees edge enrichment v (literal_string position keyword) h = h
  evaluate-Agrees edge enrichment v unsupported h = h
  evaluate-Agrees edge enrichment v (negation p) h =
      Agrees-negated (evaluate py edge enrichment p).status (holds v p)
        (evaluate-Agrees edge enrichment v p h)
  evaluate-Agrees edge enrichment v (both p q) (h, k) =
      Agrees-both (evaluate py edge enrichment p).status (evaluate py edge enrichment q).status
        (holds v p) (holds v q) (evaluate-Agrees edge enrichment v p h)
        (evaluate-Agrees edge enrichment v q k)
  evaluate-Agrees edge enrichment v (either p q) (h, k) =
      Agrees-either (evaluate py edge enrichment p).status (evaluate py edge enrichment q).status
        (holds v p) (holds v q) (evaluate-Agrees edge enrichment v p h)
        (evaluate-Agrees edge enrichment v q k)
