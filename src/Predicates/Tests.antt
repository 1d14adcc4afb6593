-- ===== src/Predicates/Tests.antt =====
-- The theorems about predicates at one call with a literal and a name as arguments.
use flawed.Base.{
  ℕ, String, ◌≡◌, refl, true, false, Option, none, some, [], ◌∷◌, if◌then◌else◌, ◌==◌, nat_eq,
  string_eq, pair_eq,
}
use flawed.Types.{SourceSpan, CallArgument, CallEdge, resolved, ast}
use flawed.Predicates.Facts.{
  TypeFact, TypeEnrichmentIndex, type_enrichment_index, types_for_expression, index_facts,
  concrete_facts_disagree, type_matches,
}
use flawed.Predicates.Eval.{
  WhenPredicate, type_check, literal_string, both, either, negation, passed, failed, unknown,
  Python, str, evaluate, find_argument, evaluate_type_check, is_literal_string_expression,
  resolve_type_predicate, is_literal_string_value,
}
use flawed.Predicates.Sound.{holds, Agrees, evaluate-Agrees, AtomsAgree}
use flawed.Predicates.Gaps.{is_explained, evaluate-is_explained}
use flawed.Predicates.Refine.{Refines, evaluate-Refines}

abbrev python : Python
python = record {
  literal_eval = λ e. if e == "'x'" then some (str "x") else none;
  ends_with = λ a b. false;
}

abbrev at : ℕ → SourceSpan
at n = record { file = "a.py"; line = n; column = 0; end_line = n; end_column = 9 }

abbrev argument : ℕ → String → CallArgument
argument n e = record { position = some n; keyword = none; expression = e; location = at 3 }

abbrev call : CallEdge
call = record {
  caller_fqn = "a.f";
  callee_fqn = some "b.g";
  arguments = argument 0 "'x'" ∷ argument 1 "db" ∷ [];
  resolution = resolved;
  source = ast;
  unresolved_reason = none;
  location = at 3;
  provenance = record { producer = "p"; producer_version = "1"; artifact = "a" };
  call_expression = none;
  dynamic_dispatch_kind = none;
}

abbrev fact : TypeFact
fact = record {
  expression = "db";
  declared_type = "Session";
  location = at 3;
  source_tool = "t";
  is_concrete = true;
  containing_function_fqn = some "a.f";
}

abbrev facts : Option TypeEnrichmentIndex
facts = some (type_enrichment_index (fact ∷ []))

abbrev is_session : WhenPredicate
is_session = type_check (some 1) none "Session" []

abbrev guard : WhenPredicate
guard = both (negation is_session) (either (literal_string (some 0) none) is_session)

session_unknown : (evaluate python call none is_session).status ≡ unknown
unfolding evaluate evaluate_type_check find_argument
session_unknown = refl

session_passed : (evaluate python call facts is_session).status ≡ passed
unfolding evaluate evaluate_type_check find_argument resolve_type_predicate types_for_expression
    type_enrichment_index index_facts concrete_facts_disagree type_matches
session_passed = refl

-- a guard that passes with facts, and its negation, which fails
abbrev decided : WhenPredicate
decided = both is_session (either (negation is_session) (literal_string (some 0) none))

abbrev refused : WhenPredicate
refused = negation decided

decided_passed : (evaluate python call facts decided).status ≡ passed
unfolding evaluate evaluate_type_check find_argument resolve_type_predicate types_for_expression
    type_enrichment_index index_facts concrete_facts_disagree type_matches
    is_literal_string_expression is_literal_string_value
decided_passed = refl

refused_failed : (evaluate python call facts refused).status ≡ failed
unfolding evaluate evaluate_type_check find_argument resolve_type_predicate types_for_expression
    type_enrichment_index index_facts concrete_facts_disagree type_matches
    is_literal_string_expression is_literal_string_value
refused_failed = refl

refused_atoms : AtomsAgree python call facts (λ _. true) refused
unfolding evaluate evaluate_type_check find_argument resolve_type_predicate types_for_expression
    type_enrichment_index index_facts concrete_facts_disagree type_matches
    is_literal_string_expression is_literal_string_value
refused_atoms = (refl, (refl, refl))

-- a predicate that is decided without facts, since its left side passes
abbrev literal_or_session : WhenPredicate
literal_or_session = either (literal_string (some 0) none) is_session

literal_or_session_passed : (evaluate python call none literal_or_session).status ≡ passed
unfolding evaluate evaluate_type_check find_argument is_literal_string_expression
    is_literal_string_value
literal_or_session_passed = refl

-- -- witnesses --------------------------------------------------------

-- the status is `failed`, so that the conclusion is that the predicate is false
evaluate-Agrees_example :
    Agrees python (evaluate python call facts refused).status (holds python (λ _. true) refused)
evaluate-Agrees_example = evaluate-Agrees python call facts (λ _. true) refused refused_atoms

evaluate-is_explained_example : is_explained python (evaluate python call none guard) ≡ true
evaluate-is_explained_example = evaluate-is_explained python call none guard (tt, (tt, tt))

-- the first status is `passed`, so that the conclusion is that the second is too
evaluate-Refines_example :
    Refines python
      (evaluate python call none literal_or_session).status
      (evaluate python call facts literal_or_session).status
evaluate-Refines_example = evaluate-Refines python call facts literal_or_session
