-- ===== src/Predicates/Facts.antt =====
-- Type facts and their index, src/flawed/_index/_type_enrichment.py, and how the texts of two types agree,
-- src/flawed/_semantic/_predicate_eval.py.
use flawed.Base.{
  String, Bool, true, false, ◌&&◌, ◌||◌, Option, none, some, List, [], ◌∷◌, ◌++◌, ltb,
  if◌then◌else◌, length, ◌==◌, nat_eq, string_eq, pair_eq,
}
use flawed.Types.{SourceSpan}

pub record TypeFact : Type 0 where
  pub expression : String
  pub declared_type : String
  pub location : SourceSpan
  pub source_tool : String
  pub is_concrete : Bool
  pub containing_function_fqn : Option String

-- the key of a fact: file, expression, function
abbrev pub Scope : Type 0
Scope = String × String × Option String

abbrev option_beq : Option String → Option String → Bool
option_beq none none = true
option_beq (some a) (some b) = a == b
option_beq a b = false

abbrev pub scope_beq : Scope → Scope → Bool
scope_beq (f, e, c) (g, x, d) = f == g && e == x && option_beq c d

pub record TypeEnrichmentIndex : Type 0 where
  pub by_expression_scope : Scope → List TypeFact

abbrev pub expression_scope_key : String → String → Option String → Scope
expression_scope_key expression file containing = (file, expression, containing)

abbrev pub key_of : TypeFact → Scope
key_of fact = expression_scope_key fact.expression fact.location.file fact.containing_function_fqn

-- `by_expression_scope.setdefault(key, []).append(fact)`
unfoldable pub index_fact : (Scope → List TypeFact) → TypeFact → Scope → List TypeFact
index_fact facts fact key =
    if scope_beq (key_of fact) key then facts key ++ fact ∷ [] else facts key

unfoldable pub index_facts : (Scope → List TypeFact) → List TypeFact → Scope → List TypeFact
unfolding index_fact
index_facts indexed [] = indexed
index_facts indexed (fact ∷ facts) = index_facts (index_fact indexed fact) facts

unfoldable pub type_enrichment_index : List TypeFact → TypeEnrichmentIndex
type_enrichment_index facts = record { by_expression_scope = index_facts (λ _. []) facts }

unfoldable pub types_for_expression :
    TypeEnrichmentIndex → String → String → Option String → List TypeFact
types_for_expression index expression file none =
    index.by_expression_scope (expression_scope_key expression file none)
types_for_expression index expression file (some fqn) =
    let scoped = index.by_expression_scope (expression_scope_key expression file (some fqn)) in
    elim scoped [
      | [] ↦ index.by_expression_scope (expression_scope_key expression file none)
      | (fact ∷ facts) ↦ fact ∷ facts
    ]

-- -- texts of types -----------------------------------------------------

-- `left.endswith("." + right)`, a parameter
module _ (ends_with : String → String → Bool) where
  unfoldable pub type_strings_agree : String → String → Bool
  type_strings_agree left right = left == right || ends_with left right || ends_with right left

  abbrev any_agree : String → List String → Bool
  any_agree left [] = false
  any_agree left (seen ∷ others) = type_strings_agree left seen || any_agree left others

  -- the loop of `_concrete_facts_disagree`
  abbrev pub representatives_from : List String → List TypeFact → List String
  representatives_from seen [] = seen
  representatives_from seen (fact ∷ facts) =
      representatives_from
        (if any_agree fact.declared_type seen then seen else seen ++ fact.declared_type ∷ []) facts

  unfoldable pub concrete_facts_disagree : List TypeFact → Bool
  concrete_facts_disagree facts = ltb 1 (length (representatives_from [] facts))

  unfoldable pub type_matches : String → List String → Bool
  type_matches declared_type [] = false
  type_matches declared_type (fqn ∷ fqns) =
      declared_type == fqn
      || ends_with declared_type fqn
      || ends_with fqn declared_type
      || type_matches declared_type fqns
