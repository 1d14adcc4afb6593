-- ===== src/Suppress/Meaning.antt =====
-- What the three sources of a suppression mean, apart from the tests of src/flawed/_cli/suppression.py, and that
-- those tests decide it.
use flawed.Base.{
  ℕ, ◌-◌, String, ◌≡◌, refl, inl, inr, Bool, true, false, not, ◌&&◌, ◌||◌, Option, none, some, List,
  [], ◌∷◌, arith, ltb, if◌then◌else◌, Bool-cases, keep, Dict, lookup, nat_eq, string_eq, contains,
  pair_eq,
}
use flawed.Suppress.Directives.{
  Texts, Location, RuleFinding, Directive, IgnoreSpec, for_file, matches, any_scoped,
}
use flawed.Suppress.Engine.{
  Source, inline, flawedignore, baseline_commit, snippet, is_other_rule, is_unjustified,
}

-- -- what the three sources mean, apart from the code's own tests --------

abbrev is_some : {A : Type 0} → Option A → Bool
is_some none = false
is_some (some a) = true

abbrev is_empty : {A : Type 0} → List A → Bool
is_empty [] = true
is_empty (x ∷ xs) = false

module _ (t : Texts) where
  -- a directive without a list of rules is for every rule
  abbrev pub names_rule : Option (List String) → String → Bool
  names_rule none rule_id = true
  names_rule (some ids) rule_id = contains ids (t.underscored rule_id)

  -- a pattern for all rules matches the file, or one for a list of rules that has this rule
  abbrev pub is_path_ignored : Option IgnoreSpec → Option Location → String → Bool
  is_path_ignored none loc rule_id = false
  is_path_ignored (some s) none rule_id = false
  is_path_ignored (some s) (some loc) rule_id =
      t.match_file s.all_rules loc.file
      || not (
          is_empty (
            keep
              (λ (p : String × List String).
                contains p.1 (t.underscored rule_id) && t.match_file (p.0 ∷ []) loc.file)
              s.scoped))

  -- the baseline has the rule with the text of the finding's line
  abbrev pub is_known : Option (List String) → RuleFinding → Bool
  is_known none finding = false
  is_known (some ks) finding =
      contains ks (t.digest (t.underscored finding.rule_id) (snippet t finding.location))

  any_scoped-keep :
      (scoped : List (String × List String)) (file norm : String)
      → any_scoped t scoped file norm
        ≡ not (
            is_empty (
              keep
                (λ (p : String × List String). contains p.1 norm && t.match_file (p.0 ∷ []) file)
                scoped))
  unfolding any_scoped
  any_scoped-keep [] file norm = refl
  any_scoped-keep ((pattern, ids) ∷ scoped) file norm =
      let rest = any_scoped-keep scoped file norm in
      elim (Bool-cases (contains ids norm && t.match_file (pattern ∷ []) file)) [
        | inl both ↦ rw both refl
        | inr other ↦ rw other rest
      ]

  pub matches-is_path_ignored :
      (s : IgnoreSpec) (loc : Location) (rule_id : String)
      → matches t s loc.file rule_id ≡ is_path_ignored (some s) (some loc) rule_id
  unfolding matches
  matches-is_path_ignored s loc rule_id =
      let rest = any_scoped-keep s.scoped loc.file (t.underscored rule_id) in
      elim (Bool-cases (t.match_file s.all_rules loc.file)) [
        | inl all ↦ rw all refl
        | inr other ↦ rw other rest
      ]

module _ (t : Texts) (strict : Bool) where
  -- a directive for the finding's rule, with a reason if the scan is strict
  abbrev pub applies : RuleFinding → Option Directive → Bool
  applies finding none = false
  applies finding (some entry) =
      names_rule t entry.ids finding.rule_id && (not strict || is_some entry.justification)

  -- such a directive stands on a line or on the line above, if there is one
  abbrev pub on_or_above : RuleFinding → Dict ℕ Directive → ℕ → Bool
  on_or_above finding directives line =
      applies finding (lookup line directives)
      || ltb 0 line && applies finding (lookup (line - 1) directives)

  -- such a directive stands on the line of the finding or on the line above
  abbrev pub has_directive_at : RuleFinding → Option Location → Bool
  has_directive_at finding none = false
  has_directive_at finding (some loc) = on_or_above finding (for_file t loc.file) loc.line

  -- the code's two tests of an entry
  pub tests-applies :
      (finding : RuleFinding) (entry : Directive)
      → (not (is_other_rule t entry.ids finding.rule_id)
          && not (strict && is_unjustified t entry.justification))
        ≡ applies finding (some entry)
  tests-applies finding entry = by_cases entry.ids entry.justification
    where
      by_cases :
          (ids : Option (List String)) (justification : Option String)
          → (not (is_other_rule t ids finding.rule_id)
              && not (strict && is_unjustified t justification))
            ≡ (names_rule t ids finding.rule_id && (not strict || is_some justification))
      by_cases none none = ground arith
      by_cases none (some j) = ground arith
      by_cases (some ids) none = ground arith
      by_cases (some ids) (some j) = ground arith

module _ (t : Texts) (spec : Option IgnoreSpec) (keys : Option (List String)) (strict : Bool) where
  -- the source of a finding's suppression, the most specific one first
  abbrev pub source_for : RuleFinding → Option Source
  source_for finding =
      if has_directive_at t strict finding finding.location
      then some inline
      else if is_path_ignored t spec finding.location finding.rule_id
      then some flawedignore
      else if is_known t keys finding
      then some baseline_commit
      else none

  -- the findings that have a source, each with it
  abbrev pub sourced : List RuleFinding → List (RuleFinding × Source)
  sourced [] = []
  sourced (f ∷ fs) = elim (source_for f) [ none ↦ sourced fs | some s ↦ (f, s) ∷ sourced fs ]
