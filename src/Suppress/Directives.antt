-- ===== src/Suppress/Directives.antt =====
-- Findings, inline directives and the `.flawedignore` file of src/flawed/_cli/suppression.py. Python's
-- text methods, the regular expression of a directive, gitignore matching and hashing are parameters.
use flawed.Base.{
  ℕ, suc, String, Bool, true, false, ◌&&◌, ◌||◌, Option, none, some, List, [], ◌∷◌, if◌then◌else◌,
  add, Dict, ◌==◌, nat_eq, string_eq, contains, pair_eq,
}

-- the groups of a match of `_INLINE_DIRECTIVE`
pub record DirectiveMatch : Type 0 where
  pub ids : Option String
  pub reason : Option String

pub record Texts : Type 0 where
  pub splitlines : String → List String
  -- `"\n".join(lines)`
  pub join_lines : List String → String
  pub strip : String → String
  -- `rule_id.replace("-", "_").lower()`
  pub underscored : String → String
  -- `line.startswith("#")`
  pub is_comment : String → Bool
  -- `line.split(None, 1)` of a line that is not blank: its first word and the rest of it
  pub split_once : String → String × Option String
  -- `text.split(",")`
  pub split_commas : String → List String
  -- `_INLINE_DIRECTIVE.search`
  pub search : String → Option DirectiveMatch
  -- `pathspec.PathSpec.from_lines("gitignore", patterns).match_file`
  pub match_file : List String → String → Bool
  -- the first 16 hexadecimal digits of the hash of two texts with a zero byte between them
  pub digest : String → String → String
  -- the lines of a file of the repository, if it can be read
  pub read_lines : String → Option (List String)

pub record Location : Type 0 where
  pub file : String
  pub line : ℕ

-- a finding of one rule: `fingerprint` is that of the finding without its rule
pub record RuleFinding : Type 0 where
  pub rule_id : String
  pub evidence : String
  pub location : Option Location

pub record Directive : Type 0 where
  -- `none` is every rule
  pub ids : Option (List String)
  pub justification : Option String

pub record IgnoreSpec : Type 0 where
  pub all_rules : List String
  pub scoped : List (String × List String)

module _ (t : Texts) where
  abbrev pub norm_rule_id : String → String
  norm_rule_id s = t.underscored s

  abbrev pub fingerprint : RuleFinding → String
  fingerprint f = t.digest f.rule_id f.evidence

  -- `frozenset(_norm_rule_id(p.strip()) for p in ... if p.strip())`
  unfoldable pub norm_ids : List String → List String
  norm_ids [] = []
  norm_ids (p ∷ ps) =
      if t.strip p == "" then norm_ids ps else add (norm_ids ps) (norm_rule_id (t.strip p))

  -- -- inline directives ------------------------------------------------

  unfoldable pub directive_of : DirectiveMatch → Directive
  unfolding norm_ids
  directive_of m = record {
    ids = elim m.ids [
      | none ↦ none
      | some raw ↦ if t.strip raw == "" then none else some (norm_ids (t.split_commas raw))
    ];
    justification = elim m.reason [
      | none ↦ none
      | some raw ↦ if raw == "" then none else some (t.strip raw)
    ];
  }

  -- the lines from number `lineno` on
  unfoldable pub directives_from : ℕ → List String → Dict ℕ Directive
  unfolding directive_of
  directives_from lineno [] = []
  directives_from lineno (line ∷ lines) =
      let rest = directives_from (suc lineno) lines in
      elim (t.search line) [ none ↦ rest | some m ↦ (lineno, directive_of m) ∷ rest ]

  unfoldable pub parse_inline_directives : String → Dict ℕ Directive
  unfolding directives_from
  parse_inline_directives text = directives_from 1 (t.splitlines text)

  -- `_DirectiveCache.for_file`; the cache only saves the work
  unfoldable pub for_file : String → Dict ℕ Directive
  unfolding parse_inline_directives
  for_file rel_file = elim (t.read_lines rel_file) [
    | none ↦ parse_inline_directives ""
    | some lines ↦ parse_inline_directives (t.join_lines lines)
  ]

  -- -- .flawedignore ----------------------------------------------------

  abbrev add_pattern : String → IgnoreSpec → IgnoreSpec
  add_pattern pattern spec = record spec { all_rules = pattern ∷ spec.all_rules }

  -- the line of one rule list, in front of what the later lines give
  unfoldable pub parse_ignore_line : String → IgnoreSpec → IgnoreSpec
  unfolding norm_ids
  parse_ignore_line raw spec =
      let line = t.strip raw in
      if line == "" || t.is_comment line then spec else elim ((t.split_once line).1) [
        | none ↦ add_pattern (t.split_once line).0 spec
        | some rules ↦ elim (norm_ids (t.split_commas rules)) [
          | [] ↦ add_pattern (t.split_once line).0 spec
          | (id ∷ ids) ↦ record spec { scoped = ((t.split_once line).0, id ∷ ids) ∷ spec.scoped }
        ]
      ]

  unfoldable pub parse_ignore_lines : List String → IgnoreSpec
  unfolding parse_ignore_line
  parse_ignore_lines [] = record { all_rules = []; scoped = [] }
  parse_ignore_lines (raw ∷ lines) = parse_ignore_line raw (parse_ignore_lines lines)

  unfoldable pub parse_ignore : String → IgnoreSpec
  unfolding parse_ignore_lines
  parse_ignore text = parse_ignore_lines (t.splitlines text)

  unfoldable pub any_scoped : List (String × List String) → String → String → Bool
  any_scoped [] rel_file norm = false
  any_scoped ((pattern, ids) ∷ scoped) rel_file norm =
      contains ids norm && t.match_file (pattern ∷ []) rel_file || any_scoped scoped rel_file norm

  unfoldable pub matches : IgnoreSpec → String → String → Bool
  unfolding any_scoped
  matches spec rel_file rule_id =
      if t.match_file spec.all_rules rel_file
      then true
      else any_scoped spec.scoped rel_file (norm_rule_id rule_id)
