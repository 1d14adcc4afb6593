-- ===== src/Suppress/Tests.antt =====
-- The theorems about suppression at a file with one directive.
use flawed.Base.{
  ℕ, String, ◌≡◌, refl, true, false, Option, none, some, List, [], ◌∷◌, map, if◌then◌else◌, keep,
  lookup, ◌==◌, nat_eq, string_eq, contains, pair_eq,
}
use flawed.Suppress.Directives.{Texts, RuleFinding, IgnoreSpec, for_file, matches}
use flawed.Suppress.Engine.{
  split_findings, record_for, inline_record, first_directive, ignored_record, baseline_record,
  inline, flawedignore, compute_suppressions,
}
use flawed.Suppress.Dedup.{deduplicate_findings, first_with, IsDistinct, deduplicate_findings-first}
use flawed.Suppress.Partition.{AllRecords, is_none}
use flawed.Suppress.Meaning.{source_for, sourced}
use flawed.Suppress.Sources.{
  attribution, IsJustified, compute_suppressions-sources, compute_suppressions-IsJustified,
}

-- texts in which two lines are directives, and a pattern matches the file of its name only
abbrev texts : Texts
texts = record {
  splitlines = λ s. s ∷ [];
  join_lines = λ ls. elim ls [ [] ↦ "" | (l ∷ _) ↦ l ];
  strip = λ s. s;
  underscored = λ s. s;
  is_comment = λ s. false;
  split_once = λ s. (s, none);
  split_commas = λ s. s ∷ [];
  search = λ s.
      if s == "# flawed: ignore -- ok"
      then some (record { ids = none; reason = some "ok" })
      else if s == "# flawed: ignore[other] -- ok"
      then some (record { ids = some "other"; reason = some "ok" })
      else none;
  match_file = λ patterns file. contains patterns file;
  digest = λ a b. b;
  read_lines = λ file.
      if file == "a.py"
      then some ("# flawed: ignore -- ok" ∷ [])
      else if file == "c.py"
      then some ("# flawed: ignore[other] -- ok" ∷ [])
      else none;
}

abbrev a_finding : String → String → ℕ → RuleFinding
a_finding evidence file line = record {
  rule_id = "rule";
  evidence = evidence;
  location = some (record { file = file; line = line });
}

abbrev findings : List RuleFinding
findings =
    a_finding "1" "a.py" 2
    ∷ a_finding "2" "vendor" 7
    ∷ a_finding "1" "b.py" 3
    ∷ a_finding "3" "c.py" 1
    ∷ []

abbrev vendored : Option IgnoreSpec
vendored = some (record { all_rules = "vendor" ∷ []; scoped = [] })

-- the first finding has a directive above it, the second is vendored; the third has no source, and the
-- fourth only a directive for another rule
sourced_run :
    sourced texts vendored none true findings
    ≡ (a_finding "1" "a.py" 2, inline) ∷ (a_finding "2" "vendor" 7, flawedignore) ∷ []
unfolding lookup for_file
sourced_run = refl

compute_suppressions_run :
    (compute_suppressions texts vendored none true findings).0.active
    ≡ a_finding "1" "b.py" 3 ∷ a_finding "3" "c.py" 1 ∷ []
unfolding compute_suppressions lookup for_file matches split_findings record_for inline_record
    first_directive ignored_record baseline_record
compute_suppressions_run = refl

-- -- witnesses --------------------------------------------------------

compute_suppressions-sources_example :
    ((compute_suppressions texts vendored none true findings).0.active
      ≡ keep (λ f. is_none (source_for texts vendored none true f)) findings)
    × (map
          (attribution texts vendored none true)
          (compute_suppressions texts vendored none true findings).0.suppressed
        ≡ sourced texts vendored none true findings)
compute_suppressions-sources_example =
    compute_suppressions-sources texts vendored none true findings

compute_suppressions-IsJustified_example :
    AllRecords
      (IsJustified texts vendored none true)
      (compute_suppressions texts vendored none true findings).0.suppressed
compute_suppressions-IsJustified_example =
    compute_suppressions-IsJustified texts vendored none true findings

deduplicate_findings-first_example :
    IsDistinct texts (deduplicate_findings texts findings)
    × ((fp : String)
        → first_with texts fp (deduplicate_findings texts findings) ≡ first_with texts fp findings)
deduplicate_findings-first_example = deduplicate_findings-first texts findings
