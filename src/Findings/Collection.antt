-- ===== src/Findings/Collection.antt =====
-- Collections of findings, src/flawed/findings.py, class FindingCollection.
use flawed.Base.{
  String, Bool, true, false, not, none, some, List, [], ◌∷◌, leb, nat_beq, if◌then◌else◌, keep,
  Dict, lookup, insert, ◌==◌, nat_eq, string_eq, pair_eq,
}
use flawed.Findings.Severity.{Severity, value_of}
use flawed.Findings.Records.{FindingRecord}

unfoldable pub where_holds : (FindingRecord → Bool) → List FindingRecord → List FindingRecord
where_holds predicate items = keep predicate items

abbrev pub by_rule : String → List FindingRecord → List FindingRecord
by_rule rule_id items = where_holds (λ r. r.rule_id == rule_id) items

abbrev pub by_severity : Severity → List FindingRecord → List FindingRecord
by_severity target items = where_holds (λ r. nat_beq (value_of r.severity) (value_of target)) items

abbrev pub min_severity : Severity → List FindingRecord → List FindingRecord
min_severity floor items = where_holds (λ r. leb (value_of floor) (value_of r.severity)) items

abbrev pub with_gap : List FindingRecord → List FindingRecord
with_gap items = where_holds (λ r. elim r.gaps [ [] ↦ false | (g ∷ gs) ↦ true ]) items

-- -- run comparison -----------------------------------------------------

-- `{r.fingerprint: r for r in items}`
unfoldable pub fill : Dict String FindingRecord → List FindingRecord → Dict String FindingRecord
fill d [] = d
fill d (r ∷ rs) = fill (insert r.fingerprint r d) rs

abbrev pub has : String → Dict String FindingRecord → Bool
has fp d = elim (lookup fp d) [ none ↦ false | some r ↦ true ]

-- the records at the keys that pass
unfoldable pub pick : (String → Bool) → Dict String FindingRecord → List FindingRecord
pick p [] = []
pick p ((fp, r) ∷ d) = if p fp then r ∷ pick p d else pick p d

pub record FindingDiff : Type 0 where
  pub added : List FindingRecord
  pub removed : List FindingRecord
  pub common : List FindingRecord

unfoldable pub diff : List FindingRecord → List FindingRecord → FindingDiff
unfolding fill pick
diff items other =
    let mine = fill [] items in
    let theirs = fill [] other in
    record {
      added = pick (λ fp. not (has fp theirs)) mine;
      removed = pick (λ fp. not (has fp mine)) theirs;
      common = pick (λ fp. has fp theirs) mine;
    }
