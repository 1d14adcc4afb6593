-- ===== src/Suppress/Engine.antt =====
-- Which findings are suppressed and why: `_inline_record`, `location_stable_key` and compute_suppressions
-- of src/flawed/_cli/suppression.py.
use Prim.Native.String.{◌++◌ as concat}
use flawed.Base.{
  ℕ, zero, suc, ◌+◌, String, ◌≡◌, refl, ◌↔◌, Bool, true, false, not, ◌&&◌, Option, none, some, List,
  [], ◌∷◌, ◌++◌, if◌then◌else◌, Dict, lookup, insert, Eq, nat_eq, string_eq, contains, pair_eq,
}
use flawed.Suppress.Directives.{
  Texts, Location, RuleFinding, Directive, IgnoreSpec, norm_rule_id, for_file, matches,
}

pub data Source : Type 0 where
  inline : Source
  flawedignore : Source
  baseline_commit : Source

abbrev pub source_beq : Source → Source → Bool
source_beq inline inline = true
source_beq flawedignore flawedignore = true
source_beq baseline_commit baseline_commit = true
source_beq a b = false

pub source_beq_iff : (a b : Source) → (source_beq a b ≡ true) ↔ (a ≡ b)
source_beq_iff inline inline = ((λ h. refl), (λ h. refl))
source_beq_iff flawedignore flawedignore = ((λ h. refl), (λ h. refl))
source_beq_iff baseline_commit baseline_commit = ((λ h. refl), (λ h. refl))
source_beq_iff inline flawedignore = ((λ h. cc), (λ h. cc))
source_beq_iff inline baseline_commit = ((λ h. cc), (λ h. cc))
source_beq_iff flawedignore inline = ((λ h. cc), (λ h. cc))
source_beq_iff flawedignore baseline_commit = ((λ h. cc), (λ h. cc))
source_beq_iff baseline_commit inline = ((λ h. cc), (λ h. cc))
source_beq_iff baseline_commit flawedignore = ((λ h. cc), (λ h. cc))

instance abbrev pub source_eq : Eq Source
source_eq = record { beq = source_beq; beq_iff = source_beq_iff }

-- the kinds of a suppression in SARIF
pub data Kind : Type 0 where
  in_source : Kind
  external : Kind

pub record SuppressionRecord : Type 0 where
  pub finding : RuleFinding
  pub source : Source
  pub reason : String
  pub kind : Kind
  pub justification : Option String

pub record SuppressionOutcome : Type 0 where
  pub active : List RuleFinding
  pub suppressed : List SuppressionRecord

-- a directive without a reason that `strict` passes over: its file and line
abbrev pub Warning : Type 0
Warning = String × ℕ

module _ (t : Texts) where
  -- the rule is not one of those that the directive names
  abbrev pub is_other_rule : Option (List String) → String → Bool
  is_other_rule none rule_id = false
  is_other_rule (some ids) rule_id = not (contains ids (norm_rule_id t rule_id))

  abbrev pub is_unjustified : Option String → Bool
  is_unjustified none = true
  is_unjustified (some s) = false

  -- `# flawed: ignore`, with the rule where the directive names rules
  abbrev pub directive_text : Option (List String) → RuleFinding → String
  directive_text none finding = "# flawed: ignore"
  directive_text (some ids) finding = concat "# flawed: ignore[" (concat finding.rule_id "]")

  abbrev pub inline_at : RuleFinding → Directive → SuppressionRecord
  inline_at finding entry = record {
    finding = finding;
    source = inline;
    reason = directive_text entry.ids finding;
    kind = in_source;
    justification = entry.justification;
  }

  -- the record and the warnings at one line, given what the lines after it give; the tests are whether the
  -- directive is for other rules, and whether it is refused for want of a reason
  abbrev pub chosen :
      Bool
      → Bool
      → SuppressionRecord
      → Warning
      → Option SuppressionRecord × List Warning
      → Option SuppressionRecord × List Warning
  chosen true refused r warning rest = rest
  chosen false true r warning rest = (rest.0, warning ∷ rest.1)
  chosen false false r warning rest = (some r, [])

  abbrev pub with_entry :
      Bool
      → RuleFinding
      → Warning
      → Option Directive
      → Option SuppressionRecord × List Warning
      → Option SuppressionRecord × List Warning
  with_entry strict finding warning none rest = rest
  with_entry strict finding warning (some entry) rest =
      chosen (is_other_rule entry.ids finding.rule_id)
        (strict && is_unjustified entry.justification) (inline_at finding entry) warning rest

  -- the loop of `_inline_record` over the lines that a directive may stand on
  unfoldable pub first_directive :
      Bool
      → RuleFinding
      → String
      → Dict ℕ Directive
      → List ℕ
      → Option SuppressionRecord × List Warning
  first_directive strict finding rel_file directives [] = (none, [])
  first_directive strict finding rel_file directives (line ∷ lines) =
      with_entry strict finding (rel_file, line) (lookup line directives)
        (first_directive strict finding rel_file directives lines)

  -- the line of the finding and the line above it; there is no line -1
  abbrev pub directive_lines : ℕ → List ℕ
  directive_lines zero = zero ∷ []
  directive_lines (suc n) = suc n ∷ n ∷ []

  abbrev pub inline_record_at :
      Bool → RuleFinding → Option Location → Option SuppressionRecord × List Warning
  inline_record_at strict finding none = (none, [])
  inline_record_at strict finding (some loc) =
      first_directive strict finding loc.file (for_file t loc.file) (directive_lines loc.line)

  unfoldable pub inline_record : Bool → RuleFinding → Option SuppressionRecord × List Warning
  inline_record strict finding = inline_record_at strict finding finding.location

  -- -- the other sources ------------------------------------------------

  abbrev pub ignored_record_at :
      Option IgnoreSpec → RuleFinding → Option Location → Option SuppressionRecord
  ignored_record_at none finding loc = none
  ignored_record_at (some spec) finding none = none
  ignored_record_at (some spec) finding (some loc) =
      if matches t spec loc.file finding.rule_id
      then some (record {
        finding = finding;
        source = flawedignore;
        reason = concat ".flawedignore: " loc.file;
        kind = external;
        justification = none;
      })
      else none

  unfoldable pub ignored_record : Option IgnoreSpec → RuleFinding → Option SuppressionRecord
  ignored_record spec finding = ignored_record_at spec finding finding.location

  -- `lines[line - 1].strip()` if the file has that line
  abbrev nth_line : List String → ℕ → String
  nth_line lines zero = ""
  nth_line [] (suc n) = ""
  nth_line (l ∷ lines) (suc zero) = t.strip l
  nth_line (l ∷ lines) (suc (suc n)) = nth_line lines (suc n)

  unfoldable pub snippet : Option Location → String
  snippet none = ""
  snippet (some loc) = elim (t.read_lines loc.file) [
    | none ↦ ""
    | some lines ↦ nth_line lines loc.line
  ]

  unfoldable pub location_stable_key : RuleFinding → String
  unfolding snippet
  location_stable_key finding = t.digest (norm_rule_id t finding.rule_id) (snippet finding.location)

  unfoldable pub baseline_record : Option (List String) → RuleFinding → Option SuppressionRecord
  unfolding location_stable_key
  baseline_record none finding = none
  baseline_record (some keys) finding =
      if contains keys (location_stable_key finding)
      then some (record {
        finding = finding;
        source = baseline_commit;
        reason = "present at baseline ref";
        kind = external;
        justification = none;
      })
      else none

  -- -- the engine -------------------------------------------------------

  -- the record of a finding, from the first source that has one
  abbrev pub record_of :
      Option SuppressionRecord
      → Option SuppressionRecord
      → Option SuppressionRecord
      → Option SuppressionRecord
  record_of inlined ignored known = elim inlined [
    | some r ↦ some r
    | none ↦ elim ignored [ some r ↦ some r | none ↦ known ]
  ]

  unfoldable pub record_for :
      Option IgnoreSpec → Option (List String) → Bool → RuleFinding → Option SuppressionRecord
  record_for spec keys strict finding =
      record_of (inline_record strict finding).0 (ignored_record spec finding)
        (baseline_record keys finding)

  -- the finding is shown, or its record is kept
  abbrev pub placed :
      RuleFinding → Option SuppressionRecord → SuppressionOutcome → SuppressionOutcome
  placed finding none out = record out { active = out.active ++ finding ∷ [] }
  placed finding (some r) out = record out { suppressed = out.suppressed ++ r ∷ [] }

  -- the loop of `compute_suppressions`
  unfoldable pub split_findings :
      Option IgnoreSpec
      → Option (List String)
      → Bool
      → List RuleFinding
      → SuppressionOutcome
      → List Warning
      → SuppressionOutcome × List Warning
  split_findings spec keys strict [] out warnings = (out, warnings)
  split_findings spec keys strict (finding ∷ findings) out warnings =
      split_findings spec keys strict findings
        (placed finding (record_for spec keys strict finding) out)
        (warnings ++ (inline_record strict finding).1)

  unfoldable pub compute_suppressions :
      Option IgnoreSpec
      → Option (List String)
      → Bool
      → List RuleFinding
      → SuppressionOutcome × List Warning
  compute_suppressions spec keys strict findings =
      split_findings spec keys strict findings (record { active = []; suppressed = [] }) []

-- `counts_by_source`
unfoldable pub count_from : List SuppressionRecord → Dict Source ℕ → Dict Source ℕ
count_from [] out = out
count_from (rec ∷ recs) out =
    count_from recs
      (insert rec.source (elim (lookup rec.source out) [ none ↦ 1 | some n ↦ n + 1 ]) out)

unfoldable pub counts_by_source : SuppressionOutcome → Dict Source ℕ
unfolding count_from
counts_by_source out = count_from out.suppressed []
