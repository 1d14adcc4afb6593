-- ===== src/Suppress/Partition.antt =====
-- Every finding is shown or recorded, once: the outcome of compute_suppressions of
-- src/flawed/_cli/suppression.py against the list of findings.
use flawed.Base.{
  ℕ, String, ◌≡◌, refl, sym, ap, ◌∙◌, Bool, true, false, ◌&&◌, Option, none, some, List, [], ◌∷◌,
  ◌++◌, if◌then◌else◌, keep, Dict, lookup, nat_eq, string_eq, append_nil, append_assoc, pair_eq,
}
use flawed.Suppress.Directives.{Texts, Location, RuleFinding, Directive, IgnoreSpec, for_file}
use flawed.Suppress.Engine.{
  inline, SuppressionRecord, SuppressionOutcome, Warning, first_directive, directive_lines,
  inline_record, record_for, placed, split_findings, compute_suppressions, chosen, is_unjustified,
  with_entry, inline_at, inline_record_at,
}

-- what holds of a record, if there is one
abbrev pub IfRecord : (SuppressionRecord → Type 0) → Option SuppressionRecord → Type 0
IfRecord P none = Unit {0}
IfRecord P (some r) = P r

abbrev pub AllRecords : (SuppressionRecord → Type 0) → List SuppressionRecord → Type 0
AllRecords P [] = Unit {0}
AllRecords P (r ∷ rs) = P r × AllRecords P rs

abbrev pub is_none : {A : Type 0} → Option A → Bool
is_none none = true
is_none (some a) = false

-- the records of a list of findings, in order
abbrev pub collect :
    (RuleFinding → Option SuppressionRecord) → List RuleFinding → List SuppressionRecord
collect f [] = []
collect f (x ∷ xs) = elim (f x) [ none ↦ collect f xs | some r ↦ r ∷ collect f xs ]

-- an outcome with more findings and records at its ends
abbrev pub grown :
    SuppressionOutcome → List RuleFinding → List SuppressionRecord → SuppressionOutcome
grown out findings records = record {
  active = out.active ++ findings;
  suppressed = out.suppressed ++ records;
}

grown-nil : (out : SuppressionOutcome) → out ≡ grown out [] []
grown-nil out =
    ap (λ (fs : List RuleFinding). record out { active = fs }) (append_nil out.active)
    ∙ ap
        (λ (rs : List SuppressionRecord). record out { active = out.active ++ []; suppressed = rs })
        (append_nil out.suppressed)

grown-placed :
    (t : Texts) (finding : RuleFinding) (r : Option SuppressionRecord) (out : SuppressionOutcome)
    (findings : List RuleFinding) (records : List SuppressionRecord)
    → grown (placed t finding r out) findings records
      ≡ grown out
          (if is_none r then finding ∷ findings else findings)
          (elim r [ none ↦ records | some a ↦ a ∷ records ])
grown-placed t finding none out findings records =
    ap
      (λ (fs : List RuleFinding). record out {
        active = fs;
        suppressed = out.suppressed ++ records;
      })
      (append_assoc out.active (finding ∷ []) findings)
grown-placed t finding (some r) out findings records =
    ap
      (λ (rs : List SuppressionRecord). record out {
        active = out.active ++ findings;
        suppressed = rs;
      })
      (append_assoc out.suppressed (r ∷ []) records)

-- an inline record is about its finding, and has a reason if the scan is strict
abbrev pub IsInline : Bool → RuleFinding → SuppressionRecord → Type 0
IsInline strict finding r =
    (r.finding ≡ finding) × (r.source ≡ inline) × ((strict && is_none r.justification) ≡ false)

module _ (t : Texts) (strict : Bool) (finding : RuleFinding) where
  chosen-IsInline :
      (other refused : Bool) (r : SuppressionRecord) (warning : Warning)
      (rest : Option SuppressionRecord × List Warning)
      → (refused ≡ false → IsInline strict finding r)
      → IfRecord (IsInline strict finding) rest.0
      → IfRecord (IsInline strict finding) (chosen t other refused r warning rest).0
  chosen-IsInline true refused r warning rest h k = k
  chosen-IsInline false true r warning rest h k = k
  chosen-IsInline false false r warning rest h k = h refl

  is_unjustified-is_none : (o : Option String) → is_unjustified t o ≡ is_none o
  is_unjustified-is_none none = refl
  is_unjustified-is_none (some s) = refl

  with_entry-IsInline :
      (warning : Warning) (entry : Option Directive)
      (rest : Option SuppressionRecord × List Warning)
      → IfRecord (IsInline strict finding) rest.0
      → IfRecord (IsInline strict finding) (with_entry t strict finding warning entry rest).0
  with_entry-IsInline warning none rest k = k
  with_entry-IsInline warning (some entry) rest k =
      chosen-IsInline _ _ (inline_at t finding entry) warning rest
        (λ h. (refl, refl, rw (sym (is_unjustified-is_none entry.justification)) h)) k

  first_directive-IsInline :
      (file : String) (directives : Dict ℕ Directive) (lines : List ℕ)
      → IfRecord
          (IsInline strict finding)
          (first_directive t strict finding file directives lines).0
  unfolding first_directive
  first_directive-IsInline file directives [] = tt
  first_directive-IsInline file directives (line ∷ lines) =
      with_entry-IsInline (file, line) (lookup line directives) _
        (first_directive-IsInline file directives lines)

  inline_record_at-IsInline :
      (loc : Option Location)
      → IfRecord (IsInline strict finding) (inline_record_at t strict finding loc).0
  inline_record_at-IsInline none = tt
  inline_record_at-IsInline (some loc) =
      first_directive-IsInline loc.file (for_file t loc.file) (directive_lines t loc.line)

  pub inline_record-IsInline : IfRecord (IsInline strict finding) (inline_record t strict finding).0
  unfolding inline_record
  inline_record-IsInline = inline_record_at-IsInline finding.location

module _ (t : Texts) (spec : Option IgnoreSpec) (keys : Option (List String)) (strict : Bool) where
  split_findings-collect :
      (findings : List RuleFinding) (out : SuppressionOutcome) (warnings : List Warning)
      → (split_findings t spec keys strict findings out warnings).0
        ≡ grown out
            (keep (λ f. is_none (record_for t spec keys strict f)) findings)
            (collect (record_for t spec keys strict) findings)
  unfolding split_findings
  split_findings-collect [] out warnings = grown-nil out
  split_findings-collect (finding ∷ findings) out warnings =
      let r = record_for t spec keys strict finding in
      split_findings-collect findings (placed t finding r out)
        (warnings ++ (inline_record t strict finding).1)
      ∙ grown-placed t finding r out _ _

  pub compute_suppressions-collect :
      (findings : List RuleFinding)
      → (compute_suppressions t spec keys strict findings).0
        ≡ grown
            (record { active = []; suppressed = [] })
            (keep (λ f. is_none (record_for t spec keys strict f)) findings)
            (collect (record_for t spec keys strict) findings)
  unfolding compute_suppressions
  compute_suppressions-collect findings = split_findings-collect findings _ []
