-- ===== src/Suppress/Sources.antt =====
-- Which findings compute_suppressions of src/flawed/_cli/suppression.py suppresses, and for what source.
use flawed.Base.{
  ℕ, zero, suc, String, ◌≡◌, refl, sym, ap, ◌∙◌, subst, Bool, true, false, not, ◌&&◌, ◌||◌, Option,
  none, some, List, [], ◌∷◌, map, arith, if◌then◌else◌, keep, Dict, lookup, nat_eq, string_eq,
  contains, pair_eq,
}
use flawed.Suppress.Directives.{
  Texts, Location, RuleFinding, Directive, IgnoreSpec, for_file, matches,
}
use flawed.Suppress.Engine.{
  Source, inline, flawedignore, baseline_commit, SuppressionRecord, SuppressionOutcome, Warning,
  first_directive, directive_lines, inline_record, ignored_record, baseline_record, record_of,
  record_for, compute_suppressions, location_stable_key, chosen, with_entry, inline_record_at,
  ignored_record_at,
}
use flawed.Suppress.Partition.{
  IfRecord, AllRecords, IsInline, is_none, collect, compute_suppressions-collect,
  inline_record-IsInline,
}
use flawed.Suppress.Meaning.{
  is_path_ignored, is_known, applies, on_or_above, has_directive_at, tests-applies,
  matches-is_path_ignored, source_for, sourced,
}

module _ (t : Texts) (spec : Option IgnoreSpec) (keys : Option (List String)) (strict : Bool) where
  -- one of the lines has such a directive
  abbrev any_applies : RuleFinding → Dict ℕ Directive → List ℕ → Bool
  any_applies finding directives [] = false
  any_applies finding directives (line ∷ lines) =
      applies t strict finding (lookup line directives) || any_applies finding directives lines

  -- -- the engine follows them ------------------------------------------

  chosen-is_none :
      (other refused : Bool) (r : SuppressionRecord) (warning : Warning)
      (rest : Option SuppressionRecord × List Warning)
      → is_none (chosen t other refused r warning rest).0
        ≡ not (not other && not refused || not (is_none rest.0))
  chosen-is_none true refused r warning rest = ground arith
  chosen-is_none false true r warning rest = ground arith
  chosen-is_none false false r warning rest = refl

  any_applies-on_or_above :
      (finding : RuleFinding) (directives : Dict ℕ Directive) (line : ℕ)
      → any_applies finding directives (directive_lines t line)
        ≡ on_or_above t strict finding directives line
  any_applies-on_or_above finding directives zero = ground arith
  any_applies-on_or_above finding directives (suc n) = ground arith

  with_entry-is_none :
      (finding : RuleFinding) (warning : Warning) (entry : Option Directive)
      (rest : Option SuppressionRecord × List Warning)
      → is_none (with_entry t strict finding warning entry rest).0
        ≡ not (applies t strict finding entry || not (is_none rest.0))
  with_entry-is_none finding warning none rest = ground arith
  with_entry-is_none finding warning (some entry) rest =
      chosen-is_none _ _ _ warning rest
      ∙ ap (λ (b : Bool). not (b || not (is_none rest.0))) (tests-applies t strict finding entry)

  first_directive-is_none :
      (finding : RuleFinding) (file : String) (directives : Dict ℕ Directive) (lines : List ℕ)
      → is_none (first_directive t strict finding file directives lines).0
        ≡ not (any_applies finding directives lines)
  unfolding first_directive
  first_directive-is_none finding file directives [] = refl
  first_directive-is_none finding file directives (line ∷ lines) =
      with_entry-is_none finding (file, line) (lookup line directives) _
      ∙ ap (λ (b : Bool). not (applies t strict finding (lookup line directives) || not b))
          (first_directive-is_none finding file directives lines)
      ∙ ground arith

  inline_record_at-is_none :
      (finding : RuleFinding) (loc : Option Location)
      → is_none (inline_record_at t strict finding loc).0
        ≡ not (has_directive_at t strict finding loc)
  inline_record_at-is_none finding none = refl
  inline_record_at-is_none finding (some loc) =
      first_directive-is_none finding loc.file (for_file t loc.file) (directive_lines t loc.line)
      ∙ ap not (any_applies-on_or_above finding (for_file t loc.file) loc.line)

  -- -- the records of the other sources ---------------------------------

  -- the record is about the finding and of that source, if the test holds
  abbrev IsFrom : RuleFinding → Source → Bool → Option SuppressionRecord → Type 0
  IsFrom finding source test none = test ≡ false
  IsFrom finding source test (some r) = (test ≡ true) × (r.finding ≡ finding) × (r.source ≡ source)

  IsFrom-if :
      (finding : RuleFinding) (r : SuppressionRecord) (test : Bool)
      → r.finding ≡ finding
      → IsFrom finding r.source test (if test then some r else none)
  IsFrom-if finding r true h = (refl, h, refl)
  IsFrom-if finding r false h = refl

  ignored_record-IsFrom :
      (spec : Option IgnoreSpec) (finding : RuleFinding) (loc : Option Location)
      → IsFrom finding flawedignore
          (is_path_ignored t spec loc finding.rule_id)
          (ignored_record_at t spec finding loc)
  ignored_record-IsFrom none finding loc = refl
  ignored_record-IsFrom (some s) finding none = refl
  ignored_record-IsFrom (some s) finding (some loc) =
      subst
        (λ (b : Bool).
          IsFrom finding flawedignore b (ignored_record_at t (some s) finding (some loc)))
        (matches-is_path_ignored t s loc finding.rule_id)
        (IsFrom-if finding _ (matches t s loc.file finding.rule_id) refl)

  baseline_record-IsFrom :
      (keys : Option (List String)) (finding : RuleFinding)
      → IsFrom finding baseline_commit (is_known t keys finding) (baseline_record t keys finding)
  unfolding baseline_record location_stable_key
  baseline_record-IsFrom none finding = refl
  baseline_record-IsFrom (some ks) finding =
      IsFrom-if finding _ (contains ks (location_stable_key t finding)) refl

  inline_record-IsFrom :
      (finding : RuleFinding) (r : Option SuppressionRecord)
      → IfRecord (IsInline strict finding) r
      → is_none r ≡ not (has_directive_at t strict finding finding.location)
      → IsFrom finding inline (has_directive_at t strict finding finding.location) r
  inline_record-IsFrom finding none h e = ground (arith, e)
  inline_record-IsFrom finding (some r) h e = (ground (arith, e), h.0, h.1)

  -- -- precedence --------------------------------------------------------

  abbrev Attributed : RuleFinding → Option Source → Option SuppressionRecord → Type 0
  Attributed finding none none = Unit {0}
  Attributed finding none (some r) = ⊥
  Attributed finding (some s) none = ⊥
  Attributed finding (some s) (some r) = (r.finding ≡ finding) × (r.source ≡ s)

  record_of-Attributed :
      (finding : RuleFinding) (b c d : Bool) (inlined ignored known : Option SuppressionRecord)
      → IsFrom finding inline b inlined
      → IsFrom finding flawedignore c ignored
      → IsFrom finding baseline_commit d known
      → Attributed finding
          (if b
            then some inline
            else if c
            then some flawedignore
            else if d
            then some baseline_commit
            else none)
          (record_of t inlined ignored known)
  record_of-Attributed finding b c d (some r) ignored known h k l = rw (h.0, Attributed) (h.1, h.2)
  record_of-Attributed finding b c d none (some r) known h k l = rw (h, k.0, Attributed) (k.1, k.2)
  record_of-Attributed finding b c d none none (some r) h k l =
      rw (h, k, l.0, Attributed) (l.1, l.2)
  record_of-Attributed finding b c d none none none h k l = rw (h, k, l, Attributed) tt

  record_for-Attributed :
      (finding : RuleFinding)
      → Attributed finding
          (source_for t spec keys strict finding)
          (record_for t spec keys strict finding)
  unfolding record_for ignored_record inline_record
  record_for-Attributed finding =
      record_of-Attributed finding _ _ _ (inline_record t strict finding).0
        (ignored_record t spec finding) (baseline_record t keys finding)
        (inline_record-IsFrom finding _ (inline_record-IsInline t strict finding)
          (inline_record_at-is_none finding finding.location))
        (ignored_record-IsFrom spec finding finding.location) (baseline_record-IsFrom keys finding)

  abbrev pub attribution : SuppressionRecord → RuleFinding × Source
  attribution r = (r.finding, r.source)

  -- one finding in front of others
  sourced_step :
      (finding : RuleFinding) (s : Option Source) (r : Option SuppressionRecord)
      (records : List SuppressionRecord) (others : List (RuleFinding × Source))
      → Attributed finding s r
      → map attribution records ≡ others
      → map attribution (elim r [ none ↦ records | some a ↦ a ∷ records ])
        ≡ elim s [ none ↦ others | some x ↦ (finding, x) ∷ others ]
  sourced_step finding none none records others h e = e
  sourced_step finding none (some r) records others h e = absurd h
  sourced_step finding (some s) none records others h e = absurd h
  sourced_step finding (some s) (some r) records others h e =
      let a : r.finding ≡ finding = h.0 in let b : r.source ≡ s = h.1 in cc (a, b, e)

  Attributed-is_none :
      (finding : RuleFinding) (s : Option Source) (r : Option SuppressionRecord)
      → Attributed finding s r
      → is_none r ≡ is_none s
  Attributed-is_none finding none none h = refl
  Attributed-is_none finding none (some r) h = absurd h
  Attributed-is_none finding (some s) none h = absurd h
  Attributed-is_none finding (some s) (some r) h = refl

  collect-sourced :
      (findings : List RuleFinding)
      → map attribution (collect (record_for t spec keys strict) findings)
        ≡ sourced t spec keys strict findings
  collect-sourced [] = refl
  collect-sourced (f ∷ fs) =
      sourced_step f (source_for t spec keys strict f) (record_for t spec keys strict f) _ _
        (record_for-Attributed f) (collect-sourced fs)

  keep-sources :
      (findings : List RuleFinding)
      → keep (λ f. is_none (record_for t spec keys strict f)) findings
        ≡ keep (λ f. is_none (source_for t spec keys strict f)) findings
  keep-sources [] = refl
  keep-sources (f ∷ fs) = ground (
    arith,
    keep-sources fs,
    Attributed-is_none f (source_for t spec keys strict f) (record_for t spec keys strict f)
        (record_for-Attributed f),
  )

  -- A finding stays active if and only if no source suppresses it; every other finding is recorded, in order,
  -- with its most specific source: a directive for its rule, with a reason if the scan is strict, on its line
  -- or the line above; then a pattern of the ignore file for its path and rule; then the baseline, which has
  -- the text of its line under its rule.
  pub compute_suppressions-sources :
      (findings : List RuleFinding)
      → let out = (compute_suppressions t spec keys strict findings).0 in
        (out.active ≡ keep (λ f. is_none (source_for t spec keys strict f)) findings)
        × (map attribution out.suppressed ≡ sourced t spec keys strict findings)
  compute_suppressions-sources findings =
      let collected = compute_suppressions-collect t spec keys strict findings in
      (
        ap (λ (o : SuppressionOutcome). o.active) collected ∙ keep-sources findings,
        ap (λ (o : SuppressionOutcome). map attribution o.suppressed) collected
            ∙ collect-sourced findings,
      )

  -- an inline record has a reason if the scan is strict
  abbrev pub IsJustified : SuppressionRecord → Type 0
  IsJustified r = (r.source ≡ inline) → (strict && is_none r.justification) ≡ false

  record_of-IsJustified :
      (finding : RuleFinding) (c d : Bool) (inlined ignored known : Option SuppressionRecord)
      → IfRecord (IsInline strict finding) inlined
      → IsFrom finding flawedignore c ignored
      → IsFrom finding baseline_commit d known
      → IfRecord IsJustified (record_of t inlined ignored known)
  record_of-IsJustified finding c d (some r) ignored known h k l = λ _. h.2
  record_of-IsJustified finding c d none (some r) known h k l =
      λ e. let other : flawedignore ≡ inline = sym k.2 ∙ e in cc
  record_of-IsJustified finding c d none none (some r) h k l =
      λ e. let other : baseline_commit ≡ inline = sym l.2 ∙ e in cc
  record_of-IsJustified finding c d none none none h k l = tt

  record_for-IsJustified :
      (finding : RuleFinding) → IfRecord IsJustified (record_for t spec keys strict finding)
  unfolding record_for ignored_record
  record_for-IsJustified finding =
      record_of-IsJustified finding _ _ (inline_record t strict finding).0
        (ignored_record t spec finding) (baseline_record t keys finding)
        (inline_record-IsInline t strict finding)
        (ignored_record-IsFrom spec finding finding.location) (baseline_record-IsFrom keys finding)

  collect-IsJustified :
      (f : RuleFinding → Option SuppressionRecord)
      → ((finding : RuleFinding) → IfRecord IsJustified (f finding))
      → (findings : List RuleFinding) → AllRecords IsJustified (collect f findings)
  collect-IsJustified f h [] = tt
  collect-IsJustified f h (x ∷ xs) =
      in_front (f x) (collect f xs) (h x) (collect-IsJustified f h xs)
    where
      in_front :
          (r : Option SuppressionRecord) (records : List SuppressionRecord)
          → IfRecord IsJustified r
          → AllRecords IsJustified records
          → AllRecords IsJustified (elim r [ none ↦ records | some a ↦ a ∷ records ])
      in_front none records h k = k
      in_front (some r) records h k = (h, k)

  -- In a strict scan no inline directive suppresses a finding without a reason.
  pub compute_suppressions-IsJustified :
      (findings : List RuleFinding)
      → AllRecords IsJustified (compute_suppressions t spec keys strict findings).0.suppressed
  compute_suppressions-IsJustified findings =
      subst (λ (o : SuppressionOutcome). AllRecords IsJustified o.suppressed)
        (sym (compute_suppressions-collect t spec keys strict findings))
        (collect-IsJustified (record_for t spec keys strict) record_for-IsJustified findings)
