-- ===== src/Suppress/Dedup.antt =====
-- Findings by fingerprint, src/flawed/_cli/suppression.py: deduplicate_findings and suppress_findings.
use flawed.Base.{
  String, ◌≡◌, refl, ◌∙◌, inl, inr, Bool, true, false, not, Option, none, some, List, [], ◌∷◌,
  arith, if◌then◌else◌, Bool-cases, add, contains-add, keep, ◌==◌, nat_eq, string_eq, contains,
  beq_refl, pair_eq,
}
use flawed.Suppress.Directives.{Texts, RuleFinding, fingerprint}

module _ (t : Texts) where
  -- the loop of `deduplicate_findings` on its set of seen fingerprints
  unfoldable pub dedup_from : List String → List RuleFinding → List RuleFinding
  dedup_from seen [] = []
  dedup_from seen (f ∷ fs) =
      let skipped = dedup_from seen fs in
      let kept = dedup_from (add seen (fingerprint t f)) fs in
      if contains seen (fingerprint t f) then skipped else f ∷ kept

  unfoldable pub deduplicate_findings : List RuleFinding → List RuleFinding
  unfolding dedup_from
  deduplicate_findings findings = dedup_from [] findings

  unfoldable pub suppress_findings : List RuleFinding → List String → List RuleFinding
  suppress_findings findings suppressed =
      keep (λ f. not (contains suppressed (fingerprint t f))) findings

  -- the first finding with a fingerprint
  abbrev pub first_with : String → List RuleFinding → Option RuleFinding
  first_with fp [] = none
  first_with fp (f ∷ fs) = if fp == fingerprint t f then some f else first_with fp fs

  -- no two findings have one fingerprint
  abbrev pub IsDistinct : List RuleFinding → Type 0
  IsDistinct [] = Unit {0}
  IsDistinct (f ∷ fs) = (first_with (fingerprint t f) fs ≡ none) × IsDistinct fs

  dedup_from-first_with :
      (fp : String) (seen : List String) (findings : List RuleFinding)
      → first_with fp (dedup_from seen findings)
        ≡ (if contains seen fp then none else first_with fp findings)
  unfolding dedup_from
  dedup_from-first_with fp seen [] = ground arith
  dedup_from-first_with fp seen (f ∷ fs) = elim (Bool-cases (fp == fingerprint t f)) [
    | inl same ↦
        let eq : fp ≡ fingerprint t f = (string_eq.beq_iff fp (fingerprint t f)).0 same in
        ground (
          arith,
          same,
          eq,
          dedup_from-first_with fp seen fs,
          dedup_from-first_with fp (add seen (fingerprint t f)) fs,
          contains-add seen (fingerprint t f) fp,
        )
    | inr differ ↦ ground (
      arith,
      differ,
      dedup_from-first_with fp seen fs,
      dedup_from-first_with fp (add seen (fingerprint t f)) fs,
      contains-add seen (fingerprint t f) fp,
    )
  ]

  IsDistinct-if :
      (b : Bool) (xs ys : List RuleFinding)
      → IsDistinct xs
      → (b ≡ false → IsDistinct ys)
      → IsDistinct (if b then xs else ys)
  IsDistinct-if true xs ys h k = h
  IsDistinct-if false xs ys h k = k refl

  dedup_from-IsDistinct :
      (seen : List String) (findings : List RuleFinding) → IsDistinct (dedup_from seen findings)
  unfolding dedup_from
  dedup_from-IsDistinct seen [] = tt
  dedup_from-IsDistinct seen (f ∷ fs) =
      let next = add seen (fingerprint t f) in
      IsDistinct-if (contains seen (fingerprint t f)) (dedup_from seen fs) (f ∷ dedup_from next fs)
        (dedup_from-IsDistinct seen fs)
        (λ fresh. (
          dedup_from-first_with (fingerprint t f) next fs
              ∙ ground (
                arith,
                contains-add seen (fingerprint t f) (fingerprint t f),
                beq_refl (fingerprint t f),
              ),
          dedup_from-IsDistinct next fs,
        ))

  -- Each fingerprint is left once, by the first finding that has it.
  pub deduplicate_findings-first :
      (findings : List RuleFinding)
      → IsDistinct (deduplicate_findings findings)
        × ((fp : String) → first_with fp (deduplicate_findings findings) ≡ first_with fp findings)
  unfolding deduplicate_findings
  deduplicate_findings-first findings =
      (dedup_from-IsDistinct [] findings, λ fp. dedup_from-first_with fp [] findings)
