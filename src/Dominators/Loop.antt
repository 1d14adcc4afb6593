-- ===== src/Dominators/Loop.antt =====
-- The passes of `_refine_dominators`: what they keep, that a pass without a change has reached a
-- fixed point, and that the sets shrink otherwise, so that the `while` loop ends.
use flawed.Base.{
  ℕ, zero, suc, ◌+◌, ◌*◌, ◌≤◌, ◌<◌, ◌≡◌, refl, sym, subst, ◌⊎◌, inl, inr, true, false, some, List,
  [], ◌∷◌, arith, Bool-cases, set_eq, is_subset_at, is_subset-false, is_subset-true, count_in,
  count_in-le, count_in_mono, count_in-lt, length, ◌==◌, nat_eq, string_eq, contains, beq_refl,
}
use flawed.Dominators.{
  Doms, update, next_dominators, Pass, refine_one, refine_loop, refine_dominators, fixed_point,
}
use flawed.Dominators.Fixpoint.{IsFlow, IsRefined, update-IsRefined, update_smaller}

-- The total size of the sets, counted over the reachable blocks.
abbrev weight : List ℕ → List ℕ → Doms → ℕ
weight reachable [] d = 0
weight reachable (b ∷ ids) d = count_in reachable (d b) + weight reachable ids d

weight_mono :
    (reachable ids : List ℕ) (d d' : Doms)
    → ((c x : ℕ) → contains (d' c) x ≡ true → contains (d c) x ≡ true)
    → weight reachable ids d' ≤ weight reachable ids d
weight_mono reachable [] d d' h = omega arith
weight_mono reachable (b ∷ ids) d d' h =
    omega (arith, weight_mono reachable ids d d' h, count_in_mono reachable (d' b) (d b) (h b))

weight-lt :
    (reachable ids : List ℕ) (d d' : Doms) (b : ℕ)
    → ((c x : ℕ) → contains (d' c) x ≡ true → contains (d c) x ≡ true)
    → contains ids b ≡ true
    → count_in reachable (d' b) < count_in reachable (d b)
    → weight reachable ids d' < weight reachable ids d
weight-lt reachable [] d d' b h m lt = cc
weight-lt reachable (c ∷ ids) d d' b h m lt = elim (Bool-cases (b == c)) [
  | inl same ↦
      let eq : b ≡ c = ground arith in
      let lt' : count_in reachable (d' c) < count_in reachable (d c) =
        subst (λ j. count_in reachable (d' j) < count_in reachable (d j)) eq lt in
      omega (arith, weight_mono reachable ids d d' h, lt')
  | inr other ↦ omega (
    arith,
    weight-lt reachable ids d d' b h (ground arith) lt,
    count_in_mono reachable (d' c) (d c) (h c),
  )
]

weight-le :
    (reachable ids : List ℕ) (d : Doms) → weight reachable ids d ≤ length ids * length reachable
weight-le reachable [] d = omega arith
weight-le reachable (b ∷ ids) d =
    omega (arith, weight-le reachable ids d, count_in-le reachable (d b))

module _ (succ preds : ℕ → List ℕ) (entry : ℕ) (reachable : List ℕ)
    (flow : IsFlow succ preds entry reachable) where
  -- One block's turn in a pass.
  data Turn (s : Pass) (b : ℕ) (t : Pass) : Type 0 where
    skipped : (b == entry) ≡ true ⊎ (contains reachable b ≡ false) → t ≡ s → Turn s b t
    stable :
        (b == entry) ≡ false
        → set_eq (next_dominators reachable preds b s.doms) (s.doms b) ≡ true
        → t ≡ s
        → Turn s b t
    refined :
        (b == entry) ≡ false
        → contains reachable b ≡ true
        → set_eq (next_dominators reachable preds b s.doms) (s.doms b) ≡ false
        → t ≡ record {
          doms = update s.doms b (next_dominators reachable preds b s.doms);
          changed = true;
        }
        → Turn s b t

  turn : (s : Pass) (b : ℕ) → Turn s b (refine_one entry reachable preds s b)
  unfolding refine_one
  turn s b = elim (Bool-cases (b == entry)) [
    | inl start ↦ skipped (inl start) (rw start)
    | inr ne ↦ elim (Bool-cases (contains reachable b)) [
      | inr dead ↦ skipped (inr dead) (rw (ne, dead))
      | inl live ↦
          elim (Bool-cases (set_eq (next_dominators reachable preds b s.doms) (s.doms b))) [
            | inl same ↦ stable ne same (rw (ne, live, same))
            | inr differs ↦ refined ne live differs (rw (ne, live, differs))
          ]
    ]
  ]

  abbrev Smaller : Doms → Doms → Type 0
  Smaller d' d = (c x : ℕ) → contains (d' c) x ≡ true → contains (d c) x ≡ true

  -- What a run of the loop over the blocks `bs` guarantees.
  record Run (ids bs : List ℕ) (s t : Pass) : Type 0 where
    kept : IsRefined succ preds entry reachable t.doms
    less : Smaller t.doms s.doms
    sticky : s.changed ≡ true → t.changed ≡ true
    lighter :
        s.changed ≡ false
        → t.changed ≡ true
        → weight reachable ids t.doms < weight reachable ids s.doms
    fixed :
        t.changed ≡ false
        → (t.doms ≡ s.doms)
          × ((b : ℕ)
              → contains bs b ≡ true
              → contains reachable b ≡ true
              → (b == entry) ≡ false
              → set_eq (next_dominators reachable preds b s.doms) (s.doms b) ≡ true)

  -- A changed set is strictly Smaller.
  strictly :
      (ids : List ℕ) (d : Doms) (b : ℕ)
      → IsRefined succ preds entry reachable d
      → (b == entry) ≡ false
      → contains reachable b ≡ true
      → contains ids b ≡ true
      → set_eq (next_dominators reachable preds b d) (d b) ≡ false
      → weight reachable ids (update d b (next_dominators reachable preds b d))
        < weight reachable ids d
  strictly ids d b h ne r m differs =
      let n = next_dominators reachable preds b d in
      let sub = is_subset-true n (d b) (λ x. h.shrinks b x r ne) in
      let (a, there, gone) = is_subset-false (d b) n (ground arith) in
      weight-lt reachable ids d (update d b n) b
        (update_smaller succ preds entry reachable flow d b h ne r) m
        (rw (beq_refl b) (
          count_in-lt reachable n (d b) a (λ x. h.shrinks b x r ne) (h.inside b a there) gone
            there))

  -- A turn without a change.
  Run-same :
      (ids bs : List ℕ) (b : ℕ) (s t : Pass)
      → (contains reachable b ≡ true
          → (b == entry) ≡ false
          → set_eq (next_dominators reachable preds b s.doms) (s.doms b) ≡ true)
      → Run ids bs s t
      → Run ids (b ∷ bs) s t
  Run-same ids bs b s t head run = record {
    kept = run.kept;
    less = run.less;
    sticky = run.sticky;
    lighter = run.lighter;
    fixed = λ p. (
      (run.fixed p).0,
      λ c n live ne. elim (Bool-cases (c == b)) [
        | inl same ↦
            let eq : c ≡ b = ground arith in
            subst (λ j. set_eq (next_dominators reachable preds j s.doms) (s.doms j) ≡ true)
              (sym eq) (head (subst (λ j. contains reachable j ≡ true) eq live) (ground arith))
        | inr other ↦ (run.fixed p).1 c (ground arith) live ne
      ],
    );
  }

  -- A turn that refines a set.
  Run-refined :
      (ids bs : List ℕ) (b : ℕ) (s t : Pass)
      → IsRefined succ preds entry reachable s.doms
      → (b == entry) ≡ false
      → contains reachable b ≡ true
      → contains ids b ≡ true
      → set_eq (next_dominators reachable preds b s.doms) (s.doms b) ≡ false
      → Run ids bs
          (record {
            doms = update s.doms b (next_dominators reachable preds b s.doms);
            changed = true;
          })
          t
      → Run ids (b ∷ bs) s t
  Run-refined ids bs b s t h ne live m differs run =
      let below = update_smaller succ preds entry reachable flow s.doms b h ne live in
      record {
        kept = run.kept;
        less = λ c x k. below c x (run.less c x k);
        sticky = λ p. run.sticky refl;
        lighter = λ p q. omega (
          arith,
          strictly ids s.doms b h ne live m differs,
          weight_mono reachable ids (update s.doms b (next_dominators reachable preds b s.doms))
              t.doms run.less,
        );
        fixed = λ p. cc (run.sticky refl);
      }

  refine_loop-Run :
      (ids bs : List ℕ) (s : Pass)
      → IsRefined succ preds entry reachable s.doms
      → ((b : ℕ) → contains bs b ≡ true → contains ids b ≡ true)
      → Run ids bs s (refine_loop entry reachable preds s bs)
  unfolding refine_loop
  refine_loop-Run ids [] s h m = record {
    kept = h;
    less = λ c x k. k;
    sticky = λ k. k;
    lighter = λ p q. cc;
    fixed = λ p. (refl, λ b n. cc);
  }
  refine_loop-Run ids (b ∷ bs) s h m = elim (turn s b) [
    | skipped why e ↦ rw e (
        Run-same ids bs b s (refine_loop entry reachable preds s bs) (λ live ne. ground arith)
          (refine_loop-Run ids bs s h (λ c n. m c (ground arith))))
    | stable ne same e ↦ rw e (
        Run-same ids bs b s (refine_loop entry reachable preds s bs) (λ live _. same)
          (refine_loop-Run ids bs s h (λ c n. m c (ground arith))))
    | refined ne live differs e ↦
        let s' : Pass = record {
          doms = update s.doms b (next_dominators reachable preds b s.doms);
          changed = true;
        } in
        rw e (
          Run-refined ids bs b s (refine_loop entry reachable preds s' bs) h ne live
            (m b (ground arith)) differs
            (refine_loop-Run ids bs s'
              (update-IsRefined succ preds entry reachable flow s.doms b h ne live)
              (λ c n. m c (ground arith))))
  ]

  -- The sets that the loop ends with: refined, and equal to their own update.
  pub record IsFixed (ids : List ℕ) (d : Doms) : Type 0 where
    pub kept : IsRefined succ preds entry reachable d
    pub equation :
        (b x : ℕ)
        → contains ids b ≡ true
        → contains reachable b ≡ true
        → (b == entry) ≡ false
        → contains (d b) x ≡ true
        → contains (next_dominators reachable preds b d) x ≡ true

  -- With more rounds than elements in the sets, the loop ends, at a fixed point.
  pub fixed_point_total :
      (fuel : ℕ) (ids : List ℕ) (d : Doms)
      → IsRefined succ preds entry reachable d
      → weight reachable ids d < fuel
      → (t : Doms) × (fixed_point entry reachable preds fuel ids d ≡ some t) × IsFixed ids t
  unfolding fixed_point refine_dominators
  fixed_point_total zero ids d h lt = absurd (omega arith)
  fixed_point_total (suc fuel) ids d h lt =
      let s : Pass = record { doms = d; changed = false } in
      let t = refine_loop entry reachable preds s ids in
      let run = refine_loop-Run ids ids s h (λ b m. m) in
      elim (Bool-cases t.changed) [
        | inl more ↦
            let (u, ends, fix) =
              fixed_point_total fuel ids t.doms run.kept (omega (arith, run.lighter refl more)) in
            (u, ground arith, fix)
        | inr done ↦
            let (same, eqs) = run.fixed done in
            (
              t.doms,
              ground arith,
              record {
                kept = run.kept;
                equation = λ b x m live ne.
                    subst
                      (λ (e : Doms).
                        contains (e b) x ≡ true
                        → contains (next_dominators reachable preds b e) x ≡ true)
                      (sym same)
                      (λ k.
                        is_subset_at (d b) (next_dominators reachable preds b d) x
                          (let eq = eqs b m live ne in ground arith) k);
              },
            )
      ]

  -- The fuel that `immediate_dominators` gives is enough.
  pub fixed_point_enough :
      (ids : List ℕ) (d : Doms)
      → IsRefined succ preds entry reachable d
      → (t : Doms) × (fixed_point entry reachable preds (suc (length ids * length reachable)) ids d
          ≡ some t)
        × IsFixed ids t
  fixed_point_enough ids d h =
      fixed_point_total (suc (length ids * length reachable)) ids d h
        (omega (arith, weight-le reachable ids d))
