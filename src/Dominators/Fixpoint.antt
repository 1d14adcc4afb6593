-- ===== src/Dominators/Fixpoint.antt =====
-- The dominator sets: what one block's update keeps, and what a fixed point means.
use flawed.Base.{
  ℕ, ◌≡◌, refl, subst, ◌⊎◌, inl, inr, true, false, List, [], ◌∷◌, arith, Bool-cases, inter,
  IsUnique, contains-add, IsUnique-keep, IsUnique-add, ◌==◌, nat_eq, string_eq, contains, keep,
  contains-keep,
}
use flawed.Reach.{Walk, here, step}
use flawed.Dominators.{Doms, update, intersect_all, updated_dominators, next_dominators}
use flawed.Dominators.Walks.{Dominates}

intersect_all-in :
    (d : Doms) (common ps : List ℕ) (x : ℕ)
    → contains common x ≡ true
    → ((p : ℕ) → contains ps p ≡ true → contains (d p) x ≡ true)
    → contains (intersect_all d common ps) x ≡ true
intersect_all-in d common [] x m h = m
intersect_all-in d common (p ∷ ps) x m h =
    intersect_all-in d (inter common (d p)) ps x
      (ground (arith, contains-keep (contains (d p)) common x, h p (ground arith)))
      (λ q n. h q (ground arith))

intersect_all-out :
    (d : Doms) (common ps : List ℕ) (x : ℕ)
    → contains (intersect_all d common ps) x ≡ true
    → (contains common x ≡ true) × ((p : ℕ) → contains ps p ≡ true → contains (d p) x ≡ true)
intersect_all-out d common [] x m = (m, λ p n. cc)
intersect_all-out d common (p ∷ ps) x m =
    let (first, rest) = intersect_all-out d (inter common (d p)) ps x m in
    (
      ground (arith, contains-keep (contains (d p)) common x),
      λ q n. elim (Bool-cases (q == p)) [
        | inl same ↦
            let eq : q ≡ p = ground arith in
            rw eq (ground (arith, contains-keep (contains (d p)) common x))
        | inr other ↦ rest q (ground arith)
      ],
    )

intersect_all-IsUnique :
    (d : Doms) (common ps : List ℕ) → IsUnique common → IsUnique (intersect_all d common ps)
intersect_all-IsUnique d common [] u = u
intersect_all-IsUnique d common (p ∷ ps) u =
    intersect_all-IsUnique d (inter common (d p)) ps (IsUnique-keep (contains (d p)) common u)

-- A block's set holds the block, and what the sets of its predecessors share.
updated-in :
    (b : ℕ) (ps : List ℕ) (d : Doms) (x p : ℕ)
    → contains ps p ≡ true
    → ((q : ℕ) → contains ps q ≡ true → contains (d q) x ≡ true)
    → contains (updated_dominators b ps d) x ≡ true
unfolding updated_dominators
updated-in b [] d x p m h = cc
updated-in b (q ∷ ps) d x p m h = ground (
  arith,
  contains-add (intersect_all d (d q) ps) b x,
  intersect_all-in d (d q) ps x (h q (ground arith)) (λ r n. h r (ground arith)),
)

updated_self : (b : ℕ) (ps : List ℕ) (d : Doms) → contains (updated_dominators b ps d) b ≡ true
unfolding updated_dominators
updated_self b [] d = ground arith
updated_self b (q ∷ ps) d = ground (arith, contains-add (intersect_all d (d q) ps) b b)

pub updated-out :
    (b : ℕ) (ps : List ℕ) (d : Doms) (x : ℕ)
    → contains (updated_dominators b ps d) x ≡ true
    → (x ≡ b)
      ⊎ ((p : ℕ) × (contains ps p ≡ true))
        × ((q : ℕ) → contains ps q ≡ true → contains (d q) x ≡ true)
unfolding updated_dominators
updated-out b [] d x m = inl (ground arith)
updated-out b (q ∷ ps) d x m = elim (Bool-cases (x == b)) [
  | inl same ↦ inl (ground arith)
  | inr other ↦
      let (first, rest) =
        intersect_all-out d (d q) ps x
          (ground (arith, contains-add (intersect_all d (d q) ps) b x)) in
      inr (
        (q, ground arith),
        λ r n. elim (Bool-cases (r == q)) [
          | inl same ↦ let eq : r ≡ q = ground arith in rw eq first
          | inr apart ↦ rest r (ground arith)
        ],
      )
]

updated-IsUnique :
    (b : ℕ) (ps : List ℕ) (d : Doms)
    → ((j : ℕ) → IsUnique (d j))
    → IsUnique (updated_dominators b ps d)
unfolding updated_dominators
updated-IsUnique b [] d u = (refl, tt)
updated-IsUnique b (q ∷ ps) d u =
    IsUnique-add (intersect_all d (d q) ps) b (intersect_all-IsUnique d (d q) ps (u q))

-- Smaller sets of the predecessors give a Smaller set.
updated_mono :
    (b : ℕ) (ps : List ℕ) (d d' : Doms) (x : ℕ)
    → ((q y : ℕ) → contains (d' q) y ≡ true → contains (d q) y ≡ true)
    → contains (updated_dominators b ps d') x ≡ true
    → contains (updated_dominators b ps d) x ≡ true
updated_mono b ps d d' x h m = elim (updated-out b ps d' x m) [
  | inl same ↦ rw same (updated_self b ps d)
  | inr ((p, n), all) ↦ updated-in b ps d x p n (λ q k. h q x (all q k))
]

module _ (succ preds : ℕ → List ℕ) (entry : ℕ) (reachable : List ℕ) where
  -- `preds` is the converse of `succ`, and `reachable` is what walks reach.
  pub record IsFlow : Type 0 where
    pub preds_succ : (u v : ℕ) → contains (preds v) u ≡ contains (succ u) v
    pub reach_walk : (v : ℕ) → contains reachable v ≡ true → Walk succ entry v
    pub walk_reach : {v : ℕ} → Walk succ entry v → contains reachable v ≡ true

  pub record IsRefined (d : Doms) : Type 0 where
    pub upper :
        (x b : ℕ) → contains reachable b ≡ true → Dominates succ entry x b → contains (d b) x ≡ true
    pub at_entry : (x : ℕ) → contains (d entry) x ≡ (x == entry)
    pub shrinks :
        (b x : ℕ)
        → contains reachable b ≡ true
        → (b == entry) ≡ false
        → contains (next_dominators reachable preds b d) x ≡ true
        → contains (d b) x ≡ true
    pub inside : (b x : ℕ) → contains (d b) x ≡ true → contains reachable x ≡ true
    pub unique : (b : ℕ) → IsUnique (d b)

  module _ (flow : IsFlow) where
    pub is_pred :
        (u v : ℕ)
        → contains reachable u ≡ true
        → contains (succ u) v ≡ true
        → contains (keep (contains reachable) (preds v)) u ≡ true
    is_pred u v r s =
        ground (arith, contains-keep (contains reachable) (preds v) u, flow.preds_succ u v)

    -- An update never loses a dominator.
    next-upper :
        (d : Doms) (x b : ℕ)
        → IsRefined d
        → (b == entry) ≡ false
        → Walk succ entry b
        → Dominates succ entry x b
        → contains (next_dominators reachable preds b d) x ≡ true
    unfolding next_dominators
    next-upper d x b h ne here dom = absurd (ground arith)
    next-upper d x b h ne (step {u} {v} w s) dom = elim (Bool-cases (x == b)) [
      | inl same ↦
          let eq : x ≡ b = ground arith in
          rw eq (updated_self b (keep (contains reachable) (preds b)) d)
      | inr other ↦
          updated-in b (keep (contains reachable) (preds b)) d x u
            (is_pred u b (flow.walk_reach w) s)
            (λ q k.
              let q_reach : contains reachable q ≡ true =
                ground (arith, contains-keep (contains reachable) (preds b) q) in
              h.upper x q q_reach (λ w'.
                let full = dom (
                  step w' (
                    ground (
                      arith,
                      contains-keep (contains reachable) (preds b) q,
                      flow.preds_succ q b,
                    ))) in
                ground arith))
    ]

    -- An update only takes elements away.
    pub update_smaller :
        (d : Doms) (b : ℕ)
        → IsRefined d
        → (b == entry) ≡ false
        → contains reachable b ≡ true
        → (c x : ℕ) → contains (update d b (next_dominators reachable preds b d) c) x ≡ true
        → contains (d c) x ≡ true
    update_smaller d b h ne r c x m = elim (Bool-cases (c == b)) [
      | inl same ↦ let eq : c ≡ b = ground arith in rw eq (h.shrinks b x r ne (rw same at m))
      | inr other ↦ rw other at m
    ]

    pub update-IsRefined :
        (d : Doms) (b : ℕ)
        → IsRefined d
        → (b == entry) ≡ false
        → contains reachable b ≡ true
        → IsRefined (update d b (next_dominators reachable preds b d))
    unfolding next_dominators
    update-IsRefined d b h ne r =
        let n = next_dominators reachable preds b d in
        let Smaller = update_smaller d b h ne r in
        record {
          upper = λ x c rc dom. elim (Bool-cases (c == b)) [
            | inl same ↦
                let eq : c ≡ b = ground arith in
                rw same (
                  next-upper d x b h ne (flow.reach_walk b r)
                    (subst (Dominates succ entry x) eq dom))
            | inr other ↦ rw other (h.upper x c rc dom)
          ];
          at_entry = λ x. ground (arith, h.at_entry x);
          shrinks = λ c x rc nc m. elim (Bool-cases (c == b)) [
            | inl same ↦
                let eq : c ≡ b = ground arith in
                rw same (
                  subst (λ j. contains (next_dominators reachable preds j d) x ≡ true) eq
                    (updated_mono c (keep (contains reachable) (preds c)) d (update d b n) x Smaller
                      m))
            | inr other ↦ rw other (
                h.shrinks c x rc nc (
                  updated_mono c (keep (contains reachable) (preds c)) d (update d b n) x Smaller
                    m))
          ];
          inside = λ c x m. h.inside c x (Smaller c x m);
          unique = λ c. elim (Bool-cases (c == b)) [
            | inl same ↦
                rw same (updated-IsUnique b (keep (contains reachable) (preds b)) d h.unique)
            | inr other ↦ rw other (h.unique c)
          ];
        }
