-- ===== src/Dominators/Exact.antt =====
-- The dominator sets that the computation ends with are exact.
use flawed.Base.{
  ℕ, ◌≡◌, refl, sym, subst, inl, inr, Bool, true, false, List, [], ◌∷◌, arith, if◌then◌else◌,
  Bool-cases, IsUnique, ◌==◌, nat_eq, string_eq, contains, keep,
}
use flawed.Reach.{Walk, here, step}
use flawed.Dominators.{Doms, next_dominators, initial_one, initial_loop, initial_dominators}
use flawed.Dominators.Walks.{on, Dominates, prefix}
use flawed.Dominators.Fixpoint.{IsFlow, IsRefined, updated-out, is_pred}
use flawed.Dominators.Loop.{IsFixed}

initial_loop_lem :
    (entry : ℕ) (reachable : List ℕ) (d : Doms) (ids : List ℕ) (j : ℕ)
    → initial_loop entry reachable d ids j ≡ (
        if contains ids j
        then (if j == entry then entry ∷ [] else if contains reachable j then reachable else d j)
        else d j)
unfolding initial_loop
initial_loop_lem entry reachable d [] j = refl
initial_loop_lem entry reachable d (b ∷ ids) j =
    rw (initial_loop_lem entry reachable (initial_one entry reachable d b) ids j) (ground arith)

IsUnique-if : (c : Bool) (s t : List ℕ) → IsUnique s → IsUnique t → IsUnique (if c then s else t)
IsUnique-if true s t u v = u
IsUnique-if false s t u v = v

module _ (succ preds : ℕ → List ℕ) (entry : ℕ) (reachable ids : List ℕ)
    (flow : IsFlow succ preds entry reachable) where
  -- The initial sets, over the blocks `ids`.
  pub initial-IsRefined :
      IsUnique reachable
      → ((b : ℕ) → contains reachable b ≡ true → contains ids b ≡ true)
      → IsRefined succ preds entry reachable (initial_dominators entry reachable ids)
  unfolding initial_dominators next_dominators
  initial-IsRefined u cover =
      let d = initial_loop entry reachable (λ _. []) ids in
      let at = λ (j : ℕ). initial_loop_lem entry reachable (λ _. []) ids j in
      let in_entry : contains reachable entry ≡ true = flow.walk_reach here in
      let within : (b x : ℕ) → contains (d b) x ≡ true → contains reachable x ≡ true =
        λ b x m. (let value = at b in ground arith) in
      record {
        upper = λ x b rc dom.
            let w = flow.reach_walk b rc in
            let (w', le, lt, part) = prefix succ entry x w (dom w) in
            let x_in = flow.walk_reach w' in
            elim (Bool-cases (b == entry)) [
              | inl same ↦
                  let eq : entry ≡ b = ground arith in
                  let on_here : (x == entry) ≡ true =
                    subst (Dominates succ entry x) (sym eq) dom here in
                  ground (arith, at b, cover b)
              | inr other ↦ ground (arith, at b, cover b)
            ];
        at_entry = λ x. ground (arith, at entry, cover entry);
        shrinks = λ b x rc ne m. elim (updated-out b (keep (contains reachable) (preds b)) d x m) [
          | inl same ↦ ground (arith, at b, cover b)
          | inr ((p, n), all) ↦ (let x_in = within p x (all p n) in ground (arith, at b, cover b))
        ];
        inside = within;
        unique = λ b. rw (at b) (
            IsUnique-if (contains ids b) _ []
              (IsUnique-if (b == entry) (entry ∷ []) _ (refl, tt)
                (IsUnique-if (contains reachable b) reachable [] u tt))
              tt);
      }

  -- At a fixed point a member of a block's set is on every walk to the block.
  lower :
      (d : Doms)
      → IsFixed succ preds entry reachable flow ids d
      → ((b : ℕ) → contains reachable b ≡ true → contains ids b ≡ true)
      → (x : ℕ) {v : ℕ} (w : Walk succ entry v) → contains (d v) x ≡ true
      → on succ entry x w ≡ true
  unfolding next_dominators
  lower d fix cover x here m = ground (arith, fix.kept.at_entry x)
  lower d fix cover x (step {u} {v} w s) m = elim (Bool-cases (v == entry)) [
    | inl same ↦
        let eq : v ≡ entry = ground arith in
        let m' : contains (d entry) x ≡ true = subst (λ j. contains (d j) x ≡ true) eq m in
        ground (arith, fix.kept.at_entry x)
    | inr ne ↦
        let v_in = flow.walk_reach (step w s) in
        let u_in = flow.walk_reach w in
        elim (updated-out v (keep (contains reachable) (preds v)) d x
          (fix.equation v x (cover v v_in) v_in ne m)) [
            | inl same ↦ ground arith
            | inr (_, all) ↦
                let before =
                  lower d fix cover x w
                    (all u (is_pred succ preds entry reachable flow u v u_in s)) in
                ground arith
          ]
  ]

  -- The sets hold exactly the dominators.
  pub record IsExact (d : Doms) : Type 0 where
    pub sound : (x b : ℕ) → contains (d b) x ≡ true → Dominates succ entry x b
    pub full :
        (x b : ℕ) → contains reachable b ≡ true → Dominates succ entry x b → contains (d b) x ≡ true
    pub unique : (b : ℕ) → IsUnique (d b)

  pub IsFixed-IsExact :
      (d : Doms)
      → IsFixed succ preds entry reachable flow ids d
      → ((b : ℕ) → contains reachable b ≡ true → contains ids b ≡ true)
      → IsExact d
  IsFixed-IsExact d fix cover = record {
    sound = λ x b m w. lower d fix cover x w m;
    full = fix.kept.upper;
    unique = fix.kept.unique;
  }
