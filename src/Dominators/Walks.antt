-- ===== src/Dominators/Walks.antt =====
-- What dominance means: every walk from the entry passes through the node.
use flawed.Base.{
  ℕ, zero, suc, ◌≤◌, ◌<◌, ◌≡◌, refl, ◌⊎◌, inl, inr, Bool, true, false, ◌||◌, List, arith,
  Bool-cases, ◌==◌, nat_eq, string_eq,
}
use flawed.Reach.{Walk, here, step}

module _ (succ : ℕ → List ℕ) (entry : ℕ) where
  -- `x` is a node of the walk.
  abbrev pub on : ℕ → {v : ℕ} → Walk succ entry v → Bool
  on x (here) = x == entry
  on x (step {v} w s) = x == v || on x w

  abbrev pub Dominates : ℕ → ℕ → Type 0
  Dominates x v = (w : Walk succ entry v) → on x w ≡ true

  abbrev pub size : {v : ℕ} → Walk succ entry v → ℕ
  size here = 0
  size (step w s) = suc (size w)

  -- The part of a walk that ends at one of its nodes.
  pub prefix :
      (x : ℕ) {v : ℕ} (w : Walk succ entry v)
      → on x w ≡ true
      → (w' : Walk succ entry x) × (size w' ≤ size w)
        × ((x == v) ≡ false → size w' < size w)
        × ((y : ℕ) → on y w' ≡ true → on y w ≡ true)
  prefix x here m =
      let eq : x ≡ entry = ground arith in rw eq (here, omega arith, λ h. ground arith, λ y k. k)
  prefix x (step {u} {v} w s) m = elim (Bool-cases (x == v)) [
    | inl same ↦
        let eq : x ≡ v = ground arith in
        rw eq (step w s, omega arith, λ h. absurd (ground arith), λ y k. k)
    | inr other ↦
        let (w', le, lt, part) = prefix x w (ground arith) in
        (w', omega arith, λ _. omega arith, λ y k. (let below = part y k in ground arith))
  ]

  pub on_end : {v : ℕ} (w : Walk succ entry v) → on v w ≡ true
  on_end here = ground arith
  on_end (step w s) = ground arith

  pub on_entry : {v : ℕ} (w : Walk succ entry v) → on entry w ≡ true
  on_entry here = ground arith
  on_entry (step w s) = let before = on_entry w in ground arith

  pub Dominates-trans : (a i b : ℕ) → Dominates a i → Dominates i b → Dominates a b
  Dominates-trans a i b ai ib w = let (w', le, lt, part) = prefix i w (ib w) in part a (ai w')

  no_cycle :
      (n p c : ℕ) (w : Walk succ entry c)
      → size w < n
      → (p == c) ≡ false
      → Dominates p c
      → Dominates c p
      → ⊥
  no_cycle zero p c w le ne pc cp = absurd (omega arith)
  no_cycle (suc n) p c w le ne pc cp =
      let (w1, le1, lt1, part1) = prefix p w (pc w) in
      let (w2, le2, lt2, part2) = prefix c w1 (cp w1) in
      no_cycle n p c w2 (omega (arith, lt1 ne)) ne pc cp

  -- Two nodes that a walk reaches do not dominate one another.
  pub Dominates-antisym :
      (p c : ℕ) → Walk succ entry c → (p == c) ≡ false → Dominates p c → Dominates c p → ⊥
  Dominates-antisym p c w = no_cycle (suc (size w)) p c w (omega arith)

  abbrev Avoiding : ℕ → ℕ → ℕ → Type 0
  Avoiding a i v = (w : Walk succ entry v) × ((on a w ≡ false) ⊎ (on i w ≡ false))

  avoid_at_end :
      (a i v : ℕ) (wa : Walk succ entry a) (wi : Walk succ entry i)
      → on i wa ≡ false
      → on a wi ≡ false
      → ((a == v) ≡ false → (i == v) ≡ false → Avoiding a i v)
      → Avoiding a i v
  avoid_at_end a i v wa wi ha hi else_case = elim (Bool-cases (a == v)) [
    | inl same ↦ let eq : v ≡ a = ground arith in rw eq (wa, inr ha)
    | inr na ↦ elim (Bool-cases (i == v)) [
      | inl same ↦ let eq : v ≡ i = ground arith in rw eq (wi, inl hi)
      | inr ni ↦ else_case na ni
    ]
  ]

  -- Where each of two nodes can be reached without the other, so can every node without one of them.
  pub avoid_one :
      (a i : ℕ) (wa : Walk succ entry a) (wi : Walk succ entry i)
      → on i wa ≡ false
      → on a wi ≡ false
      → {v : ℕ} → Walk succ entry v
      → (w : Walk succ entry v) × ((on a w ≡ false) ⊎ (on i w ≡ false))
  avoid_one a i wa wi ha hi here = avoid_at_end a i entry wa wi ha hi (λ na ni. (here, inl na))
  avoid_one a i wa wi ha hi (step {u} {v} w s) =
      let (w', which) = avoid_one a i wa wi ha hi w in
      avoid_at_end a i v wa wi ha hi (λ na ni.
        (step w' s, elim which [ inl h ↦ inl (rw (na, h) refl) | inr h ↦ inr (rw (ni, h) refl) ]))
