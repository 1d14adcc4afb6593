-- ===== src/Reach/HasPath.antt =====
-- `_has_path` of src/flawed/_index/_graphs.py, and the same loop in `ValueFlowGraph.connected`: a
-- breadth-first search that stops at the first edge into the target.
use flawed.Base.{
  ℕ, zero, suc, ◌≤◌, ◌≡◌, ap, inl, inr, Bool, true, false, Option, none, some, List, [], ◌∷◌, ◌++◌,
  arith, Bool-cases, length, List-cases, Eq, ◌==◌, nat_eq, string_eq, contains, beq_sym,
}
use flawed.Reach.{Walk, step}
use flawed.Reach.Bfs.{Frontier, visit, visit-seen, visit_until, visit_until_lem, work, visit-work}
use flawed.Reach.Closure.{
  IsClosed, Inv, Inv-expand, Inv-start, complete, expand, queued-Walk, queue_in_nodes,
  start_in_nodes, work-start,
}

module _ {A : Type 0} ⦃e : Eq A⦄ (succ : A → List A) where
  -- `while queue`, on fuel
  pub search_path : ℕ → A → Frontier A → Option Bool
  search_path zero target f = elim f.queue [ [] ↦ some false | _ ∷ _ ↦ none ]
  search_path (suc fuel) target f = elim f.queue [
    | [] ↦ some false
    | u ∷ rest ↦ elim (visit_until target (record f { queue = rest }) (succ u)) [
      | none ↦ some true
      | some f' ↦ search_path fuel target f'
    ]
  ]

  pub has_path : ℕ → A → A → Option Bool
  has_path fuel source target =
      search_path fuel target (record { seen = source ∷ []; queue = source ∷ [] })

module _ {A : Type 0} ⦃e : Eq A⦄ (succ : A → List A) (nodes : List A) (source target : A) where
  search_path_lem :
      (fuel : ℕ) (f : Frontier A) (ordered : List A) (b : Bool)
      → Inv succ nodes source f ordered
      → contains f.seen target ≡ false
      → search_path succ fuel target f ≡ some b
      → (b ≡ true → Walk succ source target) × (Walk succ source target → b ≡ true)
  unfolding search_path expand
  search_path_lem zero f ordered b h new r = elim (List-cases f.queue) [
    | inl empty ↦
        let none_left : b ≡ false = ground arith in
        (
          λ t. cc,
          λ w. ground (arith, complete succ nodes source f ordered h empty w, h.split target),
        )
    | inr (u, rest, q) ↦ ground arith
  ]
  search_path_lem (suc fuel) f ordered b h new r = elim (List-cases f.queue) [
    | inl empty ↦
        let none_left : b ≡ false = ground arith in
        (
          λ t. cc,
          λ w. ground (arith, complete succ nodes source f ordered h empty w, h.split target),
        )
    | inr (u, rest, q) ↦
        let f' = record f { queue = rest } in
        elim (Bool-cases (contains (succ u) target)) [
          | inl next ↦ (
            λ t. step (queued-Walk succ nodes source f ordered u rest q h) next,
            λ w. ground (arith, visit_until_lem target f' (succ u)),
          )
          | inr other ↦
              search_path_lem fuel (visit f' (succ u)) (ordered ++ u ∷ []) b
                (Inv-expand succ nodes source f ordered u rest q h)
                (ground (arith, visit-seen f' (succ u) target))
                (ground (arith, visit_until_lem target f' (succ u)))
        ]
  ]

  search_path_ends :
      (fuel : ℕ) (f : Frontier A)
      → IsClosed succ nodes source
      → ((v : A) → contains f.queue v ≡ true → contains nodes v ≡ true)
      → work nodes f ≤ fuel
      → (b : Bool) × (search_path succ fuel target f ≡ some b)
  unfolding search_path
  search_path_ends zero f c inside w = elim (List-cases f.queue) [
    | inl empty ↦ (false, rw (empty, search_path))
    | inr (u, rest, q) ↦ absurd (omega (arith, ap length q))
  ]
  search_path_ends (suc fuel) f c inside w = elim (List-cases f.queue) [
    | inl empty ↦ (false, rw (empty, search_path))
    | inr (u, rest, q) ↦
        let f' = record f { queue = rest } in
        let (u_in, inside') = queue_in_nodes succ nodes source f u rest c q inside in
        elim (Bool-cases (contains (succ u) target)) [
          | inl next ↦ (true, ground (arith, visit_until_lem target f' (succ u)))
          | inr other ↦
              let (b, ends) = search_path_ends fuel (visit f' (succ u)) c inside' (
                omega
                  (arith, visit-work nodes f' (succ u) (λ v. c.has_next u v u_in), ap length q)) in
              (b, ground (arith, visit_until_lem target f' (succ u)))
        ]
  ]

  -- From another node, the search ends, and says whether a walk leads to the target.
  pub has_path_decides :
      IsClosed succ nodes source
      → (source == target) ≡ false
      → (b : Bool) × (has_path succ (length nodes) source target ≡ some b)
        × (b ≡ true → Walk succ source target)
        × (Walk succ source target → b ≡ true)
  unfolding has_path
  has_path_decides c ne =
      let f : Frontier A = record { seen = source ∷ []; queue = source ∷ [] } in
      let (b, ends) =
        search_path_ends (length nodes) f c (start_in_nodes succ nodes source c)
          (work-start succ nodes source c) in
      let (sound, full) =
        search_path_lem (length nodes) f [] b (Inv-start succ nodes source)
          (ground (arith, beq_sym source target)) ends in
      (b, ends, sound, full)
