-- ===== src/Reach/Closure.antt =====
-- `_reachable_block_ids` of src/flawed/_index/_graphs.py: the nodes in the order of a breadth-first
-- search. `nodes` is any list that holds the start and is closed under successors.
use flawed.Base.{
  ℕ, zero, suc, ◌≤◌, ◌≡◌, refl, ap, subst, inl, inr, true, ◌||◌, Option, none, some, List, [], ◌∷◌,
  ◌++◌, arith, Bool-cases, count_in-le, count_in-lt, length, List-cases, Eq, ◌==◌, nat_eq,
  string_eq, contains, beq_refl, contains-append,
}
use flawed.Reach.{Walk, here, step}
use flawed.Reach.Bfs.{Frontier, visit, visit-seen, visit-queue, work, visit-work}

module _ {A : Type 0} ⦃e : Eq A⦄ (succ : A → List A) where
  -- one round, after `block_id` left the queue
  unfoldable pub expand : Frontier A → A → List A → Frontier A
  expand f u rest = visit (record f { queue = rest }) (succ u)

  -- `while queue`, on fuel; `none` means that the fuel ran out
  pub bfs : ℕ → Frontier A → List A → Option (List A)
  bfs zero f ordered = elim f.queue [ [] ↦ some ordered | _ ∷ _ ↦ none ]
  bfs (suc fuel) f ordered = elim f.queue [
    | [] ↦ some ordered
    | u ∷ rest ↦ bfs fuel (expand f u rest) (ordered ++ u ∷ [])
  ]

  pub reachable_block_ids : ℕ → A → Option (List A)
  reachable_block_ids fuel start = bfs fuel (record { seen = start ∷ []; queue = start ∷ [] }) []

  -- `nodes` bounds the search.
  pub record IsClosed (nodes : List A) (start : A) : Type 0 where
    pub has_start : contains nodes start ≡ true
    pub has_next :
        (u v : A) → contains nodes u ≡ true → contains (succ u) v ≡ true → contains nodes v ≡ true

module _ {A : Type 0} ⦃e : Eq A⦄ (succ : A → List A) (nodes : List A) (start : A) where
  pub Walk-in_nodes :
      IsClosed succ nodes start → {v : A} → Walk succ start v → contains nodes v ≡ true
  Walk-in_nodes c here = c.has_start
  Walk-in_nodes c (step {u} {v} w s) = c.has_next u v (Walk-in_nodes c w) s

  pub record Inv (f : Frontier A) (ordered : List A) : Type 0 where
    pub source : contains f.seen start ≡ true
    pub split : (v : A) → contains f.seen v ≡ (contains ordered v || contains f.queue v)
    pub sound : (v : A) → contains f.seen v ≡ true → Walk succ start v
    pub closed :
        (u v : A)
        → contains ordered u ≡ true
        → contains (succ u) v ≡ true
        → contains f.seen v ≡ true

  -- A walk leads to what is queued.
  pub queued-Walk :
      (f : Frontier A) (ordered : List A) (u : A) (rest : List A)
      → f.queue ≡ u ∷ rest
      → Inv f ordered
      → Walk succ start u
  queued-Walk f ordered u rest q h = h.sound u (rw (h.split u, q) (ground (arith, beq_refl u)))

  pub Inv-expand :
      (f : Frontier A) (ordered : List A) (u : A) (rest : List A)
      → f.queue ≡ u ∷ rest
      → Inv f ordered
      → Inv (expand succ f u rest) (ordered ++ u ∷ [])
  unfolding expand
  Inv-expand f ordered u rest q h =
      let f' = record f { queue = rest } in
      let to_u = queued-Walk f ordered u rest q h in
      record {
        source = ground (arith, visit-seen f' (succ u) start, h.source);
        split = λ v. ground (
          arith,
          visit-seen f' (succ u) v,
          visit-queue f' (succ u) v,
          h.split v,
          contains-append ordered (u ∷ []) v,
          ap (λ l. contains l v) q,
        );
        sound = λ v m. elim (Bool-cases (contains f.seen v)) [
          | inl old ↦ h.sound v old
          | inr new ↦ step to_u (ground (arith, visit-seen f' (succ u) v))
        ];
        closed = λ x v m s. elim (Bool-cases (x == u)) [
          | inl same ↦
              let eq : x ≡ u = (e.beq_iff x u).0 same in ground (arith, visit-seen f' (succ u) v)
          | inr other ↦
              ground
                (arith, visit-seen f' (succ u) v, h.closed x v, contains-append ordered (u ∷ []) x)
        ];
      }

  bfs-Inv :
      (fuel : ℕ) (f : Frontier A) (ordered result : List A)
      → Inv f ordered
      → bfs succ fuel f ordered ≡ some result
      → (t : Frontier A) × Inv t result × (t.queue ≡ [])
  unfolding bfs
  bfs-Inv zero f ordered result h r = elim (List-cases f.queue) [
    | inl empty ↦ let eq : ordered ≡ result = ground arith in (f, subst (Inv f) eq h, empty)
    | inr (u, rest, q) ↦ ground arith
  ]
  bfs-Inv (suc fuel) f ordered result h r = elim (List-cases f.queue) [
    | inl empty ↦ let eq : ordered ≡ result = ground arith in (f, subst (Inv f) eq h, empty)
    | inr (u, rest, q) ↦
        bfs-Inv fuel (expand succ f u rest) (ordered ++ u ∷ []) result
          (Inv-expand f ordered u rest q h) (rw (q, bfs) at r)
  ]

  pub queue_in_nodes :
      (f : Frontier A) (u : A) (rest : List A)
      → IsClosed succ nodes start
      → f.queue ≡ u ∷ rest
      → ((v : A) → contains f.queue v ≡ true → contains nodes v ≡ true)
      → (contains nodes u ≡ true)
        × ((v : A)
            → contains (visit (record f { queue = rest }) (succ u)).queue v ≡ true
            → contains nodes v ≡ true)
  queue_in_nodes f u rest c q inside =
      let f' = record f { queue = rest } in
      let u_in : contains nodes u ≡ true = inside u (rw q (ground (arith, beq_refl u))) in
      (
        u_in,
        λ v m. elim (Bool-cases (contains (succ u) v)) [
          | inl next ↦ c.has_next u v u_in next
          | inr other ↦ inside v (rw q (ground (arith, visit-queue f' (succ u) v)))
        ],
      )

  bfs_ends :
      (fuel : ℕ) (f : Frontier A) (ordered : List A)
      → IsClosed succ nodes start
      → ((v : A) → contains f.queue v ≡ true → contains nodes v ≡ true)
      → work nodes f ≤ fuel
      → (result : List A) × (bfs succ fuel f ordered ≡ some result)
  unfolding bfs expand
  bfs_ends zero f ordered c inside w = elim (List-cases f.queue) [
    | inl empty ↦ (ordered, rw (empty, bfs))
    | inr (u, rest, q) ↦ absurd (omega (arith, ap length q))
  ]
  bfs_ends (suc fuel) f ordered c inside w = elim (List-cases f.queue) [
    | inl empty ↦ (ordered, rw (empty, bfs))
    | inr (u, rest, q) ↦
        let f' = record f { queue = rest } in
        let (u_in, inside') = queue_in_nodes f u rest c q inside in
        let (result, ends) =
          bfs_ends fuel (visit f' (succ u)) (ordered ++ u ∷ []) c inside'
            (omega (arith, visit-work nodes f' (succ u) (λ v. c.has_next u v u_in), ap length q)) in
        (result, rw (q, bfs) ends)
  ]

  pub start_in_nodes :
      IsClosed succ nodes start → (v : A) → contains (start ∷ []) v ≡ true → contains nodes v ≡ true
  start_in_nodes c v m = elim (Bool-cases (v == start)) [
    | inl same ↦ let eq : v ≡ start = (e.beq_iff v start).0 same in rw eq c.has_start
    | inr other ↦ absurd (ground arith)
  ]

  pub work-start :
      IsClosed succ nodes start
      → work nodes (record { seen = start ∷ []; queue = start ∷ [] }) ≤ length nodes
  work-start c = omega (
    arith,
    count_in-lt nodes [] (start ∷ []) start (λ b m. cc) c.has_start refl
        (ground (arith, beq_refl start)),
    count_in-le nodes (start ∷ []),
  )

  pub Inv-start : Inv (record { seen = start ∷ []; queue = start ∷ [] }) []
  Inv-start = record {
    source = ground (arith, beq_refl start);
    split = λ v. ground arith;
    sound = λ v m. elim (Bool-cases (v == start)) [
      | inl same ↦ let eq : v ≡ start = (e.beq_iff v start).0 same in rw eq here
      | inr other ↦ absurd (ground arith)
    ];
    closed = λ u v m s. cc;
  }

  pub complete :
      (t : Frontier A) (result : List A)
      → Inv t result
      → t.queue ≡ []
      → {v : A} → Walk succ start v
      → contains result v ≡ true
  complete t result h q here = ground (arith, h.split start, ap (λ l. contains l start) q, h.source)
  complete t result h q (step {u} {v} w s) =
      ground (arith, h.split v, ap (λ l. contains l v) q, h.closed u v (complete t result h q w) s)

  -- The search ends within as many rounds as there are nodes.
  pub reachable_block_ids_total :
      IsClosed succ nodes start
      → (result : List A) × (reachable_block_ids succ (length nodes) start ≡ some result)
  unfolding reachable_block_ids
  reachable_block_ids_total c =
      bfs_ends (length nodes) (record { seen = start ∷ []; queue = start ∷ [] }) [] c
        (start_in_nodes c) (work-start c)

  -- What the search returns holds exactly the nodes to which a walk leads.
  pub reachable_block_ids-Walk :
      (fuel : ℕ) (result : List A)
      → reachable_block_ids succ fuel start ≡ some result
      → (v : A) → contains result v ≡ true
      → Walk succ start v
  unfolding reachable_block_ids
  reachable_block_ids-Walk fuel result r v m =
      let (t, h, q) = bfs-Inv fuel _ [] result Inv-start r in h.sound v (ground (arith, h.split v))

  pub reachable_block_ids_complete :
      (fuel : ℕ) (result : List A)
      → reachable_block_ids succ fuel start ≡ some result
      → {v : A} → Walk succ start v
      → contains result v ≡ true
  unfolding reachable_block_ids
  reachable_block_ids_complete fuel result r w =
      let (t, h, q) = bfs-Inv fuel _ [] result Inv-start r in complete t result h q w
