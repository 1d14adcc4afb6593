-- ===== src/Cfg/Order.antt =====
-- `ControlFlowGraph.precedes` and `reachable_between` of src/flawed/_index/_graphs.py.
use flawed.Base.{
  ℕ, ◌≡◌, sym, ◌∙◌, subst, ◌≢◌, ◌↔◌, ◌⊎◌, inl, inr, Bool, true, false, ◌&&◌, ◌||◌, some, List,
  arith, ltb, Bool-cases, ◌==◌, nat_eq, string_eq,
}
use mathlib.Core.Logic.{∥∥₁_elim}
use mathlib.Core.Bool.{So-prop}
use flawed.Reach.Closure.{IsClosed}
use flawed.Types.{SourceSpan, CfgBlock, CfgEdge, TryExceptRegion}
use flawed.Reach.{Walk}
use flawed.Reach.HasPath.{has_path_decides}
use flawed.Dominators.Walks.{Dominates, Dominates-trans, Dominates-antisym}
use flawed.Cfg.{
  Adjacency, ControlFlowGraph, control_flow_graph, key_ids, block_for, precedes, reachable_between,
}
use flawed.Cfg.Edges.{build_cfg_adjacency-IsClosed}
use flawed.Cfg.Dominance.{made-IsBuilt, block_dominates_in_decides, block_for-mem}

-- The order of two starts in one block.
abbrev pub starts_before : SourceSpan → SourceSpan → Bool
starts_before a b = ltb a.line b.line || a.line == b.line && ltb a.column b.column

starts_before_trans :
    (a b c : SourceSpan)
    → starts_before a b ≡ true
    → starts_before b c ≡ true
    → starts_before a c ≡ true
starts_before_trans a b c h k = ground arith

module _ (blocks : List CfgBlock) (edges : List CfgEdge) (regions : List TryExceptRegion)
    (g : ControlFlowGraph) (made : control_flow_graph blocks edges regions ≡ some g) (e : ℕ)
    (root : g.entry_id ≡ some e) where
  -- A location in a block that walks from the entry reach.
  pub record Placed (loc : SourceSpan) : Type 0 where
    pub block : CfgBlock
    pub found : block_for g loc ≡ some block
    pub live : Walk g.adjacency.succs e block.id

  -- What `precedes` means for placed locations.
  abbrev pub Before : {a b : SourceSpan} → Placed a → Placed b → Type 0
  Before {a} {b} p q =
      ((p.block.id ≡ q.block.id) × (starts_before a b ≡ true))
      ⊎ ((p.block.id == q.block.id) ≡ false) × Dominates g.adjacency.succs e p.block.id q.block.id

  -- In a graph that the constructor made and that has an entry, for two locations in blocks that the
  -- entry reaches: `precedes` answers, and the answer is yes if and only if the first stands earlier in
  -- the same block, or stands in another block, which dominates that of the second.
  pub precedes_decides :
      {a b : SourceSpan} (p : Placed a) (q : Placed b)
      → (r : Bool) × (precedes g a b ≡ some r) × ((r ≡ true) ↔ Before p q)
  unfolding precedes
  precedes_decides {a} {b} p q = elim (Bool-cases (p.block.id == q.block.id)) [
    | inl same ↦ (
      starts_before a b,
      rw (p.found, precedes) (rw (q.found, precedes) (rw same)),
      (
        λ h. inl (ground arith, h),
        λ w. elim w [ inl (eq, h) ↦ h | inr (ne, _) ↦ absurd (ground arith) ],
      ),
    )
    | inr ne ↦
        let (r, runs, iff) =
          block_dominates_in_decides blocks edges regions g made e root p.block.id q.block.id
            q.live in
        (
          r,
          rw (p.found, precedes) (rw (q.found, precedes) (rw ne runs)),
          (
            λ h. inr (ne, iff.0 h),
            λ w. elim w [ inl (eq, h) ↦ absurd (ground arith) | inr (_, d) ↦ iff.1 d ],
          ),
        )
  ]

  precedes-Before :
      {a b : SourceSpan} (p : Placed a) (q : Placed b) → precedes g a b ≡ some true → Before p q
  precedes-Before p q h = let (r, runs, iff) = precedes_decides p q in iff.0 (ground arith)

  pub Before-precedes :
      {a b : SourceSpan} (p : Placed a) (q : Placed b) → Before p q → precedes g a b ≡ some true
  Before-precedes p q w =
      let (r, runs, iff) = precedes_decides p q in let yes_r : r ≡ true = iff.1 w in ground arith

  -- In a graph that the constructor made and that has an entry, of two locations in blocks that the entry
  -- reaches at most one precedes the other, and none precedes itself.
  pub precedes-asymm :
      {a b : SourceSpan} (p : Placed a) (q : Placed b)
      → precedes g a b ≡ some true
      → precedes g b a ≢ some true
  precedes-asymm p q ab ba = elim (precedes-Before p q ab) [
    | inl (eq, h) ↦ elim (precedes-Before q p ba) [
      | inl (_, k) ↦ ground arith
      | inr (ne, _) ↦ ground arith
    ]
    | inr (ne, d) ↦ elim (precedes-Before q p ba) [
      | inl (eq, _) ↦ ground arith
      | inr (_, d') ↦ Dominates-antisym g.adjacency.succs e p.block.id q.block.id q.live ne d d'
    ]
  ]

  apart :
      {a b c : SourceSpan} (p : Placed a) (q : Placed b) (s : Placed c)
      → (p.block.id == q.block.id) ≡ false
      → Dominates g.adjacency.succs e p.block.id q.block.id
      → Dominates g.adjacency.succs e q.block.id s.block.id
      → (p.block.id == s.block.id) ≡ false
  apart p q s ne d d' = elim (Bool-cases (p.block.id == s.block.id)) [
    | inr other ↦ other
    | inl same ↦
        let eq : s.block.id ≡ p.block.id = ground arith in
        absurd (
          Dominates-antisym g.adjacency.succs e p.block.id q.block.id q.live ne d
            (subst (Dominates g.adjacency.succs e q.block.id) eq d'))
  ]

  -- In a graph that the constructor made and that has an entry, precedence is transitive on the locations
  -- in blocks that the entry reaches.
  pub precedes_trans :
      {a b c : SourceSpan} (p : Placed a) (q : Placed b) (s : Placed c)
      → precedes g a b ≡ some true
      → precedes g b c ≡ some true
      → precedes g a c ≡ some true
  precedes_trans {a} {b} {c} p q s ab bc = Before-precedes p s (elim (precedes-Before p q ab) [
    | inl (eq, h) ↦ elim (precedes-Before q s bc) [
      | inl (eq', k) ↦ inl (eq ∙ eq', starts_before_trans a b c h k)
      | inr (ne, d) ↦
          inr (ground arith, subst (λ i. Dominates g.adjacency.succs e i s.block.id) (sym eq) d)
    ]
    | inr (ne, d) ↦ elim (precedes-Before q s bc) [
      | inl (eq, k) ↦
          inr (ground arith, subst (λ i. Dominates g.adjacency.succs e p.block.id i) eq d)
      | inr (ne', d') ↦ inr (
        apart p q s ne d d',
        Dominates-trans g.adjacency.succs e p.block.id q.block.id s.block.id d d',
      )
    ]
  ])

  -- Where the blocks of two placed locations differ, `reachable_between` answers, and says whether
  -- a walk leads from the first block to the second.
  pub reachable_between_decides :
      {a b : SourceSpan} (p : Placed a) (q : Placed b)
      → (p.block.id == q.block.id) ≡ false
      → (r : Bool) × (reachable_between g a b ≡ some r)
        × ((r ≡ true) ↔ ∥ Walk g.adjacency.succs p.block.id q.block.id ∥₁)
  unfolding reachable_between
  reachable_between_decides {a} {b} p q ne =
      let closed : IsClosed g.adjacency.succs (key_ids g.block_list) p.block.id =
        subst (λ (adj : Adjacency). IsClosed adj.succs (key_ids g.block_list) p.block.id)
          (sym (made-IsBuilt blocks edges regions g made).adjacency_eq)
          (build_cfg_adjacency-IsClosed g.block_list g.edge_list p.block.id
            (block_for-mem blocks edges regions g made e root a p.block p.found)) in
      let (r, runs, sound, full) =
        has_path_decides g.adjacency.succs (key_ids g.block_list) p.block.id q.block.id closed ne in
      (
        r,
        rw (p.found, reachable_between) (rw (q.found, reachable_between) (rw ne runs)),
        (λ h. ∣ sound h ∣₁, λ w. ∥∥₁_elim w (So-prop _) full),
      )
