-- ===== src/Cfg/Blocks.antt =====
-- The accessors of `ControlFlowGraph` in src/flawed/_index/_graphs.py that return blocks, and the
-- conditions along a path.
use text.Mathlib.Text.{◌==◌ as str_eq}
use flawed.Base.{
  ℕ, String, ◌≡◌, refl, sym, ap, ◌∙◌, ◌⊎◌, inl, inr, Bool, true, false, not, ◌||◌, Option, none,
  some, List, [], ◌∷◌, map, arith, if◌then◌else◌, nat_beq_iff, Bool-cases, keep, ◌==◌, nat_eq,
  string_eq, contains, beq_refl, pair_eq,
}
use mathlib.Core.Path.{ap₂}
use flawed.Types.{SourceSpan, CfgBlock, CfgEdge, TryExceptRegion, BranchCondition}
use flawed.Cfg.{ControlFlowGraph, control_flow_graph, blocks_by_id, block_ids}
use flawed.Cfg.Edges.{build_cfg_adjacency-succs, build_cfg_adjacency-converse}
use flawed.Cfg.Dominance.{made-IsBuilt}

-- the blocks of some ids, those that are no block left out
pub lookup_all : (ℕ → Option CfgBlock) → List ℕ → List CfgBlock
lookup_all d [] = []
lookup_all d (i ∷ is) = elim (d i) [ none ↦ lookup_all d is | some b ↦ b ∷ lookup_all d is ]

has_no_successor : CfgBlock → Bool
has_no_successor b = elim b.successors [ [] ↦ true | _ ∷ _ ↦ false ]

-- the condition of a block that has both its text and its place
condition_of : Option String → Option SourceSpan → Bool → Option BranchCondition
condition_of none location direction = none
condition_of (some text) none direction = none
condition_of (some text) (some location) direction =
    some (record { condition_expr = text; direction = direction; location = location })

module _ (g : ControlFlowGraph) where
  unfoldable pub successors : ℕ → List CfgBlock
  unfolding lookup_all
  successors block_id = elim (blocks_by_id g.block_list block_id) [
    | none ↦ []
    | some _ ↦ lookup_all (blocks_by_id g.block_list) (g.adjacency.succs block_id)
  ]

  pub predecessors : ℕ → List CfgBlock
  unfolding lookup_all
  predecessors block_id = elim (blocks_by_id g.block_list block_id) [
    | none ↦ []
    | some _ ↦ lookup_all (blocks_by_id g.block_list) (g.adjacency.preds block_id)
  ]

  pub entry : Option CfgBlock
  entry = elim g.entry_id [ none ↦ none | some root ↦ blocks_by_id g.block_list root ]

  pub exits : List CfgBlock
  unfolding has_no_successor
  exits = keep has_no_successor g.block_list

  pub edge_between : ℕ → ℕ → Option CfgEdge
  edge_between source_id target_id = g.adjacency.pairs source_id target_id

  -- what one step of a path adds
  pub step_condition : ℕ → ℕ → Option BranchCondition
  unfolding edge_between condition_of
  step_condition source_id target_id = elim (edge_between source_id target_id) [
    | none ↦ none
    | some x ↦
        if not (str_eq x.label "true" || str_eq x.label "false")
        then none
        else elim (blocks_by_id g.block_list source_id) [
          | none ↦ none
          | some block ↦
              condition_of block.condition_expr block.condition_location (str_eq x.label "true")
        ]
  ]

  pub path_conditions : List ℕ → List BranchCondition
  unfolding step_condition
  path_conditions [] = []
  path_conditions (source_id ∷ []) = []
  path_conditions (source_id ∷ target_id ∷ rest) =
      let later = path_conditions (target_id ∷ rest) in
      elim (step_condition source_id target_id) [ none ↦ later | some c ↦ c ∷ later ]

-- -- the dict of blocks --------------------------------------------

-- a key is the id of its block, and all ids are keys
pub blocks_by_id-cases :
    (bs : List CfgBlock) (j : ℕ)
    → ((blocks_by_id bs j ≡ none) × (contains (block_ids bs) j ≡ false))
      ⊎ ((b : CfgBlock) × (blocks_by_id bs j ≡ some b) × (b.id ≡ j))
unfolding blocks_by_id block_ids
blocks_by_id-cases [] j = inl (refl, refl)
blocks_by_id-cases (b ∷ bs) j = elim (blocks_by_id-cases bs j) [
  | inr (c, found, same) ↦ inr (c, rw found refl, same)
  | inl (missing, absent) ↦ elim (Bool-cases (j == b.id)) [
    | inl here ↦ inr (b, simp (missing, here) refl, sym ((nat_beq_iff j b.id).0 here))
    | inr elsewhere ↦ inl (simp (missing, elsewhere) refl, ground (arith, absent, elsewhere))
  ]
]

lookup_all-ids :
    (bs : List CfgBlock) (is : List ℕ)
    → ((i : ℕ) → contains is i ≡ true → contains (block_ids bs) i ≡ true)
    → map (λ b. b.id) (lookup_all (blocks_by_id bs) is) ≡ is
unfolding lookup_all
lookup_all-ids bs [] h = refl
lookup_all-ids bs (i ∷ is) h =
    let later : map (λ b. b.id) (lookup_all (blocks_by_id bs) is) ≡ is =
      lookup_all-ids bs is (λ j m. h j (ground (arith, m))) in
    elim (blocks_by_id-cases bs i) [
      | inl (missing, absent) ↦
          let present = h i (ground (arith, beq_refl i)) in absurd (ground (arith, present, absent))
      | inr (b, found, same) ↦ rw (found, map) (ap₂ (λ x xs. x ∷ xs) same later)
    ]

false_of : {t : Bool} → ¬ (t ≡ true) → t ≡ false
false_of {t = true} h = absurd (h refl)
false_of {t = false} h = refl

-- a list without members
empty_of : (xs : List ℕ) → ((v : ℕ) → contains xs v ≡ false) → xs ≡ []
empty_of [] h = refl
empty_of (x ∷ xs) h =
    let none_such = h x in
    let same : (x == x) ≡ true = beq_refl x in absurd (ground (arith, none_such, same))

module _ (blocks : List CfgBlock) (edges : List CfgEdge) (regions : List TryExceptRegion)
    (g : ControlFlowGraph) (made : control_flow_graph blocks edges regions ≡ some g) where
  -- an id that the adjacency holds is the id of a block, at both ends
  succs-in :
      (u v : ℕ)
      → contains (g.adjacency.succs u) v ≡ true
      → (contains (block_ids g.block_list) u ≡ true) × (contains (block_ids g.block_list) v ≡ true)
  succs-in u v m =
      let built = made-IsBuilt blocks edges regions g made in
      let read =
        ap (λ a. contains (a.succs u) v) built.adjacency_eq
        ∙ build_cfg_adjacency-succs g.block_list g.edge_list u v in
      (ground (arith, read, m), ground (arith, read, m))

  preds-in :
      (u v : ℕ)
      → contains (g.adjacency.preds v) u ≡ true
      → (contains (block_ids g.block_list) u ≡ true) × (contains (block_ids g.block_list) v ≡ true)
  preds-in u v m =
      let built = made-IsBuilt blocks edges regions g made in
      let read =
        ap (λ a. contains (a.preds v) u) built.adjacency_eq
        ∙ build_cfg_adjacency-converse g.block_list g.edge_list u v
        ∙ build_cfg_adjacency-succs g.block_list g.edge_list u v in
      (ground (arith, read, m), ground (arith, read, m))

  -- In a graph that the constructor made, the blocks that `successors` and `predecessors` return are those
  -- of the adjacency's ids, one for one and in its order: no id lacks a block, and an id that is no block
  -- has neither successors nor predecessors.
  pub successors-ids :
      (u : ℕ)
      → (map (λ b. b.id) (successors g u) ≡ g.adjacency.succs u)
        × (map (λ b. b.id) (predecessors g u) ≡ g.adjacency.preds u)
  unfolding successors predecessors
  successors-ids u = elim (blocks_by_id-cases g.block_list u) [
    | inl (missing, absent) ↦ (
      rw (missing, map)
          (sym (
            empty_of (g.adjacency.succs u)
              (λ v. false_of (λ m. ground (arith, (succs-in u v m).0, absent))))),
      rw (missing, map)
          (sym (
            empty_of (g.adjacency.preds u)
              (λ v. false_of (λ m. ground (arith, (preds-in v u m).1, absent))))),
    )
    | inr (b, found, _) ↦ (
      rw (found, map)
          (lookup_all-ids g.block_list (g.adjacency.succs u) (λ v m. (succs-in u v m).1)),
      rw (found, map)
          (lookup_all-ids g.block_list (g.adjacency.preds u) (λ v m. (preds-in v u m).0)),
    )
  ]
