-- ===== src/View/Search.antt =====
-- The search for the arms of a branch ends, and the two arms are disjoint: src/flawed/_semantic/_cfgview.py,
-- branch_arm_block_ids.
use flawed.Base.{
  ℕ, zero, suc, ◌+◌, ◌≤◌, ◌≡◌, refl, ap, ◌∙◌, subst, inl, inr, true, false, not, ◌&&◌, ◌||◌, Option,
  none, some, List, [], ◌∷◌, map, arith, nat_beq_iff, Bool-cases, Option-cases, add, diff,
  contains-add, contains-to_set, length, ◌==◌, nat_eq, string_eq, contains, contains-keep, pair_eq,
}
use flawed.Types.{CfgBlock, SourceSpan}
use flawed.Cfg.{ControlFlowGraph, block_for, key_ids, block_ids, blocks_by_id}
use flawed.Cfg.Blocks.{successors, blocks_by_id-cases}
use flawed.View.Control.{Location, source_span, ControlFlowView}
use flawed.View.Arms.{
  reversed, successor_ids, search, unseen_edges, reachable_ids, branch_targets, branch_ids_at,
  branch_block_ids, branch_arm_block_ids, arm_from, branch_ids_of, branch_ids_in,
}

length-reversed : (xs ys : List ℕ) → length (reversed xs ys) ≡ length xs + length ys
length-reversed [] ys = omega arith
length-reversed (x ∷ xs) ys = omega (arith, length-reversed xs (x ∷ ys))

module _ (succ : ℕ → List ℕ) (blocked : List ℕ) where
  unseen_edges-le :
      (ks seen : List ℕ) (b : ℕ)
      → unseen_edges succ blocked ks (add seen b) ≤ unseen_edges succ blocked ks seen
  unfolding unseen_edges
  unseen_edges-le [] seen b = omega arith
  unseen_edges-le (k ∷ ks) seen b = ground (arith, contains-add seen b k, unseen_edges-le ks seen b)

  -- an id that becomes seen takes its successors out
  unseen_edges-add :
      (ks seen : List ℕ) (b : ℕ)
      → contains ks b ≡ true
      → contains seen b ≡ false
      → unseen_edges succ blocked ks (add seen b) + length (succ b)
        ≤ unseen_edges succ blocked ks seen
  unfolding unseen_edges
  unseen_edges-add [] seen b h k = cc
  unseen_edges-add (j ∷ ks) seen b h k = elim (Bool-cases (b == j)) [
    | inl same ↦
        let eq : b ≡ j = (nat_beq_iff b j).0 same in
        let fresh : contains seen j ≡ false = subst (λ n. contains seen n ≡ false) eq k in
        let counted : length (succ b) ≡ length (succ j) = ap (λ n. length (succ n)) eq in
        let gone : contains (add seen b) j ≡ true = contains-add seen b j ∙ ground (arith, eq) in
        rw (fresh, gone) (omega (arith, unseen_edges-le ks seen b, counted))
    | inr differ ↦
        let later : contains ks b ≡ true = ground (arith, h, differ) in
        let other : contains (add seen b) j ≡ contains seen j =
          contains-add seen b j ∙ ground (arith, differ) in
        rw other (omega (arith, unseen_edges-add ks seen b later k))
  ]

  search-total :
      (ks : List ℕ)
      → ((b : ℕ) → contains ks b ≡ false → succ b ≡ [])
      → (fuel : ℕ) (seen pending : List ℕ)
      → length pending + unseen_edges succ blocked ks seen ≤ fuel
      → (r : List ℕ) × (search succ blocked fuel seen pending ≡ some r)
  unfolding search
  search-total ks closed fuel seen [] h = (seen, refl)
  search-total ks closed zero seen (id ∷ pending) h = absurd (omega arith)
  search-total ks closed (suc fuel) seen (id ∷ pending) h =
      elim (Bool-cases (contains seen id || contains blocked id)) [
        | inl skip ↦
            let (r, e) = search-total ks closed fuel seen pending (omega (arith, h)) in
            (r, rw (skip, search) e)
        | inr new ↦
            let fresh : contains seen id ≡ false = ground (arith, new) in
            let (r, e) =
              search-total ks closed fuel (add seen id) (reversed (succ id) pending)
                (omega (arith, h, length-reversed (succ id) pending, paid id seen fresh)) in
            (r, rw (new, search) e)
      ]
    where
      paid :
          (b : ℕ) (seen : List ℕ)
          → contains seen b ≡ false
          → unseen_edges succ blocked ks (add seen b) + length (succ b)
            ≤ unseen_edges succ blocked ks seen
      paid b seen fresh = elim (Bool-cases (contains ks b)) [
        | inl known ↦ unseen_edges-add ks seen b known fresh
        | inr absent ↦
            let none_left : length (succ b) ≡ 0 =
              ap (λ (xs : List ℕ). length xs) (closed b absent) in
            omega (arith, none_left, unseen_edges-le ks seen b)
      ]

blocks_by_id-mem :
    (bs : List CfgBlock) (j : ℕ) (x : CfgBlock)
    → blocks_by_id bs j ≡ some x
    → contains (block_ids bs) j ≡ true
unfolding blocks_by_id block_ids
blocks_by_id-mem [] j x h = cc
blocks_by_id-mem (b ∷ bs) j x h = elim (Option-cases (blocks_by_id bs j)) [
  | inl missing ↦ ground (arith, missing, h)
  | inr (y, found) ↦ ground (arith, blocks_by_id-mem bs j y found)
]

-- both searches end, and their results have no id in common
abbrev pub Disjoint : Option (List ℕ) → Option (List ℕ) → Type 0
Disjoint found other =
    (xs : List ℕ) × (ys : List ℕ) × (found ≡ some xs)
    × (other ≡ some ys)
    × ((x : ℕ) → (contains xs x && contains ys x) ≡ false)

module _ (g : ControlFlowGraph) where
  -- an id that is no block has no successors
  successor_ids-absent :
      (b : ℕ) → contains (key_ids g.block_list) b ≡ false → successor_ids g b ≡ []
  unfolding successors
  successor_ids-absent b h = elim (blocks_by_id-cases g.block_list b) [
    | inl (missing, _) ↦ rw (missing, map) refl
    | inr (x, found, same) ↦ absurd (
        ground (
          arith,
          h,
          contains-to_set (block_ids g.block_list) b,
          blocks_by_id-mem g.block_list b x found,
        ))
  ]

  pub reachable_ids-total :
      (starts blocked : List ℕ) → (r : List ℕ) × (reachable_ids g starts blocked ≡ some r)
  unfolding reachable_ids
  reachable_ids-total starts blocked =
      search-total (successor_ids g) blocked (key_ids g.block_list) successor_ids-absent _ []
        (reversed starts []) (omega (arith, length-reversed starts []))

  -- the two arms, from the two searches
  arms_apart :
      (xs ys : List ℕ) (x : ℕ) → (contains (diff xs ys) x && contains (diff ys xs) x) ≡ false
  arms_apart xs ys x = ground (
    arith,
    contains-keep (λ a. not (contains ys a)) xs x,
    contains-keep (λ a. not (contains xs a)) ys x,
  )

  arm_from-some :
      (t : ℕ) (ts opposite r s : List ℕ)
      → reachable_ids g (t ∷ ts) opposite ≡ some r
      → reachable_ids g opposite (t ∷ ts) ≡ some s
      → arm_from g false (t ∷ ts) opposite ≡ some (diff r s)
  unfolding arm_from
  arm_from-some t ts opposite r s h k = rw (h, k) refl

  arms_from : (ts fs : List ℕ) → Disjoint (arm_from g false ts fs) (arm_from g false fs ts)
  unfolding arm_from
  arms_from [] [] = ([], [], refl, refl, λ x. refl)
  arms_from [] (f ∷ fs) =
      let (r, h) = reachable_ids-total (f ∷ fs) [] in
      let (s, k) = reachable_ids-total [] (f ∷ fs) in
      ([], diff r s, refl, arm_from-some f fs [] r s h k, λ x. refl)
  arms_from (t ∷ ts) [] =
      let (r, h) = reachable_ids-total (t ∷ ts) [] in
      let (s, k) = reachable_ids-total [] (t ∷ ts) in
      (diff r s, [], arm_from-some t ts [] r s h k, refl, λ x. ground arith)
  arms_from (t ∷ ts) (f ∷ fs) =
      let (r, h) = reachable_ids-total (t ∷ ts) (f ∷ fs) in
      let (s, k) = reachable_ids-total (f ∷ fs) (t ∷ ts) in
      (
        diff r s,
        diff s r,
        arm_from-some t ts (f ∷ fs) r s h k,
        arm_from-some f fs (t ∷ ts) s r k h,
        arms_apart r s,
      )

  branch_ids_at-Disjoint :
      (id : ℕ) → Disjoint (branch_ids_at g id true false) (branch_ids_at g id false false)
  unfolding branch_ids_at
  branch_ids_at-Disjoint id = arms_from (branch_targets g id true) (branch_targets g id false)

  branch_ids_of-Disjoint :
      (b : Option CfgBlock)
      → Disjoint (branch_ids_of g b true false) (branch_ids_of g b false false)
  branch_ids_of-Disjoint none = ([], [], refl, refl, λ x. refl)
  branch_ids_of-Disjoint (some b) = branch_ids_at-Disjoint b.id

branch_ids_in-Disjoint :
    (g : Option ControlFlowGraph) (span : SourceSpan)
    → Disjoint (branch_ids_in g span true false) (branch_ids_in g span false false)
branch_ids_in-Disjoint none span = ([], [], refl, refl, λ x. refl)
branch_ids_in-Disjoint (some g) span = branch_ids_of-Disjoint g (block_for g span)

-- Both arms of a branch are found, for every view and location, and no block belongs to both.
pub branch_arm_block_ids-Disjoint :
    (view : ControlFlowView) (loc : Location)
    → Disjoint (branch_arm_block_ids view loc true) (branch_arm_block_ids view loc false)
unfolding branch_block_ids
branch_arm_block_ids-Disjoint view loc = branch_ids_in-Disjoint view.graph (source_span loc)
