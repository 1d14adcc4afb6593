-- ===== src/Dominators.antt =====
-- The dominator computation of src/flawed/_index/_graphs.py: dominator sets by iteration to a fixed
-- point, and the chain of immediate dominators. Block ids are numbers, Python sets are lists without
-- repetition, and a dict from ids to sets is a function that is [] where the dict has no key.
pub mod Walks
pub mod Fixpoint
pub mod Loop
pub mod Exact
pub mod Chain
pub mod Total
use flawed.Base.{
  ℕ, zero, suc, ◌+◌, ◌-◌, ◌*◌, ◌≤◌, ◌<◌, String, ◌≡◌, refl, sym, ap, ◌∙◌, subst, ◌≢◌, ◌↔◌, ◌⊎◌, inl,
  inr, Bool, true, false, not, ◌&&◌, ◌||◌, Option, none, some, List, [], ◌∷◌, ◌++◌, map, foldl,
  arith, ltb, leb, nat_beq, if◌then◌else◌, nat_beq_iff, Bool-cases, Option-cases, add, inter, diff,
  is_subset, set_eq, IsUnique, to_set_from, to_set, contains-add, is_subset_at, is_subset-false,
  is_subset-true, IsUnique-append_one, IsUnique-keep, count_in, count_in-le, count_in_mono,
  count_in-lt, contains-to_set_from, contains-to_set, IsUnique-add, IsUnique-to_set_from,
  length-count_in, length-keep_le, length-keep_lt, ne_of_mem, length-le_of_subset,
  length-lt_of_subset, length, length-append, List-cases, length-map, Eq, ◌==◌, nat_eq, string_eq,
  contains, beq_refl, beq_sym, contains-append, keep, contains-keep,
}
use flawed.Reach.Closure.{reachable_block_ids}

abbrev pub Doms : Type 0
Doms = ℕ → List ℕ

-- `d[k] = v`
abbrev pub update {ℓ} : {V : Type ℓ} → (ℕ → V) → ℕ → V → ℕ → V
update d k v j = if j == k then v else d j

module _ (entry : ℕ) (reachable : List ℕ) where
  abbrev pub initial_one : Doms → ℕ → Doms
  initial_one d b =
      if b == entry
      then update d b (entry ∷ [])
      else if contains reachable b
      then update d b reachable
      else d

  pub initial_loop : Doms → List ℕ → Doms
  initial_loop d [] = d
  initial_loop d (b ∷ bs) = initial_loop (initial_one d b) bs

  pub initial_dominators : List ℕ → Doms
  unfolding initial_loop
  initial_dominators = initial_loop (λ _. [])

-- the `common` of `_updated_dominators`, after the first predecessor
abbrev pub intersect_all : Doms → List ℕ → List ℕ → List ℕ
intersect_all d common [] = common
intersect_all d common (p ∷ ps) = intersect_all d (inter common (d p)) ps

pub updated_dominators : ℕ → List ℕ → Doms → List ℕ
updated_dominators b [] d = b ∷ []
updated_dominators b (p ∷ ps) d = add (intersect_all d (d p) ps) b

pub record Pass : Type 0 where
  pub doms : Doms
  pub changed : Bool

-- the new set of one block, from its reachable predecessors
pub next_dominators : List ℕ → (ℕ → List ℕ) → ℕ → Doms → List ℕ
unfolding updated_dominators
next_dominators reachable preds b d = updated_dominators b (keep (contains reachable) (preds b)) d

module _ (entry : ℕ) (reachable : List ℕ) (preds : ℕ → List ℕ) where
  pub refine_one : Pass → ℕ → Pass
  refine_one s b =
      if b == entry || not (contains reachable b)
      then s
      else if set_eq (next_dominators reachable preds b s.doms) (s.doms b)
      then s
      else record {
        doms = update s.doms b (next_dominators reachable preds b s.doms);
        changed = true;
      }

  pub refine_loop : Pass → List ℕ → Pass
  refine_loop s [] = s
  refine_loop s (b ∷ bs) = refine_loop (refine_one s b) bs

  pub refine_dominators : List ℕ → Doms → Pass
  refine_dominators ids d = refine_loop (record { doms = d; changed = false }) ids

  -- `while _refine_dominators(...): pass`, on fuel; `none` means that the fuel ran out
  pub fixed_point : ℕ → List ℕ → Doms → Option Doms
  fixed_point zero ids d = none
  fixed_point (suc fuel) ids d =
      let s = refine_dominators ids d in
      elim s.changed [ true ↦ fixed_point fuel ids s.doms | false ↦ some s.doms ]

-- `max(xs, key=len(dominators[x]))`, the first of the largest
abbrev pub max_by_size : Doms → ℕ → List ℕ → ℕ
max_by_size d best [] = best
max_by_size d best (x ∷ xs) =
    max_by_size d (if ltb (length (d best)) (length (d x)) then x else best) xs

abbrev pub Idom : Type 0
Idom = ℕ → Option ℕ

pub pick : Doms → List ℕ → Option ℕ
pick d [] = none
pick d (x ∷ xs) = some (max_by_size d x xs)

module _ (entry : ℕ) (reachable : List ℕ) (d : Doms) where
  abbrev pub collapse_one : Idom → ℕ → Idom
  collapse_one idom b =
      if b == entry || not (contains reachable b)
      then idom
      else elim (pick d (diff (d b) (b ∷ []))) [ none ↦ idom | some m ↦ update idom b (some m) ]

  pub collapse_loop : Idom → List ℕ → Idom
  collapse_loop idom [] = idom
  collapse_loop idom (b ∷ bs) = collapse_loop (collapse_one idom b) bs

  pub collapse_immediate_dominators : List ℕ → Idom
  collapse_immediate_dominators ids = collapse_loop (update (λ _. none) entry (some entry)) ids

-- The fuel is enough: see `Dominators.Total`.
pub immediate_dominators : Option ℕ → List ℕ → (ℕ → List ℕ) → (ℕ → List ℕ) → Option Idom
immediate_dominators none ids succs preds = some (λ _. none)
immediate_dominators (some entry) ids succs preds =
    elim (reachable_block_ids succs (length ids) entry) [
      | none ↦ none
      | some ordered ↦
          let reachable = to_set ordered in
          elim (fixed_point entry reachable preds (suc (length ids * length reachable)) ids
            (initial_dominators entry reachable ids)) [
              | none ↦ none
              | some d ↦ some (collapse_immediate_dominators entry reachable d ids)
            ]
    ]

-- the loop of `_block_dominates` up the tree, on fuel
pub climb : Idom → ℕ → ℕ → ℕ → Option Bool
climb idom zero a current = none
climb idom (suc fuel) a current = elim (idom current) [
  | none ↦ some false
  | some parent ↦
      let rest = climb idom fuel a parent in
      if parent == a then some true else if parent == current then some false else rest
]

pub block_dominates : Idom → ℕ → ℕ → ℕ → Option Bool
block_dominates idom fuel a b = if a == b then some true else climb idom fuel a b
