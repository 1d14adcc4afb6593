-- ===== src/Dominators/Total.antt =====
-- `_immediate_dominators` and `_block_dominates` together: they end, and they decide dominance.
use flawed.Base.{
  ℕ, suc, ◌*◌, ◌≤◌, ◌<◌, ◌≡◌, refl, sym, ◌∙◌, ◌↔◌, inl, inr, Bool, true, none, some, List, [],
  arith, Bool-cases, IsUnique, to_set, contains-to_set, IsUnique-to_set_from, length-le_of_subset,
  length, ◌==◌, nat_eq, string_eq, contains,
}
use flawed.Reach.{Walk}
use flawed.Reach.Closure.{
  IsClosed, Walk-in_nodes, reachable_block_ids, reachable_block_ids_total, reachable_block_ids-Walk,
  reachable_block_ids_complete,
}
use flawed.Dominators.{
  Doms, Idom, initial_dominators, fixed_point, collapse_immediate_dominators, immediate_dominators,
  block_dominates,
}
use flawed.Dominators.Walks.{on_end, Dominates, prefix}
use flawed.Dominators.Fixpoint.{IsFlow}
use flawed.Dominators.Loop.{fixed_point_enough}
use flawed.Dominators.Exact.{IsExact, initial-IsRefined, IsFixed-IsExact}
use flawed.Dominators.Chain.{links, climb_decides}

-- With no entry there are no links.
pub immediate_dominators-none :
    (ids : List ℕ) (succ preds : ℕ → List ℕ)
    → immediate_dominators none ids succ preds ≡ some (λ _. none)
unfolding immediate_dominators
immediate_dominators-none ids succ preds = refl

module _ (succ preds : ℕ → List ℕ) (entry : ℕ) (ids : List ℕ) where
  -- `idom` decides dominance of every block that a walk reaches.
  abbrev pub Decides : Idom → Type 0
  Decides idom =
      (fuel a b : ℕ)
      → length ids < fuel
      → Walk succ entry b
      → (r : Bool) × (block_dominates idom fuel a b ≡ some r)
        × ((r ≡ true) ↔ Dominates succ entry a b)

  links-Decides :
      (reachable : List ℕ) (flow : IsFlow succ preds entry reachable) (d : Doms)
      (exact : IsExact succ preds entry reachable ids flow d)
      → IsUnique ids
      → ((c : ℕ) → contains reachable c ≡ true → contains ids c ≡ true)
      → Decides (links succ preds entry reachable ids flow d exact)
  unfolding block_dominates
  links-Decides reachable flow d exact u cover fuel a b lt w = elim (Bool-cases (a == b)) [
    | inl same ↦
        let eq : a ≡ b = ground arith in
        (true, rw same, (λ _. rw eq (λ w'. on_end succ entry w'), λ _. refl))
    | inr ne ↦
        let few : length (d b) ≤ length ids = length-le_of_subset (d b) ids (exact.unique b) (λ x m.
          let (wx, _, _, _) = prefix succ entry x w (exact.sound x b m w) in
          cover x (flow.walk_reach wx)) in
        let (r, runs, sound, full) =
          climb_decides succ preds entry reachable ids flow d exact cover fuel a b
            (flow.walk_reach w) ne (omega arith) in
        (r, rw ne runs, (sound, full))
  ]

  immediate_dominators_eq :
      (ordered : List ℕ) (d : Doms)
      → reachable_block_ids succ (length ids) entry ≡ some ordered
      → fixed_point entry
          (to_set ordered)
          preds
          (suc (length ids * length (to_set ordered)))
          ids
          (initial_dominators entry (to_set ordered) ids)
        ≡ some d
      → immediate_dominators (some entry) ids succ preds
        ≡ some (collapse_immediate_dominators entry (to_set ordered) d ids)
  unfolding immediate_dominators
  immediate_dominators_eq ordered d searched ends =
      rw (searched, immediate_dominators) (rw (ends, immediate_dominators))

  -- The computation ends, and its links decide dominance.
  pub immediate_dominators_total :
      IsUnique ids
      → IsClosed succ ids entry
      → ((u v : ℕ) → contains (preds v) u ≡ contains (succ u) v)
      → (idom : Idom) × (immediate_dominators (some entry) ids succ preds ≡ some idom)
        × Decides idom
  unfolding immediate_dominators
  immediate_dominators_total u closed converse =
      let (ordered, searched) = reachable_block_ids_total succ ids entry closed in
      let reachable = to_set ordered in
      let flow : IsFlow succ preds entry reachable = record {
        preds_succ = converse;
        reach_walk = λ v m.
            reachable_block_ids-Walk succ ids entry (length ids) ordered searched v
              (sym (contains-to_set ordered v) ∙ m);
        walk_reach = λ {v} w.
            contains-to_set ordered v
            ∙ reachable_block_ids_complete succ ids entry (length ids) ordered searched w;
      } in
      let cover = λ (c : ℕ) (m : contains reachable c ≡ true).
        Walk-in_nodes succ ids entry closed (flow.reach_walk c m) in
      let (d, ends, fix) =
        fixed_point_enough succ preds entry reachable flow ids
          (initial_dominators entry reachable ids)
          (initial-IsRefined succ preds entry reachable ids flow
            (IsUnique-to_set_from [] ordered tt) cover) in
      let exact = IsFixed-IsExact succ preds entry reachable ids flow d fix cover in
      (
        links succ preds entry reachable ids flow d exact,
        immediate_dominators_eq ordered d searched ends,
        links-Decides reachable flow d exact u cover,
      )
