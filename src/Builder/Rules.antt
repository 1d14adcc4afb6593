-- ===== src/Builder/Rules.antt =====
-- One rule for each way to build an action of the builder.
use flawed.Dominators.{update}
use flawed.Base.{
  ℕ, suc, ◌≤◌, ◌<◌, String, ◌≡◌, refl, ap, ◌∙◌, inl, inr, Bool, some, List, [], ◌∷◌, ◌++◌, arith,
  ltb, Bool-cases, ◌==◌, nat_eq, string_eq,
}
use flawed.Types.{SourceSpan, ValuePredicate}
use flawed.Builder.Syntax.{Value, if_exp, comparison, boolean_operation, not_operation, other_value}
use flawed.Builder.State.{
  MutableBlock, Builder, M, ◌>>=◌, ◌>>◌, pure, new_block, at_block, add_edge_with, add_statement,
  set_condition, add_value_predicate, capture_value_predicates, edge,
}
use flawed.Builder.Safe.{
  IsSource, IsTarget, IsSound, AllEdges-mono, AllEdges-append_one, AllTargets-mono, AllRegions-mono,
}

-- After an action: the state is sound, blocks are only added, and the loop stack is as before.
pub record After (b b' : Builder) : Type 0 where
  pub sound : IsSound b'
  pub grows : b.next_id ≤ b'.next_id
  pub stack : b'.loop_stack ≡ b.loop_stack

-- From a sound state with at least `n` blocks, `m` keeps the state sound, and its result is `Q`.
pub record Safe {A : Type 0} (n : ℕ) (m : M A) (Q : A → ℕ → Type 0) : Type 0 where
  pub at : (b : Builder) → IsSound b → n ≤ b.next_id → After b (m b).1 × Q (m b).0 (m b).1.next_id

abbrev pub Any : {A : Type 0} → A → ℕ → Type 0
Any a k = Unit {0}

pub After-trans : {b c d : Builder} → After b c → After c d → After b d
After-trans p q = record {
  sound = q.sound;
  grows = omega (arith, p.grows, q.grows);
  stack = q.stack ∙ p.stack;
}

module _ {A : Type 0} where
  pub Safe-pure :
      (n : ℕ) (a : A) (Q : A → ℕ → Type 0) → ((k : ℕ) → n ≤ k → Q a k) → Safe n (pure a) Q
  unfolding pure
  Safe-pure n a Q h = record {
    at = λ b s le. (record { sound = s; grows = omega arith; stack = refl }, h b.next_id le);
  }

  pub Safe-weaken :
      (n : ℕ) (m : M A) (Q R : A → ℕ → Type 0)
      → ((a : A) (k : ℕ) → n ≤ k → Q a k → R a k)
      → Safe n m Q
      → Safe n m R
  Safe-weaken n m Q R h p = record {
    at = λ b s le.
        let (after, q) = p.at b s le in
        (after, h (m b).0 (m b).1.next_id (omega (arith, after.grows)) q);
  }

module _ {A B : Type 0} where
  pub Safe-bind :
      {n : ℕ} {m : M A} {Q : A → ℕ → Type 0} {f : A → M B} {R : B → ℕ → Type 0}
      → Safe n m Q
      → ((a : A) (k : ℕ) → n ≤ k → Q a k → Safe k (f a) R)
      → Safe n (m >>= f) R
  unfolding ◌>>=◌
  Safe-bind {m = m} p h = record {
    at = λ b s le.
        let (after, q) = p.at b s le in
        let (after', r) =
          (h (m b).0 (m b).1.next_id (omega (arith, after.grows)) q).at (m b).1 after.sound
            (omega arith) in
        (After-trans after after', r);
  }

  pub Safe-then :
      {n : ℕ} {m : M A} {Q : A → ℕ → Type 0} {f : M B} {R : B → ℕ → Type 0}
      → Safe n m Q
      → ((k : ℕ) → n ≤ k → Safe k f R)
      → Safe n (m >> f) R
  unfolding ◌>>◌
  Safe-then {m = m} p h = record {
    at = λ b s le.
        let (after, q) = p.at b s le in
        let (after', r) =
          (h (m b).1.next_id (omega (arith, after.grows))).at (m b).1 after.sound (omega arith) in
        (After-trans after after', r);
  }

-- a new block is neither below `n` nor left unnumbered
abbrev pub Fresh : ℕ → ℕ → ℕ → Type 0
Fresh n i k = (n ≤ i) × (i < k)

pub Safe-new_block : (n : ℕ) → Safe n new_block (Fresh n)
unfolding new_block
Safe-new_block n = record {
  at = λ b s le. (
    record {
      sound = record {
        edges_ok = AllEdges-mono b.next_id (suc b.next_id) b.edges (omega arith) s.edges_ok;
        stack_ok = AllTargets-mono b.next_id (suc b.next_id) b.loop_stack (omega arith) s.stack_ok;
        regions_ok =
            AllRegions-mono b.next_id (suc b.next_id) b.try_regions (omega arith) s.regions_ok;
        entry_preds = ground (arith, s.entry_preds);
        exit_succs = ground (arith, s.exit_succs);
        reported_once = s.reported_once;
      };
      grows = omega arith;
      stack = refl;
    },
    (le, omega arith),
  );
}

update-kept :
    (g : MutableBlock → List ℕ) (blocks : ℕ → MutableBlock) (i j : ℕ) (k : MutableBlock)
    → (i ≡ j → g k ≡ g (blocks i))
    → g (update blocks i k j) ≡ g (blocks j)
update-kept g blocks i j k h = elim (Bool-cases (j == i)) [
  | inl same ↦ (let at : i ≡ j = ground (arith, same) in rw same (h at ∙ ap (λ z. g (blocks z)) at))
  | inr other ↦ rw other refl
]

-- A write to a block is harmless if it leaves alone the predecessors of block 0 and the successors of
-- block 1.
pub at_block-After :
    (i : ℕ) (f : MutableBlock → MutableBlock) (b : Builder)
    → (i ≡ 0 → (f (b.blocks i)).preds ≡ (b.blocks i).preds)
    → (i ≡ 1 → (f (b.blocks i)).succs ≡ (b.blocks i).succs)
    → IsSound b
    → After b (at_block i f b)
at_block-After i f b hp hs s = elim (Bool-cases (ltb i b.next_id)) [
  | inl inside ↦ rw inside record {
    sound = record {
      edges_ok = s.edges_ok;
      stack_ok = s.stack_ok;
      regions_ok = s.regions_ok;
      entry_preds = update-kept (λ k. k.preds) b.blocks i 0 (f (b.blocks i)) hp ∙ s.entry_preds;
      exit_succs = update-kept (λ k. k.succs) b.blocks i 1 (f (b.blocks i)) hs ∙ s.exit_succs;
      reported_once = s.reported_once;
    };
    grows = omega arith;
    stack = refl;
  }
  | inr outside ↦ rw outside record { sound = s; grows = omega arith; stack = refl }
]

pub Safe-at_block :
    (n i : ℕ) (f : MutableBlock → MutableBlock)
    → ((k : MutableBlock) → (f k).preds ≡ k.preds)
    → ((k : MutableBlock) → (f k).succs ≡ k.succs)
    → Safe n (λ b. (tt, at_block i f b)) Any
Safe-at_block n i f hp hs = record {
  at = λ b s le. (at_block-After i f b (λ _. hp (b.blocks i)) (λ _. hs (b.blocks i)) s, tt);
}

pub Safe-add_edge :
    (n src tgt : ℕ) (label : String) (exceptional : Bool)
    → IsSource n src
    → IsTarget n tgt
    → Safe n (add_edge_with src tgt label exceptional) Any
unfolding add_edge_with
Safe-add_edge n src tgt label exceptional hs ht = record {
  at = λ b s le.
      let joined = record b { edges = b.edges ++ edge src tgt label exceptional ∷ [] } in
      let recorded : After b joined = record {
        sound = record {
          edges_ok =
              AllEdges-append_one b.next_id b.edges (edge src tgt label exceptional)
                (record { below = omega (arith, hs.below); not_exit = hs.not_exit })
                (record { below = omega (arith, ht.below); not_entry = ht.not_entry }) s.edges_ok;
          stack_ok = s.stack_ok;
          regions_ok = s.regions_ok;
          entry_preds = s.entry_preds;
          exit_succs = s.exit_succs;
          reported_once = s.reported_once;
        };
        grows = omega arith;
        stack = refl;
      } in
      let entered =
        at_block-After tgt (λ k. record k { preds = k.preds ++ src ∷ [] }) joined
          (λ e. absurd (ht.not_entry e)) (λ _. refl) recorded.sound in
      let left =
        at_block-After src (λ k. record k { succs = k.succs ++ tgt ∷ [] }) _ (λ _. refl)
          (λ e. absurd (hs.not_exit e)) entered.sound in
      (After-trans recorded (After-trans entered left), tt);
}

pub Safe-add_statement : (n i : ℕ) (span : SourceSpan) → Safe n (add_statement i span) Any
unfolding add_statement
Safe-add_statement n i span =
    Safe-at_block n i (λ k. record k { statements = k.statements ++ span ∷ [] }) (λ _. refl)
      (λ _. refl)

pub Safe-set_condition :
    (n i : ℕ) (text : String) (span : SourceSpan) → Safe n (set_condition i text span) Any
unfolding set_condition
Safe-set_condition n i text span =
    Safe-at_block n i (λ k. record k { condition_expr = some text; condition_location = some span })
      (λ _. refl) (λ _. refl)

Safe-add_value_predicate :
    (n i : ℕ) (text : String) (span : SourceSpan) (position : String)
    → Safe n (add_value_predicate i text span position) Any
unfolding add_value_predicate
Safe-add_value_predicate n i text span position =
    let p : ValuePredicate = record { expression = text; location = span; position = position } in
    Safe-at_block n i (λ k. record k { value_predicates = k.value_predicates ++ p ∷ [] })
      (λ _. refl) (λ _. refl)

pub Safe-capture :
    (n : ℕ) (value : Value) (position : String) (i : ℕ)
    → Safe n (capture_value_predicates value position i) Any
unfolding capture_value_predicates
Safe-capture n (if_exp body orelse) position i =
    Safe-then (Safe-capture n body "ternary" i) (λ k le. Safe-capture k orelse "ternary" i)
Safe-capture n (comparison text span) position i = Safe-add_value_predicate n i text span position
Safe-capture n (boolean_operation text span) position i =
    Safe-add_value_predicate n i text span position
Safe-capture n (not_operation text span) position i =
    Safe-add_value_predicate n i text span position
Safe-capture n other_value position i = Safe-pure n tt Any (λ _ _. tt)
