-- ===== src/CallGraph/Levels.antt =====
-- `reachable_from` of `CallGraph` in src/flawed/_index/_graphs.py, with a `max_depth`: what it returns is
-- called from the start, by no more calls than allowed.
use flawed.Base.{
  ℕ, zero, suc, ◌+◌, ◌≤◌, String, ◌≡◌, sym, subst, ◌≢◌, inl, inr, true, ◌||◌, List, [], ◌∷◌, arith,
  Bool-cases, add, contains-add, ◌==◌, nat_eq, string_eq, contains, beq_refl, pair_eq,
}
use flawed.CallGraph.{CallGraph, visit_callees, visit_level, levels, reachable_within}

-- `Calls succ n a b`: `b` is reached from `a` by `n` calls.
pub data Calls (succ : String → List String) : ℕ → String → String → Type 0 where
  here : {a : String} → Calls succ 0 a a
  call :
      {n : ℕ} {a b c : String}
      → Calls succ n a b
      → contains (succ b) c ≡ true
      → Calls succ (suc n) a c

module _ (g : CallGraph) (start : String) where
  -- `x` is not the start and is called from it, in `n` calls at most
  abbrev pub Called : ℕ → String → Type 0
  Called n x = (x ≢ start) × ((k : ℕ) × (1 ≤ k) × (k ≤ n) × Calls g.callees_by_caller k start x)

  -- the names of a list satisfy `P`
  abbrev All : (String → Type 0) → List String → Type 0
  All P xs = (x : String) → contains xs x ≡ true → P x

  abbrev Exactly : ℕ → String → Type 0
  Exactly n x = Calls g.callees_by_caller n start x

  All-add :
      (P : String → Type 0) (xs : List String) (x : String) → P x → All P xs → All P (add xs x)
  All-add P xs x p h y m = elim (Bool-cases (y == x)) [
    | inl same ↦ subst P (sym ((string_eq.beq_iff y x).0 same)) p
    | inr other ↦ h y (ground (arith, contains-add xs x y, m, other))
  ]

  Called-mono : (n k : ℕ) (x : String) → n ≤ k → Called n x → Called k x
  Called-mono n k x le (apart, (i, low, high, w)) = (apart, (i, low, omega arith, w))

  visit_callees-Called :
      (n : ℕ) (node : String) (reachable next succs : List String)
      → Exactly n node
      → All (Called (suc n)) reachable
      → All (Exactly (suc n)) next
      → All (λ x. contains (g.callees_by_caller node) x ≡ true) succs
      → All (Called (suc n)) (visit_callees start (reachable, next) succs).0
        × All (Exactly (suc n)) (visit_callees start (reachable, next) succs).1
  unfolding visit_callees
  visit_callees-Called n node reachable next [] w hr hn hs = (hr, hn)
  visit_callees-Called n node reachable next (succ ∷ succs) w hr hn hs =
      let tail_ok : All (λ x. contains (g.callees_by_caller node) x ≡ true) succs =
        λ x m. hs x (ground (arith, m)) in
      elim (Bool-cases (succ == start || contains reachable succ)) [
        | inl seen ↦ rw seen (visit_callees-Called n node reachable next succs w hr hn tail_ok)
        | inr new ↦
            let step : Exactly (suc n) succ = call w (hs succ (ground (arith, beq_refl succ))) in
            let apart : succ ≢ start =
              λ e. absurd (ground (arith, new, (string_eq.beq_iff succ start).1 e)) in
            rw new (
              visit_callees-Called n node (add reachable succ) (add next succ) succs w
                (All-add (Called (suc n)) reachable succ
                  (apart, (suc n, omega arith, omega arith, step)) hr)
                (All-add (Exactly (suc n)) next succ step hn) tail_ok)
      ]

  visit_level-Called :
      (n : ℕ) (reachable next nodes : List String)
      → All (Exactly n) nodes
      → All (Called (suc n)) reachable
      → All (Exactly (suc n)) next
      → All (Called (suc n)) (visit_level g start (reachable, next) nodes).0
        × All (Exactly (suc n)) (visit_level g start (reachable, next) nodes).1
  unfolding visit_level
  visit_level-Called n reachable next [] hw hr hn = (hr, hn)
  visit_level-Called n reachable next (node ∷ nodes) hw hr hn =
      let visited = visit_callees start (reachable, next) (g.callees_by_caller node) in
      let (hr', hn') =
        visit_callees-Called n node reachable next (g.callees_by_caller node)
          (hw node (ground (arith, beq_refl node))) hr hn (λ x m. m) in
      visit_level-Called n visited.0 visited.1 nodes (λ x m. hw x (ground (arith, m))) hr' hn'

  levels-Called :
      (n depth : ℕ) (reachable frontier : List String)
      → All (Called n) reachable
      → All (Exactly n) frontier
      → All (Called (n + depth)) (levels g start depth reachable frontier)
  unfolding levels
  levels-Called n zero reachable frontier hr hf x m = Called-mono n (n + 0) x (omega arith) (hr x m)
  levels-Called n (suc depth) reachable [] hr hf x m =
      Called-mono n (n + suc depth) x (omega arith) (hr x m)
  levels-Called n (suc depth) reachable (node ∷ nodes) hr hf x m =
      let visited = visit_level g start (reachable, []) (node ∷ nodes) in
      let (hr', hn') =
        visit_level-Called n reachable [] (node ∷ nodes) hf
          (λ y h. Called-mono n (suc n) y (omega arith) (hr y h))
          (λ y h. absurd (ground (arith, h))) in
      Called-mono (suc n + depth) (n + suc depth) x (omega arith)
        (levels-Called (suc n) depth visited.0 visited.1 hr' hn' x m)

-- What `reachable_from` returns with a `max_depth` is reached: each name is not the start, and is called
-- from it by a chain of at least one and at most `max_depth` calls.
pub reachable_within-Called :
    (g : CallGraph) (start : String) (max_depth : ℕ) (x : String)
    → contains (reachable_within g start max_depth) x ≡ true
    → Called g start max_depth x
unfolding reachable_within
reachable_within-Called g start max_depth x m =
    elim (Bool-cases (contains g.resolved_nodes start)) [
      | inr unknown ↦ absurd (ground (arith, m, unknown))
      | inl known ↦ Called-mono g start (0 + max_depth) max_depth x (omega arith) (
          levels-Called g start 0 max_depth [] (start ∷ []) (λ y h. absurd (ground (arith, h)))
            (λ y h.
              let same : y ≡ start = (string_eq.beq_iff y start).0 (ground (arith, h)) in
              subst (λ z. Calls g.callees_by_caller 0 start z) (sym same) here)
            x (ground (arith, m, known)))
    ]
