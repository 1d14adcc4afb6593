-- ===== src/CallGraph/Complete.antt =====
-- `reachable_from` of `CallGraph` in src/flawed/_index/_graphs.py, with a `max_depth`: it misses nothing.
use flawed.Base.{
  ℕ, zero, suc, ◌≤◌, String, ◌≡◌, refl, sym, subst, ◌↔◌, inl, inr, Bool, true, false, ◌||◌, List,
  [], ◌∷◌, arith, if◌then◌else◌, Bool-cases, add, contains-add, ◌==◌, nat_eq, string_eq, contains,
  beq_refl, pair_eq,
}
use flawed.CallGraph.{CallGraph, visit_callees, visit_level, levels, reachable_within}
use flawed.CallGraph.Levels.{Calls, here, call, Called, reachable_within-Called}

-- a chain of calls, from its first call on
abbrev Chain : (String → List String) → ℕ → String → String → Type 0
Chain succ zero a c = a ≡ c
Chain succ (suc k) a c = (b : String) × (contains (succ a) b ≡ true) × Chain succ k b c

Chain-append_one :
    (succ : String → List String) (k : ℕ) (a b c : String)
    → Chain succ k a b
    → contains (succ b) c ≡ true
    → Chain succ (suc k) a c
Chain-append_one succ zero a b c e h = (c, subst (λ z. contains (succ z) c ≡ true) (sym e) h, refl)
Chain-append_one succ (suc k) a b c (d, first, rest) h =
    (d, first, Chain-append_one succ k d b c rest h)

Calls-Chain :
    (succ : String → List String) {k : ℕ} {a c : String} → Calls succ k a c → Chain succ k a c
Calls-Chain succ here = refl
Calls-Chain succ (call {n} {a} {b} {c} w h) = Chain-append_one succ n a b c (Calls-Chain succ w) h

module _ (g : CallGraph) (start : String) where
  abbrev seen : List String → String → Bool
  seen reachable y = y == start || contains reachable y

  -- what one node or one level does: it keeps what was seen, and what it adds is in the next frontier
  abbrev Grows : List String × List String → List String × List String → Type 0
  Grows before after =
      ((x : String) → contains before.0 x ≡ true → contains after.0 x ≡ true)
      × ((x : String) → contains before.1 x ≡ true → contains after.1 x ≡ true)
      × ((x : String)
          → contains after.0 x ≡ true
          → (contains before.0 x || contains after.1 x) ≡ true)

  Grows-refl : (p : List String × List String) → Grows p p
  Grows-refl p = ((λ x h. h), (λ x h. h), (λ x h. ground (arith, h)))

  Grows-trans : (p q r : List String × List String) → Grows p q → Grows q r → Grows p r
  Grows-trans p q r (a, b, c) (d, e, f) =
      ((λ x h. d x (a x h)), (λ x h. e x (b x h)), (λ x h. either x (f x h)))
    where
      either :
          (x : String)
          → (contains q.0 x || contains r.1 x) ≡ true
          → (contains p.0 x || contains r.1 x) ≡ true
      either x h = elim (Bool-cases (contains q.0 x)) [
        | inl old ↦ ground (arith, c x old, e x)
        | inr new ↦ ground (arith, h, new)
      ]

  Grows-add :
      (reachable next : List String) (y : String)
      → Grows (reachable, next) (add reachable y, add next y)
  Grows-add reachable next y = (
    (λ x h. ground (arith, h, contains-add reachable y x)),
    (λ x h. ground (arith, h, contains-add next y x)),
    (λ x h. ground (arith, h, contains-add reachable y x, contains-add next y x)),
  )

  abbrev after_one : List String × List String → String → List String × List String
  after_one p y = if y == start || contains p.0 y then p else (add p.0 y, add p.1 y)

  after_one-Grows : (p : List String × List String) (y : String) → Grows p (after_one p y)
  after_one-Grows p y = elim (Bool-cases (y == start || contains p.0 y)) [
    | inl old ↦ rw (old, Grows) (Grows-refl p)
    | inr new ↦ rw (new, Grows) (Grows-add p.0 p.1 y)
  ]

  after_one-seen : (p : List String × List String) (y : String) → seen (after_one p y).0 y ≡ true
  after_one-seen p y = elim (Bool-cases (y == start || contains p.0 y)) [
    | inl old ↦ rw old old
    | inr new ↦ rw new (ground (arith, contains-add p.0 y y, beq_refl y))
  ]

  visit_callees-step :
      (p : List String × List String) (y : String) (ys : List String)
      → visit_callees start p (y ∷ ys) ≡ visit_callees start (after_one p y) ys
  unfolding visit_callees
  visit_callees-step p y ys = elim (Bool-cases (y == start || contains p.0 y)) [
    | inl old ↦ rw (old, visit_callees) refl
    | inr new ↦ rw (new, visit_callees) refl
  ]

  visit_callees-Grows :
      (p : List String × List String) (succs : List String) → Grows p (visit_callees start p succs)
  unfolding visit_callees
  visit_callees-Grows p [] = Grows-refl p
  visit_callees-Grows p (y ∷ ys) = subst (Grows p) (sym (visit_callees-step p y ys)) (
      Grows-trans p (after_one p y) (visit_callees start (after_one p y) ys) (after_one-Grows p y)
        (visit_callees-Grows (after_one p y) ys))

  seen-Grows :
      (p q : List String × List String) (x : String)
      → Grows p q
      → seen p.0 x ≡ true
      → seen q.0 x ≡ true
  seen-Grows p q x (a, _, _) h = ground (arith, h, a x)

  visit_callees-seen :
      (p : List String × List String) (succs : List String) (x : String)
      → contains succs x ≡ true
      → seen (visit_callees start p succs).0 x ≡ true
  visit_callees-seen p [] x h = cc
  visit_callees-seen p (y ∷ ys) x h =
      subst (λ (q : List String × List String). seen q.0 x ≡ true) (sym (visit_callees-step p y ys))
        (elim (Bool-cases (x == y)) [
          | inl same ↦
              let eq : y ≡ x = sym ((string_eq.beq_iff x y).0 same) in
              seen-Grows (after_one p y) _ x (visit_callees-Grows (after_one p y) ys)
                (subst (λ (z : String). seen (after_one p y).0 z ≡ true) eq (after_one-seen p y))
          | inr differ ↦ visit_callees-seen (after_one p y) ys x (ground (arith, h, differ))
        ])

  visit_level-Grows :
      (p : List String × List String) (nodes : List String) → Grows p (visit_level g start p nodes)
  unfolding visit_level
  visit_level-Grows p [] = Grows-refl p
  visit_level-Grows p (node ∷ nodes) =
      let visited = visit_callees start p (g.callees_by_caller node) in
      Grows-trans p visited (visit_level g start visited nodes)
        (visit_callees-Grows p (g.callees_by_caller node)) (visit_level-Grows visited nodes)

  visit_level-seen :
      (p : List String × List String) (nodes : List String) (b c : String)
      → contains nodes b ≡ true
      → contains (g.callees_by_caller b) c ≡ true
      → seen (visit_level g start p nodes).0 c ≡ true
  unfolding visit_level
  visit_level-seen p [] b c h k = cc
  visit_level-seen p (node ∷ nodes) b c h k =
      let visited = visit_callees start p (g.callees_by_caller node) in
      elim (Bool-cases (b == node)) [
        | inl same ↦
            let eq : b ≡ node = (string_eq.beq_iff b node).0 same in
            seen-Grows visited (visit_level g start visited nodes) c
              (visit_level-Grows visited nodes)
              (visit_callees-seen p (g.callees_by_caller node) c
                (subst (λ (z : String). contains (g.callees_by_caller z) c ≡ true) eq k))
        | inr differ ↦ visit_level-seen visited nodes b c (ground (arith, h, differ)) k
      ]

  -- what is seen and not in the frontier has all its callees seen
  abbrev IsClosed : List String → List String → Type 0
  IsClosed reachable frontier =
      (b c : String)
      → seen reachable b ≡ true
      → contains frontier b ≡ false
      → contains (g.callees_by_caller b) c ≡ true
      → seen reachable c ≡ true

  visit_level-IsClosed :
      (reachable frontier : List String)
      → IsClosed reachable frontier
      → IsClosed
          (visit_level g start (reachable, []) frontier).0
          (visit_level g start (reachable, []) frontier).1
  visit_level-IsClosed reachable frontier closed b c h absent k =
      let p : List String × List String = (reachable, []) in
      let q = visit_level g start p frontier in
      let grown : Grows p q = visit_level-Grows p frontier in
      elim (Bool-cases (contains frontier b)) [
        | inl inside ↦ visit_level-seen p frontier b c inside k
        | inr outside ↦
            let before : seen reachable b ≡ true = ground (arith, h, grown.2 b, absent) in
            seen-Grows p q c grown (closed b c before outside k)
      ]

  levels-seen :
      (depth : ℕ) (reachable frontier : List String) (x : String)
      → seen reachable x ≡ true
      → seen (levels g start depth reachable frontier) x ≡ true
  unfolding levels
  levels-seen zero reachable frontier x h = h
  levels-seen (suc depth) reachable [] x h = h
  levels-seen (suc depth) reachable (node ∷ nodes) x h =
      let p : List String × List String = (reachable, []) in
      let q = visit_level g start p (node ∷ nodes) in
      levels-seen depth q.0 q.1 x (seen-Grows p q x (visit_level-Grows p (node ∷ nodes)) h)

  levels-Chain :
      (k depth : ℕ) (reachable frontier : List String) (b c : String)
      → k ≤ depth
      → IsClosed reachable frontier
      → seen reachable b ≡ true
      → Chain g.callees_by_caller k b c
      → seen (levels g start depth reachable frontier) c ≡ true
  unfolding levels
  levels-Chain zero depth reachable frontier b c le closed h e =
      levels-seen depth reachable frontier c (subst (λ (z : String). seen reachable z ≡ true) e h)
  levels-Chain (suc k) zero reachable frontier b c le closed h w = absurd (omega (arith, le))
  levels-Chain (suc k) (suc depth) reachable [] b c le closed h (d, first, rest) =
      levels-Chain k (suc depth) reachable [] d c (omega (arith, le)) closed
        (closed b d h refl first) rest
  levels-Chain (suc k) (suc depth) reachable (node ∷ nodes) b c le closed h (d, first, rest) =
      let p : List String × List String = (reachable, []) in
      let q = visit_level g start p (node ∷ nodes) in
      elim (Bool-cases (contains (node ∷ nodes) b)) [
        | inl inside ↦
            levels-Chain k depth q.0 q.1 d c (omega (arith, le))
              (visit_level-IsClosed reachable (node ∷ nodes) closed)
              (visit_level-seen p (node ∷ nodes) b d inside first) rest
        | inr outside ↦
            levels-Chain k (suc depth) reachable (node ∷ nodes) d c (omega (arith, le)) closed
              (closed b d h outside first) rest
      ]

-- With a `max_depth`, and from a name that the graph knows, `reachable_from` returns exactly the names other
-- than the start that it calls by a chain of at least one and at most `max_depth` calls.
pub reachable_within_decides :
    (g : CallGraph) (start : String) (max_depth : ℕ) (x : String)
    → contains g.resolved_nodes start ≡ true
    → (contains (reachable_within g start max_depth) x ≡ true) ↔ Called g start max_depth x
unfolding reachable_within
reachable_within_decides g start max_depth x known =
    (reachable_within-Called g start max_depth x, complete)
  where
    complete : Called g start max_depth x → contains (reachable_within g start max_depth) x ≡ true
    complete (apart, (k, low, high, w)) =
        let found : seen g start (levels g start max_depth [] (start ∷ [])) x ≡ true =
          levels-Chain g start k max_depth [] (start ∷ []) start x high
            (λ b c h absent called. absurd (ground (arith, h, absent)))
            (ground (arith, beq_refl start)) (Calls-Chain g.callees_by_caller w) in
        let other : (x == start) ≡ false = elim (Bool-cases (x == start)) [
          | inl same ↦ absurd (apart ((string_eq.beq_iff x start).0 same))
          | inr differ ↦ differ
        ] in
        rw known (ground (arith, found, other))
