-- ===== src/Reach/Bfs.antt =====
-- The breadth-first loop that the queries of src/flawed/_index/_graphs.py share: a queue, and a
-- set `seen` that a node enters when it is queued.
use flawed.Base.{
  ℕ, ◌+◌, ◌-◌, ◌≤◌, ◌≡◌, refl, inl, inr, true, not, ◌&&◌, ◌||◌, Option, none, some, List, [], ◌∷◌,
  ◌++◌, arith, if◌then◌else◌, Bool-cases, count_in, count_in-le, count_in-lt, length, length-append,
  Eq, ◌==◌, nat_eq, string_eq, contains, beq_refl, beq_sym, contains-append,
}

pub record Frontier (A : Type 0) : Type 0 where
  pub seen : List A
  pub queue : List A

module _ {A : Type 0} ⦃e : Eq A⦄ where
  -- the body of the loop over successors: a node that was seen is passed over
  abbrev pub offer : Frontier A → A → Frontier A
  offer f s =
      if contains f.seen s then f else record { seen = f.seen ++ s ∷ []; queue = f.queue ++ s ∷ [] }

  pub visit : Frontier A → List A → Frontier A
  visit f [] = f
  visit f (s ∷ ss) = visit (offer f s) ss

  -- the same loop with `if successor == target: return True`, which is `none`
  pub visit_until : A → Frontier A → List A → Option (Frontier A)
  visit_until target f [] = some f
  visit_until target f (s ∷ ss) = if s == target then none else visit_until target (offer f s) ss

module _ {A : Type 0} ⦃e : Eq A⦄ where
  offer-seen :
      (f : Frontier A) (s v : A) → contains (offer f s).seen v ≡ (contains f.seen v || v == s)
  offer-seen f s v = elim (Bool-cases (v == s)) [
    | inl same ↦
        let eq : v ≡ s = (e.beq_iff v s).0 same in
        ground (arith, contains-append f.seen (s ∷ []) v, beq_refl s)
    | inr other ↦ ground (arith, contains-append f.seen (s ∷ []) v)
  ]

  offer-queue :
      (f : Frontier A) (s v : A)
      → contains (offer f s).queue v ≡ (contains f.queue v || v == s && not (contains f.seen v))
  offer-queue f s v = elim (Bool-cases (v == s)) [
    | inl same ↦
        let eq : v ≡ s = (e.beq_iff v s).0 same in
        ground (arith, contains-append f.queue (s ∷ []) v, beq_refl s)
    | inr other ↦ ground (arith, contains-append f.queue (s ∷ []) v)
  ]

  pub visit-seen :
      (f : Frontier A) (ss : List A) (v : A)
      → contains (visit f ss).seen v ≡ (contains f.seen v || contains ss v)
  unfolding visit
  visit-seen f [] v = ground arith
  visit-seen f (s ∷ ss) v = rw (visit-seen (offer f s) ss v) (rw (offer-seen f s v) (ground arith))

  pub visit-queue :
      (f : Frontier A) (ss : List A) (v : A)
      → contains (visit f ss).queue v
        ≡ (contains f.queue v || contains ss v && not (contains f.seen v))
  unfolding visit
  visit-queue f [] v = ground arith
  visit-queue f (s ∷ ss) v =
      rw (visit-queue (offer f s) ss v)
        (rw (offer-seen f s v) (rw (offer-queue f s v) (ground arith)))

  pub visit_until_lem :
      (target : A) (f : Frontier A) (ss : List A)
      → visit_until target f ss ≡ (if contains ss target then none else some (visit f ss))
  unfolding visit visit_until
  visit_until_lem target f [] = refl
  visit_until_lem target f (s ∷ ss) =
      ground (arith, beq_sym s target, visit_until_lem target (offer f s) ss)

  -- The rounds left: the nodes not yet seen, and the queue.
  abbrev pub work : List A → Frontier A → ℕ
  work nodes f = length nodes - count_in nodes f.seen + length f.queue

  offer-work :
      (nodes : List A) (f : Frontier A) (s : A)
      → contains nodes s ≡ true
      → work nodes (offer f s) ≤ work nodes f
  offer-work nodes f s h = elim (Bool-cases (contains f.seen s)) [
    | inl old ↦ rw old (omega arith)
    | inr new ↦
        let more =
          count_in-lt nodes f.seen (f.seen ++ s ∷ []) s
            (λ b m. ground (arith, contains-append f.seen (s ∷ []) b)) h new
            (ground (arith, contains-append f.seen (s ∷ []) s, beq_refl s)) in
        rw new (
          omega (arith, more, count_in-le nodes (f.seen ++ s ∷ []), length-append f.queue (s ∷ [])))
  ]

  pub visit-work :
      (nodes : List A) (f : Frontier A) (ss : List A)
      → ((v : A) → contains ss v ≡ true → contains nodes v ≡ true)
      → work nodes (visit f ss) ≤ work nodes f
  unfolding visit
  visit-work nodes f [] h = omega arith
  visit-work nodes f (s ∷ ss) h = omega (
    arith,
    visit-work nodes (offer f s) ss (λ v m. h v (ground arith)),
    offer-work nodes f s (h s (ground (arith, beq_refl s))),
  )
