-- ===== src/View/Reached.antt =====
-- What the search for one direction of a branch returns: src/flawed/_semantic/_cfgview.py,
-- `_reachable_block_ids` and branch_path_block_ids.
use flawed.Base.{
  ℕ, zero, suc, ◌≡◌, refl, sym, ◌∙◌, subst, ◌↔◌, inl, inr, true, false, ◌||◌, some, List, [], ◌∷◌,
  arith, nat_beq_iff, Bool-cases, add, contains-add, ◌==◌, nat_eq, string_eq, contains, beq_refl,
  pair_eq,
}
use flawed.Cfg.{ControlFlowGraph}
use flawed.View.Arms.{reversed, successor_ids, search, reachable_ids}
use flawed.View.Search.{reachable_ids-total}

-- an id that a walk reaches from the starts without a blocked id
pub data Reached (succ : ℕ → List ℕ) (starts blocked : List ℕ) : ℕ → Type 0 where
  start :
      {x : ℕ}
      → contains starts x ≡ true
      → contains blocked x ≡ false
      → Reached succ starts blocked x
  next :
      {b x : ℕ}
      → Reached succ starts blocked b
      → contains (succ b) x ≡ true
      → contains blocked x ≡ false
      → Reached succ starts blocked x

contains-reversed :
    (xs ys : List ℕ) (x : ℕ) → contains (reversed xs ys) x ≡ (contains xs x || contains ys x)
contains-reversed [] ys x = refl
contains-reversed (a ∷ xs) ys x = ground (arith, contains-reversed xs (a ∷ ys) x)

module _ (succ : ℕ → List ℕ) (starts blocked : List ℕ) where
  -- every pending id is reached, unless it is blocked
  abbrev AllPending : List ℕ → Type 0
  AllPending pending =
      (x : ℕ)
      → contains pending x ≡ true
      → contains blocked x ≡ false
      → Reached succ starts blocked x

  abbrev AllSeen : List ℕ → Type 0
  AllSeen seen = (x : ℕ) → contains seen x ≡ true → Reached succ starts blocked x

  search-AllSeen :
      (fuel : ℕ) (seen pending r : List ℕ)
      → AllSeen seen
      → AllPending pending
      → search succ blocked fuel seen pending ≡ some r
      → AllSeen r
  unfolding search
  search-AllSeen fuel seen [] r hs hp e = let same : seen ≡ r = cc in subst AllSeen same hs
  search-AllSeen zero seen (id ∷ pending) r hs hp e = cc
  search-AllSeen (suc fuel) seen (id ∷ pending) r hs hp e =
      elim (Bool-cases (contains seen id || contains blocked id)) [
        | inl skip ↦
            search-AllSeen fuel seen pending r hs (λ x m. hp x (ground (arith, m)))
              (sym (rw (skip, search) refl) ∙ e)
        | inr new ↦
            let here : Reached succ starts blocked id =
              hp id (ground (arith, beq_refl id)) (ground (arith, new)) in
            search-AllSeen fuel (add seen id) (reversed (succ id) pending) r
              (λ x m. elim (Bool-cases (x == id)) [
                | inl same ↦
                    let eq : x ≡ id = (nat_beq_iff x id).0 same in
                    subst (Reached succ starts blocked) (sym eq) here
                | inr differ ↦ hs x (ground (arith, m, differ, contains-add seen id x))
              ])
              (λ x m free. elim (Bool-cases (contains (succ id) x)) [
                | inl called ↦ next here called free
                | inr other ↦
                    hp x (ground (arith, m, other, contains-reversed (succ id) pending x)) free
              ])
              (sym (rw (new, search) refl) ∙ e)
      ]

  -- the successors of what is seen are seen, pending or blocked
  abbrev AllNoted : List ℕ → List ℕ → Type 0
  AllNoted seen pending =
      (b c : ℕ)
      → contains seen b ≡ true
      → contains (succ b) c ≡ true
      → contains blocked c ≡ false
      → (contains seen c || contains pending c) ≡ true

  -- an id that is passed over was noted elsewhere
  still_noted :
      (seen pending : List ℕ) (id x : ℕ)
      → (contains seen id || contains blocked id) ≡ true
      → (contains seen x || contains (id ∷ pending) x) ≡ true
      → contains blocked x ≡ false
      → (contains seen x || contains pending x) ≡ true
  still_noted seen pending id x skip m free = elim (Bool-cases (x == id)) [
    | inl same ↦
        let eq : x ≡ id = (nat_beq_iff x id).0 same in
        let known : (contains seen x || contains blocked x) ≡ true =
          subst (λ n. (contains seen n || contains blocked n) ≡ true) (sym eq) skip in
        ground (arith, known, free)
    | inr differ ↦ ground (arith, m, differ)
  ]

  -- an id that is visited moves from the pending ids to the seen ones
  moved :
      (seen pending : List ℕ) (id x : ℕ)
      → (contains seen x || contains (id ∷ pending) x) ≡ true
      → (contains (add seen id) x || contains (reversed (succ id) pending) x) ≡ true
  moved seen pending id x m =
      ground (arith, m, contains-add seen id x, contains-reversed (succ id) pending x)

  moved-AllNoted :
      (seen pending : List ℕ) (id : ℕ)
      → AllNoted seen (id ∷ pending)
      → AllNoted (add seen id) (reversed (succ id) pending)
  moved-AllNoted seen pending id h b c m n free = elim (Bool-cases (b == id)) [
    | inl same ↦
        let eq : b ≡ id = (nat_beq_iff b id).0 same in
        let called : contains (succ id) c ≡ true = subst (λ k. contains (succ k) c ≡ true) eq n in
        ground (arith, called, contains-reversed (succ id) pending c)
    | inr differ ↦
        moved seen pending id c (h b c (ground (arith, m, differ, contains-add seen id b)) n free)
  ]

  search-AllNoted :
      (fuel : ℕ) (seen pending r : List ℕ)
      → AllNoted seen pending
      → search succ blocked fuel seen pending ≡ some r
      → AllNoted r []
        × ((x : ℕ)
            → (contains seen x || contains pending x) ≡ true
            → contains blocked x ≡ false
            → contains r x ≡ true)
  unfolding search
  search-AllNoted fuel seen [] r h e =
      let same : seen ≡ r = cc in
      (
        subst (λ s. AllNoted s []) same h,
        λ x m free. subst (λ s. contains s x ≡ true) same (ground (arith, m)),
      )
  search-AllNoted zero seen (id ∷ pending) r h e = cc
  search-AllNoted (suc fuel) seen (id ∷ pending) r h e =
      elim (Bool-cases (contains seen id || contains blocked id)) [
        | inl skip ↦
            let (closed, all) =
              search-AllNoted fuel seen pending r
                (λ b c m n free. still_noted seen pending id c skip (h b c m n free) free)
                (sym (rw (skip, search) refl) ∙ e) in
            (closed, λ x m free. all x (still_noted seen pending id x skip m free) free)
        | inr new ↦
            let (closed, all) =
              search-AllNoted fuel (add seen id) (reversed (succ id) pending) r
                (moved-AllNoted seen pending id h) (sym (rw (new, search) refl) ∙ e) in
            (closed, λ x m free. all x (moved seen pending id x m) free)
      ]

  Reached-mem :
      (r : List ℕ)
      → AllNoted r []
      → ((x : ℕ) → contains starts x ≡ true → contains blocked x ≡ false → contains r x ≡ true)
      → {x : ℕ} → Reached succ starts blocked x
      → contains r x ≡ true
  Reached-mem r closed all (start {x} m free) = all x m free
  Reached-mem r closed all (next {b} {x} w m free) =
      ground (arith, closed b x (Reached-mem r closed all w) m free)

-- The search of `_reachable_block_ids` ends, and returns exactly the ids that a walk along successors
-- reaches from its starts without a blocked id.
pub reachable_ids_decides :
    (g : ControlFlowGraph) (starts blocked : List ℕ)
    → (r : List ℕ) × (reachable_ids g starts blocked ≡ some r)
      × ((x : ℕ) → (contains r x ≡ true) ↔ Reached (successor_ids g) starts blocked x)
unfolding reachable_ids
reachable_ids_decides g starts blocked =
    let (r, e) = reachable_ids-total g starts blocked in
    let (closed, all) =
      search-AllNoted (successor_ids g) starts blocked _ [] (reversed starts []) r
        (λ b c m. absurd (ground (arith, m))) e in
    let sound =
      search-AllSeen (successor_ids g) starts blocked _ [] (reversed starts []) r
        (λ x m. absurd (ground (arith, m)))
        (λ x m free. start (ground (arith, m, contains-reversed starts [] x)) free) e in
    (
      r,
      e,
      λ x. (
        sound x,
        Reached-mem (successor_ids g) starts blocked r closed
            (λ y m free. all y (ground (arith, m, contains-reversed starts [] y)) free),
      ),
    )
