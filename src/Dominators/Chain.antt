-- ===== src/Dominators/Chain.antt =====
-- The chain of immediate dominators: each link goes to the closest strict dominator, and climbing it
-- visits exactly the strict dominators.
use flawed.Base.{
  ℕ, zero, suc, ◌≤◌, ◌<◌, ◌≡◌, refl, ◌∙◌, subst, ◌⊎◌, inl, inr, Bool, true, false, not, some, List,
  [], ◌∷◌, arith, ltb, if◌then◌else◌, Bool-cases, diff, length-lt_of_subset, length, ◌==◌, nat_eq,
  string_eq, contains, beq_refl, beq_sym, contains-keep,
}
use flawed.Reach.{Walk, here}
use flawed.Dominators.{
  Doms, Idom, max_by_size, pick, collapse_one, collapse_loop, collapse_immediate_dominators, climb,
}
use flawed.Dominators.Walks.{
  on, Dominates, prefix, on_end, on_entry, Dominates-trans, Dominates-antisym, avoid_one,
}
use flawed.Dominators.Fixpoint.{IsFlow}
use flawed.Dominators.Exact.{IsExact}

-- `max` returns an element, and none is larger.
max_by_size_lem :
    (d : Doms) (best : ℕ) (xs : List ℕ)
    → ((max_by_size d best xs ≡ best) ⊎ (contains xs (max_by_size d best xs) ≡ true))
      × (length (d best) ≤ length (d (max_by_size d best xs)))
      × ((x : ℕ) → contains xs x ≡ true → length (d x) ≤ length (d (max_by_size d best xs)))
max_by_size_lem d best [] = (inl refl, omega arith, λ x m. cc)
max_by_size_lem d best (x ∷ xs) = elim (Bool-cases (ltb (length (d best)) (length (d x)))) [
  | inl larger ↦
      let (from, first, rest) = max_by_size_lem d x xs in
      rw larger (
        inr (elim from [ inl e ↦ ground arith | inr m ↦ ground arith ]),
        ground arith,
        λ y m. elim (Bool-cases (y == x)) [
          | inl same ↦ let eq : y ≡ x = ground arith in rw eq first
          | inr other ↦ rest y (ground arith)
        ],
      )
  | inr Smaller ↦
      let (from, first, rest) = max_by_size_lem d best xs in
      rw Smaller (
        elim from [ inl e ↦ inl e | inr m ↦ inr (ground arith) ],
        first,
        λ y m. elim (Bool-cases (y == x)) [
          | inl same ↦ let eq : y ≡ x = ground arith in rw eq (ground arith)
          | inr other ↦ rest y (ground arith)
        ],
      )
]

pick_lem :
    (d : Doms) (xs : List ℕ) (a : ℕ)
    → contains xs a ≡ true
    → (m : ℕ) × (pick d xs ≡ some m)
      × (contains xs m ≡ true)
      × ((x : ℕ) → contains xs x ≡ true → length (d x) ≤ length (d m))
unfolding pick
pick_lem d [] a h = cc
pick_lem d (x ∷ xs) a h =
    let (from, first, rest) = max_by_size_lem d x xs in
    (
      max_by_size d x xs,
      refl,
      elim from [ inl e ↦ ground arith | inr m ↦ ground arith ],
      λ y m. elim (Bool-cases (y == x)) [
        | inl same ↦ let eq : y ≡ x = ground arith in rw eq first
        | inr other ↦ rest y (ground arith)
      ],
    )

collapse_one_self :
    (entry : ℕ) (reachable : List ℕ) (d : Doms) (idom : Idom) (j m : ℕ)
    → contains reachable j ≡ true
    → (j == entry) ≡ false
    → pick d (diff (d j) (j ∷ [])) ≡ some m
    → collapse_one entry reachable d idom j j ≡ some m
collapse_one_self entry reachable d idom j m r ne p = rw (ne, r, p, beq_refl j)

collapse_one-other :
    (entry : ℕ) (reachable : List ℕ) (d : Doms) (idom : Idom) (b j : ℕ)
    → (j == b) ≡ false
    → collapse_one entry reachable d idom b j ≡ idom j
collapse_one-other entry reachable d idom b j other = ground arith

collapse_loop_lem :
    (entry : ℕ) (reachable : List ℕ) (d : Doms) (idom : Idom) (ids : List ℕ) (j m : ℕ)
    → contains reachable j ≡ true
    → (j == entry) ≡ false
    → pick d (diff (d j) (j ∷ [])) ≡ some m
    → collapse_loop entry reachable d idom ids j ≡ (if contains ids j then some m else idom j)
unfolding collapse_loop
collapse_loop_lem entry reachable d idom [] j m r ne p = refl
collapse_loop_lem entry reachable d idom (b ∷ ids) j m r ne p =
    rw (collapse_loop_lem entry reachable d (collapse_one entry reachable d idom b) ids j m r ne p)
      (elim (Bool-cases (j == b)) [
        | inl same ↦
            let own = collapse_one_self entry reachable d idom j m r ne p in
            let eq : j ≡ b = ground arith in
            let own' : collapse_one entry reachable d idom b j ≡ some m =
              subst (λ c. collapse_one entry reachable d idom c j ≡ some m) eq own in
            rw own' (ground arith)
        | inr other ↦ rw (collapse_one-other entry reachable d idom b j other) (rw other)
      ])

-- One round of the climb, by what it finds.
module _ (idom : Idom) (fuel a b m : ℕ) (at : idom b ≡ some m) where
  climb-found : (m == a) ≡ true → climb idom (suc fuel) a b ≡ some true
  unfolding climb
  climb-found h = rw (at, climb) (rw h)

  climb-root : (m == a) ≡ false → (m == b) ≡ true → climb idom (suc fuel) a b ≡ some false
  unfolding climb
  climb-root h k = rw (at, climb) (rw (h, k))

  climb-up : (m == a) ≡ false → (m == b) ≡ false → climb idom (suc fuel) a b ≡ climb idom fuel a m
  unfolding climb
  climb-up h k = rw (at, climb) (rw (h, k))

collapse_loop-entry :
    (entry : ℕ) (reachable : List ℕ) (d : Doms) (idom : Idom) (ids : List ℕ)
    → collapse_loop entry reachable d idom ids entry ≡ idom entry
unfolding collapse_loop
collapse_loop-entry entry reachable d idom [] = refl
collapse_loop-entry entry reachable d idom (b ∷ ids) =
    rw (collapse_loop-entry entry reachable d (collapse_one entry reachable d idom b) ids)
      (ground arith)

module _ (succ preds : ℕ → List ℕ) (entry : ℕ) (reachable ids : List ℕ)
    (flow : IsFlow succ preds entry reachable) where
  module _ (d : Doms) (exact : IsExact succ preds entry reachable ids flow d) where
    -- a strict dominator has a Smaller set
    length-lt_of_Dominates :
        (p c : ℕ)
        → contains reachable c ≡ true
        → (p == c) ≡ false
        → Dominates succ entry p c
        → length (d p) < length (d c)
    length-lt_of_Dominates p c rc ne pc =
        let w = flow.reach_walk c rc in
        length-lt_of_subset (d p) (d c) c (exact.unique p)
          (λ y m. exact.full y c rc (Dominates-trans succ entry y p c (exact.sound y p m) pc))
          (elim (Bool-cases (contains (d p) c)) [
            | inl there ↦ absurd (Dominates-antisym succ entry p c w ne pc (exact.sound c p there))
            | inr gone ↦ gone
          ])
          (exact.full c c rc (on_end succ entry))

    -- A block's link: the strict dominator with the largest set.
    record IsLink (b m : ℕ) : Type 0 where
      dominates : Dominates succ entry m b
      strict : (m == b) ≡ false
      largest : (x : ℕ) → Dominates succ entry x b → (x == b) ≡ false → length (d x) ≤ length (d m)

    link :
        (b : ℕ)
        → contains reachable b ≡ true
        → (b == entry) ≡ false
        → (m : ℕ) × (pick d (diff (d b) (b ∷ [])) ≡ some m) × IsLink b m
    unfolding pick
    link b rb ne =
        let strict_set = diff (d b) (b ∷ []) in
        let read = λ (x : ℕ). contains-keep (λ y. not (contains (b ∷ []) y)) (d b) x in
        let w = flow.reach_walk b rb in
        let entry_in = exact.full entry b rb (λ w'. on_entry succ entry w') in
        let (m, picked, m_in, max) = pick_lem d strict_set entry (ground (arith, read entry)) in
        (
          m,
          picked,
          record {
            dominates = exact.sound m b (ground (arith, read m));
            strict = ground (arith, read m);
            largest = λ x dom nx. max x (ground (arith, read x, exact.full x b rb dom));
          },
        )

    -- Of two dominators of a block one cannot be passed by on the way to the other, both ways.
    crossing :
        (b m x : ℕ)
        → Walk succ entry b
        → Dominates succ entry x b
        → Dominates succ entry m b
        → (wx : Walk succ entry x) (wm : Walk succ entry m) → on succ entry x wm ≡ false
        → on succ entry m wx ≡ true
    crossing b m x w xb mb wx wm around = elim (Bool-cases (on succ entry m wx)) [
      | inl through ↦ through
      | inr past ↦
          let (w', which) = avoid_one succ entry x m wx wm past around w in
          elim which [ inl no_x ↦ cc (xb w') | inr no_m ↦ cc (mb w') ]
    ]

    -- Every other strict dominator of a block dominates its link.
    closest :
        (b m x : ℕ)
        → contains reachable b ≡ true
        → IsLink b m
        → Dominates succ entry x b
        → (x == b) ≡ false
        → (x == m) ≡ false
        → Dominates succ entry x m
    closest b m x rb k xb nb nm = elim (Bool-cases (contains (d m) x)) [
      | inl there ↦ exact.sound x m there
      | inr gone ↦
          let w = flow.reach_walk b rb in
          let (wm, _, _, _) = prefix succ entry m w (k.dominates w) in
          let (wx, _, _, _) = prefix succ entry x w (xb w) in
          let rm = flow.walk_reach wm in
          let rx = flow.walk_reach wx in
          elim (Bool-cases (contains (d x) m)) [
            | inl under ↦
                let bigger =
                  length-lt_of_Dominates m x rx (ground (arith, beq_sym x m))
                    (exact.sound m x under) in
                absurd (omega (arith, k.largest x xb nb, bigger))
            | inr apart ↦ λ wi. elim (Bool-cases (on succ entry x wi)) [
              | inl through ↦ through
              | inr around ↦
                  cc (exact.full m x rx (λ wx'. crossing b m x w xb k.dominates wx' wi around))
            ]
          ]
    ]

    -- The links that `_collapse_immediate_dominators` records.
    abbrev pub links : Idom
    links = collapse_immediate_dominators entry reachable d ids

    links-entry : links entry ≡ some entry
    unfolding collapse_immediate_dominators
    links-entry = rw (collapse_loop-entry entry reachable d _ ids) (rw (beq_refl entry))

    links_at :
        (b : ℕ)
        → contains reachable b ≡ true
        → contains ids b ≡ true
        → (b == entry) ≡ false
        → (m : ℕ) × (links b ≡ some m) × IsLink b m
    unfolding collapse_immediate_dominators
    links_at b rb ib ne =
        let (m, picked, k) = link b rb ne in
        (m, rw (collapse_loop_lem entry reachable d _ ids b m rb ne picked) (rw ib), k)

    -- With more fuel than dominators, climbing decides strict dominance.
    pub climb_decides :
        ((c : ℕ) → contains reachable c ≡ true → contains ids c ≡ true)
        → (fuel a b : ℕ) → contains reachable b ≡ true
        → (a == b) ≡ false
        → length (d b) < fuel
        → (r : Bool) × (climb links fuel a b ≡ some r)
          × (r ≡ true → Dominates succ entry a b)
          × (Dominates succ entry a b → r ≡ true)
    unfolding climb
    climb_decides cover zero a b rb ne lt = absurd (omega arith)
    climb_decides cover (suc fuel) a b rb ne lt = elim (Bool-cases (b == entry)) [
      | inl start ↦
          let eq : b ≡ entry = ground arith in
          (
            false,
            climb-root links fuel a b entry (rw eq links-entry) (ground arith) (ground arith),
            λ h. cc,
            λ dom. (let at_start = subst (Dominates succ entry a) eq dom here in ground arith),
          )
      | inr inner ↦
          let (m, at, k) = links_at b rb (cover b rb) inner in
          elim (Bool-cases (m == a)) [
            | inl found ↦
                let eq : m ≡ a = ground arith in
                (
                  true,
                  climb-found links fuel a b m at found,
                  λ _. subst (λ j. Dominates succ entry j b) eq k.dominates,
                  λ _. refl,
                )
            | inr on_up ↦
                let w = flow.reach_walk b rb in
                let (wm, _, _, _) = prefix succ entry m w (k.dominates w) in
                let rm = flow.walk_reach wm in
                let (r, runs, sound, full) =
                  climb_decides cover fuel a m rm (ground (arith, beq_sym a m))
                    (omega (arith, length-lt_of_Dominates m b rb k.strict k.dominates)) in
                (
                  r,
                  climb-up links fuel a b m at on_up k.strict ∙ runs,
                  λ h. Dominates-trans succ entry a m b (sound h) k.dominates,
                  λ dom. full (closest b m a rb k dom ne (ground (arith, beq_sym a m))),
                )
          ]
    ]
