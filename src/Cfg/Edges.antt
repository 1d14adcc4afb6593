-- ===== src/Cfg/Edges.antt =====
-- `_build_cfg_adjacency` of src/flawed/_index/_graphs.py: which pairs the two dicts hold.
use flawed.Base.{
  ℕ, ◌≡◌, sym, ◌∙◌, inl, inr, Bool, true, false, ◌&&◌, ◌||◌, List, [], ◌∷◌, arith, nat_beq_iff,
  Bool-cases, contains-add, contains-to_set, ◌==◌, nat_eq, string_eq, contains,
}
use flawed.Types.{CfgBlock, CfgEdge}
use flawed.Reach.Closure.{IsClosed}
use flawed.Cfg.{Adjacency, add_adjacency, adjacency_loop, block_ids, build_cfg_adjacency, key_ids}

-- An edge of the list leads from `u` to `v`.
abbrev pub has_edge : List CfgEdge → ℕ → ℕ → Bool
has_edge [] u v = false
has_edge (x ∷ xs) u v = u == x.source_id && v == x.target_id || has_edge xs u v

abbrev joins : List ℕ → CfgEdge → ℕ → ℕ → Bool
joins ids x u v = (contains ids u && contains ids v) && (u == x.source_id && v == x.target_id)

module _ (ids : List ℕ) (a : Adjacency) (x : CfgEdge) (u v : ℕ) where
  add_adjacency-succs :
      contains ((add_adjacency ids a x).succs u) v ≡ (contains (a.succs u) v || joins ids x u v)
  unfolding add_adjacency
  add_adjacency-succs = elim (Bool-cases (u == x.source_id)) [
    | inr other ↦ ground arith
    | inl same ↦
        let eu : u ≡ x.source_id = ground arith in
        ground (arith, contains-add (a.succs x.source_id) x.target_id v, nat_beq_iff v x.target_id)
  ]

  add_adjacency-preds :
      contains ((add_adjacency ids a x).preds v) u ≡ (contains (a.preds v) u || joins ids x u v)
  unfolding add_adjacency
  add_adjacency-preds = elim (Bool-cases (v == x.target_id)) [
    | inr other ↦ ground arith
    | inl same ↦
        let ev : v ≡ x.target_id = ground arith in
        ground (arith, contains-add (a.preds x.target_id) x.source_id u, nat_beq_iff u x.source_id)
  ]

adjacency_loop-succs :
    (ids : List ℕ) (a : Adjacency) (xs : List CfgEdge) (u v : ℕ)
    → contains ((adjacency_loop ids a xs).succs u) v
      ≡ (contains (a.succs u) v || (contains ids u && contains ids v) && has_edge xs u v)
unfolding adjacency_loop
adjacency_loop-succs ids a [] u v = ground arith
adjacency_loop-succs ids a (x ∷ xs) u v =
    rw (adjacency_loop-succs ids (add_adjacency ids a x) xs u v)
      (rw (add_adjacency-succs ids a x u v) (ground arith))

adjacency_loop-preds :
    (ids : List ℕ) (a : Adjacency) (xs : List CfgEdge) (u v : ℕ)
    → contains ((adjacency_loop ids a xs).preds v) u
      ≡ (contains (a.preds v) u || (contains ids u && contains ids v) && has_edge xs u v)
unfolding adjacency_loop
adjacency_loop-preds ids a [] u v = ground arith
adjacency_loop-preds ids a (x ∷ xs) u v =
    rw (adjacency_loop-preds ids (add_adjacency ids a x) xs u v)
      (rw (add_adjacency-preds ids a x u v) (ground arith))

-- The successors of `u` are the targets of its edges, between known blocks.
pub build_cfg_adjacency-succs :
    (blocks : List CfgBlock) (edges : List CfgEdge) (u v : ℕ)
    → contains ((build_cfg_adjacency blocks edges).succs u) v
      ≡ ((contains (block_ids blocks) u && contains (block_ids blocks) v) && has_edge edges u v)
unfolding build_cfg_adjacency
build_cfg_adjacency-succs blocks edges u v = adjacency_loop-succs (block_ids blocks) _ edges u v

-- The two dicts are converse to one another.
pub build_cfg_adjacency-converse :
    (blocks : List CfgBlock) (edges : List CfgEdge) (u v : ℕ)
    → contains ((build_cfg_adjacency blocks edges).preds v) u
      ≡ contains ((build_cfg_adjacency blocks edges).succs u) v
unfolding build_cfg_adjacency
build_cfg_adjacency-converse blocks edges u v =
    adjacency_loop-preds (block_ids blocks) _ edges u v
    ∙ sym (adjacency_loop-succs (block_ids blocks) _ edges u v)

-- The block ids bound every search from a block.
pub build_cfg_adjacency-IsClosed :
    (blocks : List CfgBlock) (edges : List CfgEdge) (start : ℕ)
    → contains (block_ids blocks) start ≡ true
    → IsClosed (build_cfg_adjacency blocks edges).succs (key_ids blocks) start
build_cfg_adjacency-IsClosed blocks edges start h = record {
  has_start = contains-to_set (block_ids blocks) start ∙ h;
  has_next = λ u v m s.
      contains-to_set (block_ids blocks) v
      ∙ (let read = build_cfg_adjacency-succs blocks edges u v in ground arith);
}
