-- ===== src/Config/Deep.antt =====
-- What `_deep_merge_dicts` of src/flawed/_config/merge.py returns, key by key and path by path.
use flawed.Base.{
  String, ◌≡◌, refl, sym, ap, ◌∙◌, subst, ◌⊎◌, inl, inr, Bool, true, false, Option, none, some,
  List, [], ◌∷◌, arith, if◌then◌else◌, Bool-cases, Option-cases, ◌==◌, nat_eq, string_eq, beq_sym,
  pair_eq,
}
use flawed.Config.Values.{
  Value, null, bool, number, text, list_of, tuple_of, dict, Fields, no_fields, field, get, put,
  as_dict, deep_merge_dicts, merge_value,
}

-- No dict has a key twice, at any depth: what every Python dict is.
unfoldable mutual
  pub IsTidy : Value → Type 0
  IsTidy null = Unit {0}
  IsTidy (bool b) = Unit {0}
  IsTidy (number n) = Unit {0}
  IsTidy (text s) = Unit {0}
  IsTidy (list_of xs) = Unit {0}
  IsTidy (tuple_of xs) = Unit {0}
  IsTidy (dict d) = AllTidy d

  pub AllTidy : Fields → Type 0
  AllTidy no_fields = Unit {0}
  AllTidy (field k v d) = (get k d ≡ none) × IsTidy v × AllTidy d

-- the value at the end of a path of keys
unfoldable pub get_path : List String → Value → Option Value
get_path [] v = some v
get_path (k ∷ ks) v = elim (as_dict (some v)) [
  | none ↦ none
  | some d ↦ elim (get k d) [ none ↦ none | some w ↦ get_path ks w ]
]

-- The path leaves `v` at a key that one of its dicts does not have.
unfoldable pub leaves : List String → Value → Bool
leaves [] v = false
leaves (k ∷ ks) v = elim (as_dict (some v)) [
  | none ↦ false
  | some d ↦ elim (get k d) [ none ↦ true | some w ↦ leaves ks w ]
]

pub get-put :
    (j k : String) (v : Value) (d : Fields)
    → get j (put k v d) ≡ (if j == k then some v else get j d)
unfolding get put
get-put j k v no_fields = refl
get-put j k v (field i w d) =
    ground
      (arith, string_eq.beq_iff j k, string_eq.beq_iff k i, string_eq.beq_iff j i, get-put j k v d)

-- The stored value of each key of a merged dict.
pub get-deep_merge_dicts :
    (j : String) (base raw : Fields)
    → AllTidy raw
    → get j (deep_merge_dicts base raw) ≡ elim (get j raw) as (λ _. Option Value) [
      | none ↦ get j base
      | some v ↦ some (merge_value (get j base) v)
    ]
unfolding deep_merge_dicts get AllTidy
get-deep_merge_dicts j base no_fields u = refl
get-deep_merge_dicts j base (field k v raw) u =
    let merged = merge_value (get k base) v in
    let later = get-deep_merge_dicts j (put k merged base) raw u.2 in
    elim (Bool-cases (j == k)) [
      | inl same ↦
          let eq : j ≡ k = (string_eq.beq_iff j k).0 same in
          later ∙ ground (arith, same, get-put j k merged base, u.0, eq)
      | inr differ ↦ later ∙ ground (arith, differ, get-put j k merged base)
    ]

pub get-IsTidy : (k : String) (d : Fields) (v : Value) → AllTidy d → get k d ≡ some v → IsTidy v
unfolding get AllTidy
get-IsTidy k no_fields v u e = cc
get-IsTidy k (field j w d) v u e = elim (Bool-cases (k == j)) [
  | inl same ↦ let eq : w ≡ v = ground (arith, e, same) in subst IsTidy eq u.1
  | inr differ ↦ get-IsTidy k d v u.2 (ground (arith, e, differ))
]

-- a value that is no dict replaces what was there
merge_value-leaf :
    (existing : Option Value) (leaf : Value)
    → as_dict (some leaf) ≡ none
    → merge_value existing leaf ≡ leaf
unfolding deep_merge_dicts
merge_value-leaf existing null h = refl
merge_value-leaf existing (bool b) h = refl
merge_value-leaf existing (number n) h = refl
merge_value-leaf existing (text s) h = refl
merge_value-leaf existing (list_of xs) h = refl
merge_value-leaf existing (tuple_of xs) h = refl
merge_value-leaf existing (dict d) h = cc

pub dict-cases : (v : Value) → (as_dict (some v) ≡ none) ⊎ ((d : Fields) × (v ≡ dict d))
dict-cases null = inl refl
dict-cases (bool b) = inl refl
dict-cases (number n) = inl refl
dict-cases (text s) = inl refl
dict-cases (list_of xs) = inl refl
dict-cases (tuple_of xs) = inl refl
dict-cases (dict d) = inr (d, refl)

pub get_path-dict :
    (k : String) (ks : List String) (d : Fields) (w : Value)
    → get k d ≡ some w
    → get_path (k ∷ ks) (dict d) ≡ get_path ks w
unfolding get_path
get_path-dict k ks d w found = rw (found, get_path) refl

merge_value-dict :
    (existing : Option Value) (d : Fields)
    → (merge_value existing (dict d) ≡ dict d)
      ⊎ ((e : Fields) × (existing ≡ some (dict e))
          × (merge_value existing (dict d) ≡ dict (deep_merge_dicts e d)))
unfolding deep_merge_dicts
merge_value-dict none d = inl refl
merge_value-dict (some (dict e)) d = inr (e, refl, refl)
merge_value-dict (some _) d = inl refl

pub merge_value-dicts :
    (b d : Fields) → merge_value (some (dict b)) (dict d) ≡ dict (deep_merge_dicts b d)
unfolding deep_merge_dicts
merge_value-dicts b d = refl

-- In the recursive merge of two values, that of the settings of one provider for example, the later wins at
-- any depth: a value of the later one that is no dict, a list included, stands in the result at its path,
-- whatever the earlier one has there or above it. No dict of the later value has a key twice.
pub raw_wins :
    (path : List String) (existing : Option Value) (raw leaf : Value)
    → IsTidy raw
    → as_dict (some leaf) ≡ none
    → get_path path raw ≡ some leaf
    → get_path path (merge_value existing raw) ≡ some leaf
unfolding get_path IsTidy
raw_wins [] existing raw leaf u h e =
    let same : raw ≡ leaf = cc in
    ap some (ap (merge_value existing) same ∙ merge_value-leaf existing leaf h)
raw_wins (k ∷ ks) existing (dict d) leaf u h e = elim (Option-cases (get k d)) [
  | inl missing ↦ absurd (ground (arith, missing, e))
  | inr (w, found) ↦
      let below : get_path ks w ≡ some leaf = sym (get_path-dict k ks d w found) ∙ e in
      elim (merge_value-dict existing d) [
        | inl kept ↦ ap (get_path (k ∷ ks)) kept ∙ e
        | inr (x, _, merged) ↦
            let stored : get k (deep_merge_dicts x d) ≡ some (merge_value (get k x) w) =
              get-deep_merge_dicts k x d u ∙ ground (arith, found) in
            ap (get_path (k ∷ ks)) merged
            ∙ get_path-dict k ks (deep_merge_dicts x d) (merge_value (get k x) w) stored
            ∙ raw_wins ks (get k x) w leaf (get-IsTidy k d w u found) h below
      ]
]
raw_wins (k ∷ ks) existing _ leaf u h e = cc

-- And the recursive merge changes nothing else: what the earlier value has at a path stays if the later
-- value has no such path, because one of its dicts on the way lacks the next key. No dict of the later value
-- has a key twice.
pub base_stays :
    (path : List String) (base raw : Value) (v : Value)
    → IsTidy raw
    → leaves path raw ≡ true
    → get_path path base ≡ some v
    → get_path path (merge_value (some base) raw) ≡ some v
unfolding get_path leaves IsTidy
base_stays [] base raw v u h e = cc
base_stays (k ∷ ks) (dict b) (dict d) v u h e =
    ap (get_path (k ∷ ks)) (merge_value-dicts b d) ∙ elim (Option-cases (get k d)) [
      | inl missing ↦
          let stored : get k (deep_merge_dicts b d) ≡ get k b =
            get-deep_merge_dicts k b d u ∙ ground (arith, missing) in
          rw (stored, get_path) e
      | inr (w, found) ↦ elim (Option-cases (get k b)) [
        | inl absent ↦ absurd (ground (arith, absent, e))
        | inr (x, present) ↦
            let stored : get k (deep_merge_dicts b d) ≡ some (merge_value (some x) w) =
              get-deep_merge_dicts k b d u ∙ ground (arith, found, present) in
            get_path-dict k ks (deep_merge_dicts b d) (merge_value (some x) w) stored
            ∙ base_stays ks x w v (get-IsTidy k d w u found) (ground (arith, found, h))
                (sym (get_path-dict k ks b x present) ∙ e)
      ]
    ]
base_stays (k ∷ ks) (dict b) _ v u h e = cc
base_stays (k ∷ ks) _ raw v u h e = cc

put-AllTidy : (k : String) (v : Value) (d : Fields) → IsTidy v → AllTidy d → AllTidy (put k v d)
unfolding put IsTidy get
put-AllTidy k v no_fields hv u = (refl, hv, tt)
put-AllTidy k v (field j w d) hv u = elim (Bool-cases (k == j)) [
  | inl same ↦ rw same (u.0, hv, u.2)
  | inr differ ↦
      let absent : get j (put k v d) ≡ none =
        get-put j k v d ∙ ground (arith, beq_sym j k, differ, u.0) in
      rw differ (absent, u.1, put-AllTidy k v d hv u.2)
]

mutual
  unfolding deep_merge_dicts IsTidy

  -- The merge of two dicts has no key twice either, at any depth.
  pub deep_merge_dicts-AllTidy :
      (base raw : Fields) → AllTidy base → AllTidy raw → AllTidy (deep_merge_dicts base raw)
  deep_merge_dicts-AllTidy base no_fields b u = b
  deep_merge_dicts-AllTidy base (field k v raw) b u =
      deep_merge_dicts-AllTidy (put k (merge_value (get k base) v) base) raw
        (put-AllTidy k _ base
          (merge_value-IsTidy (get k base) v (λ w e. get-IsTidy k base w b e) u.1) b)
        u.2

  merge_value-IsTidy :
      (existing : Option Value) (v : Value)
      → ((w : Value) → existing ≡ some w → IsTidy w)
      → IsTidy v
      → IsTidy (merge_value existing v)
  merge_value-IsTidy existing null h u = tt
  merge_value-IsTidy existing (bool b) h u = tt
  merge_value-IsTidy existing (number n) h u = tt
  merge_value-IsTidy existing (text s) h u = tt
  merge_value-IsTidy existing (list_of xs) h u = tt
  merge_value-IsTidy existing (tuple_of xs) h u = tt
  merge_value-IsTidy existing (dict d) h u = elim (merge_value-dict existing d) [
    | inl kept ↦ subst IsTidy (sym kept) u
    | inr (e, was, merged) ↦
        subst IsTidy (sym merged) (deep_merge_dicts-AllTidy e d (h (dict e) was) u)
  ]
