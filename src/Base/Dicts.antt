-- ===== src/Base/Dicts.antt =====
-- Python's dicts of sets and dicts of lists as functions from keys; a missing key has the empty one.
use mathlib.Core.Path.{◌≡◌, refl, ap, ap₂, sym, ◌∙◌}
use mathlib.Core.Bool.{true, ◌&&◌, ◌||◌}
use mathlib.Core.List.{List, [], ◌∷◌, ◌++◌}
use mathlib.Core.Logic.{◌↔◌, inl, inr}
use native.Mathlib.Omega.{arith}
use flawed.Base.Tests.{if◌then◌else◌, Bool-cases}
use flawed.Base.Keys.{Eq, ◌==◌, contains, beq_sym}
use flawed.Base.Sets.{add, contains-add}
use flawed.Base.Lists.{keep}

-- `d.setdefault(k, []).append(v)`
abbrev pub append_at : {K V : Type 0} ⦃e : Eq K⦄ → (K → List V) → K → V → K → List V
append_at d k v j = if j == k then d k ++ v ∷ [] else d j

-- `d.setdefault(k, set()).add(v)`
abbrev pub add_at : {K V : Type 0} ⦃e : Eq K⦄ ⦃f : Eq V⦄ → (K → List V) → K → V → K → List V
add_at d k v j = if j == k then add (d k) v else d j

pub contains-add_at :
    {K V : Type 0} ⦃e : Eq K⦄ ⦃f : Eq V⦄ (d : K → List V) (k : K) (v : V) (j : K) (w : V)
    → contains (add_at d k v j) w ≡ (contains (d j) w || (j == k && w == v))
contains-add_at ⦃e⦄ d k v j w = elim (Bool-cases (j == k)) [
  | inl same ↦ let eq : j ≡ k = (e.beq_iff j k).0 same in ground (arith, contains-add (d k) v w)
  | inr other ↦ ground (arith, other)
]

pub append_nil : {V : Type 0} (xs : List V) → xs ≡ xs ++ []
append_nil [] = refl
append_nil (x ∷ xs) = ap (λ ys. x ∷ ys) (append_nil xs)

pub append_at_lem :
    {K V : Type 0} ⦃e : Eq K⦄ (d : K → List V) (k : K) (v : V) (j : K)
    → append_at d k v j ≡ d j ++ (if k == j then v ∷ [] else [])
append_at_lem ⦃e⦄ d k v j = elim (Bool-cases (j == k)) [
  | inl same ↦
      let eq : j ≡ k = (e.beq_iff j k).0 same in
      rw (same, sym (beq_sym j k) ∙ same) (ap (λ i. d i ++ v ∷ []) (sym eq))
  | inr other ↦ rw (other, sym (beq_sym j k) ∙ other) (append_nil (d j))
]

pub append_assoc {ℓ} : {V : Type ℓ} (xs ys zs : List V) → (xs ++ ys) ++ zs ≡ xs ++ (ys ++ zs)
append_assoc [] ys zs = refl
append_assoc (x ∷ xs) ys zs = ap (λ ws. x ∷ ws) (append_assoc xs ys zs)

pub pair_beq_iff :
    {A B : Type 0} ⦃e : Eq A⦄ ⦃f : Eq B⦄ (p q : A × B)
    → ((p.0 == q.0 && p.1 == q.1) ≡ true) ↔ (p ≡ q)
pair_beq_iff ⦃e⦄ ⦃f⦄ p q = (
  λ same.
      let first : p.0 ≡ q.0 = (e.beq_iff p.0 q.0).0 (ground (arith, same)) in
      let second : p.1 ≡ q.1 = (f.beq_iff p.1 q.1).0 (ground (arith, same)) in
      ap₂ (λ x y. (x, y)) first second,
  λ eq.
      let first = (e.beq_iff p.0 q.0).1 (ap (λ r. r.0) eq) in
      let second = (f.beq_iff p.1 q.1).1 (ap (λ r. r.1) eq) in ground (arith, first, second),
)

-- pairs as keys
instance abbrev pub pair_eq : {A B : Type 0} ⦃e : Eq A⦄ ⦃f : Eq B⦄ → Eq (A × B)
pair_eq = record { beq = λ p q. p.0 == q.0 && p.1 == q.1; beq_iff = pair_beq_iff }

-- a loop that appends each element of a list to the entry of its key
abbrev pub append_all : {K V : Type 0} ⦃e : Eq K⦄ → (V → K) → (K → List V) → List V → K → List V
append_all key d [] = d
append_all key d (x ∷ xs) = append_all key (append_at d (key x) x) xs

-- At a key stand the elements with that key, in their order.
pub append_all-keep :
    {K V : Type 0} ⦃e : Eq K⦄ (key : V → K) (d : K → List V) (xs : List V) (k : K)
    → append_all key d xs k ≡ d k ++ keep (λ x. key x == k) xs
append_all-keep key d [] k = append_nil (d k)
append_all-keep key d (x ∷ xs) k =
    append_all-keep key (append_at d (key x) x) xs k
    ∙ ap (λ ys. ys ++ keep (λ y. key y == k) xs) (append_at_lem d (key x) x k)
    ∙ append_assoc (d k) (if key x == k then x ∷ [] else []) _
    ∙ ap (λ ys. d k ++ ys)
        (elim (Bool-cases (key x == k)) [ inl same ↦ rw same refl | inr other ↦ rw other refl ])
