-- ===== src/Config/Groups.antt =====
-- Which repositories the criteria of an override block match: `_matches`, `_groups_for` and `_tags_for` of
-- src/flawed/_config/match.py.
use flawed.Base.{
  String, ◌≡◌, refl, ◌↔◌, ◌⊎◌, inl, inr, Bool, true, false, ◌&&◌, ◌||◌, List, [], ◌∷◌, arith,
  Bool-cases, contains-add, contains-to_set_from, Dict, ◌==◌, nat_eq, string_eq, contains, beq_refl,
  pair_eq,
}
use flawed.Config.Schema.{GroupDef, MatchCriteria}
use flawed.Config.Match.{RepoIdentity, repo_ids, meets, passes, groups_for, tags_for, matches}

-- the two lists have an element in common
abbrev pub Common : List String → List String → Type 0
Common xs ys = (x : String) × (contains xs x ≡ true) × (contains ys x ≡ true)

abbrev pub AnyEntry : (String → GroupDef → Type 0) → Dict String GroupDef → Type 0
AnyEntry P [] = ⊥
AnyEntry P ((name, gdef) ∷ groups) = P name gdef ⊎ AnyEntry P groups

-- some group of this name lists the repository
abbrev pub InGroup : RepoIdentity → Dict String GroupDef → String → Type 0
InGroup identity groups name =
    AnyEntry (λ n g. (name ≡ n) × Common (repo_ids identity) g.repos) groups

-- some group with this tag lists the repository
abbrev pub HasTag : RepoIdentity → Dict String GroupDef → String → Type 0
HasTag identity groups tag =
    AnyEntry (λ n g. (contains g.tags tag ≡ true) × Common (repo_ids identity) g.repos) groups

-- a field that is left empty, or one of whose entries has the property
abbrev pub OneOf : List String → (String → Type 0) → Type 0
OneOf xs P = (xs ≡ []) ⊎ ((x : String) × (contains xs x ≡ true) × P x)

meets_iff : (xs ys : List String) → (meets xs ys ≡ true) ↔ Common xs ys
meets_iff xs ys = (to xs, λ (x, here, there). from xs x here there)
  where
    to : (xs : List String) → meets xs ys ≡ true → Common xs ys
    to [] h = cc
    to (x ∷ xs) h = elim (Bool-cases (contains ys x)) [
      | inl here ↦ (x, ground (arith, beq_refl x), here)
      | inr other ↦
          let (y, inside, there) = to xs (ground (arith, h, other)) in
          (y, ground (arith, inside), there)
    ]

    from :
        (xs : List String) (y : String)
        → contains xs y ≡ true
        → contains ys y ≡ true
        → meets xs ys ≡ true
    from [] y h k = cc
    from (x ∷ xs) y h k = elim (Bool-cases (y == x)) [
      | inl same ↦ let eq : y ≡ x = (string_eq.beq_iff y x).0 same in ground (arith, k, eq)
      | inr other ↦ ground (arith, from xs y, h, k, other)
    ]

entry_iff :
    {B C R : Type 0} (b c r : Bool)
    → (b ≡ true) ↔ B
    → (c ≡ true) ↔ C
    → (r ≡ true) ↔ R
    → (((b && c) || r) ≡ true) ↔ ((C × B) ⊎ R)
entry_iff true true r f g h = ((λ _. inl (g.0 refl, f.0 refl)), (λ _. refl))
entry_iff true false r f g h = (
  (λ e. inr (h.0 e)),
  (λ either. elim either [
    | inl both ↦ (let bad : false ≡ true = g.1 both.0 in cc)
    | inr rest ↦ h.1 rest
  ]),
)
entry_iff false c r f g h = (
  (λ e. inr (h.0 e)),
  (λ either. elim either [
    | inl both ↦ (let bad : false ≡ true = f.1 both.1 in cc)
    | inr rest ↦ h.1 rest
  ]),
)

groups_for_cons :
    (identity : RepoIdentity) (n : String) (g : GroupDef) (groups : Dict String GroupDef)
    (name : String)
    → contains (groups_for identity ((n, g) ∷ groups)) name ≡ (
        (meets (repo_ids identity) g.repos && (name == n))
        || contains (groups_for identity groups) name)
unfolding groups_for
groups_for_cons identity n g groups name =
    ground (arith, contains-add (groups_for identity groups) n name)

groups_for_iff :
    (identity : RepoIdentity) (groups : Dict String GroupDef) (name : String)
    → (contains (groups_for identity groups) name ≡ true) ↔ InGroup identity groups name
unfolding groups_for
groups_for_iff identity [] name = ((λ h. cc), (λ h. absurd h))
groups_for_iff identity ((n, g) ∷ groups) name = rw (groups_for_cons identity n g groups name) (
    entry_iff (meets (repo_ids identity) g.repos) (name == n) _
      (meets_iff (repo_ids identity) g.repos) (string_eq.beq_iff name n)
      (groups_for_iff identity groups name))

tags_for_cons :
    (identity : RepoIdentity) (n : String) (g : GroupDef) (groups : Dict String GroupDef)
    (tag : String)
    → contains (tags_for identity ((n, g) ∷ groups)) tag ≡ (
        (meets (repo_ids identity) g.repos && contains g.tags tag)
        || contains (tags_for identity groups) tag)
unfolding tags_for
tags_for_cons identity n g groups tag =
    ground (arith, contains-to_set_from (tags_for identity groups) g.tags tag)

tags_for_iff :
    (identity : RepoIdentity) (groups : Dict String GroupDef) (tag : String)
    → (contains (tags_for identity groups) tag ≡ true) ↔ HasTag identity groups tag
unfolding tags_for
tags_for_iff identity [] tag = ((λ h. cc), (λ h. absurd h))
tags_for_iff identity ((n, g) ∷ groups) tag = rw (tags_for_cons identity n g groups tag) (
    entry_iff (meets (repo_ids identity) g.repos) (contains g.tags tag) _
      (meets_iff (repo_ids identity) g.repos) ((λ h. h), (λ h. h))
      (tags_for_iff identity groups tag))

passes_iff :
    (xs found : List String) (P : String → Type 0)
    → ((x : String) → (contains found x ≡ true) ↔ P x)
    → (passes xs found ≡ true) ↔ OneOf xs P
passes_iff [] found P h = ((λ _. inl refl), (λ _. refl))
passes_iff (x ∷ xs) found P h = (to, from)
  where
    to : meets found (x ∷ xs) ≡ true → OneOf (x ∷ xs) P
    to e = let (y, here, there) = (meets_iff found (x ∷ xs)).0 e in inr (y, there, (h y).0 here)

    from : OneOf (x ∷ xs) P → meets found (x ∷ xs) ≡ true
    from (inl nothing) = cc
    from (inr (y, there, holds)) = (meets_iff found (x ∷ xs)).1 (y, (h y).1 holds, there)

and_iff :
    {A B C : Type 0} (a b c : Bool)
    → (a ≡ true) ↔ A
    → (b ≡ true) ↔ B
    → (c ≡ true) ↔ C
    → ((a && b && c) ≡ true) ↔ (A × B × C)
and_iff true true c f g h = ((λ e. (f.0 refl, g.0 refl, h.0 e)), (λ all. h.1 all.2))
and_iff true false c f g h = ((λ e. cc), (λ all. let bad : false ≡ true = g.1 all.1 in cc))
and_iff false b c f g h = ((λ e. cc), (λ all. let bad : false ≡ true = f.1 all.0 in cc))

-- A block matches a repository if and only if each field of its criteria that is not empty has an entry that
-- fits: an id of the repository, a group that lists it, or a tag of a group that lists it.
pub matches_iff :
    (criteria : MatchCriteria) (identity : RepoIdentity) (groups : Dict String GroupDef)
    → (matches criteria identity groups ≡ true) ↔ (
        OneOf criteria.repo (λ x. contains (repo_ids identity) x ≡ true)
        × OneOf criteria.group (InGroup identity groups)
        × OneOf criteria.tag (HasTag identity groups))
unfolding matches
matches_iff criteria identity groups =
    and_iff _ _ _ (passes_iff criteria.repo (repo_ids identity) _ (λ x. ((λ h. h), (λ h. h))))
      (passes_iff criteria.group (groups_for identity groups) _ (groups_for_iff identity groups))
      (passes_iff criteria.tag (tags_for identity groups) _ (tags_for_iff identity groups))
