-- ===== src/Symbols.antt =====
-- The class `SymbolIndex` of src/flawed/_index/_graphs.py: its dicts by name and file and by qualified name,
-- and the queries on them.
mod Tests
use flawed.Base.{
  ℕ, zero, suc, ◌+◌, ◌-◌, ◌*◌, ◌≤◌, ◌<◌, String, ◌≡◌, refl, sym, ap, ◌∙◌, subst, ◌≢◌, ◌↔◌, ◌⊎◌, inl,
  inr, Bool, true, false, not, ◌&&◌, ◌||◌, Option, none, some, List, [], ◌∷◌, ◌++◌, map, foldl,
  arith, ltb, leb, nat_beq, if◌then◌else◌, nat_beq_iff, Bool-cases, Option-cases, add, inter, diff,
  is_subset, set_eq, IsUnique, to_set_from, to_set, contains-add, is_subset_at, is_subset-false,
  is_subset-true, IsUnique-append_one, IsUnique-keep, count_in, count_in-le, count_in_mono,
  count_in-lt, contains-to_set_from, contains-to_set, IsUnique-add, IsUnique-to_set_from,
  length-to_set_from, length-count_in, length-keep_le, length-keep_lt, ne_of_mem,
  length-le_of_subset, length-lt_of_subset, keep, length, length-append, List-cases, length-map, Eq,
  ◌==◌, nat_eq, string_eq, contains, beq_refl, beq_sym, contains-append, contains-keep, append_at,
  add_at, contains-add_at, append_nil, append_at_lem, append_assoc, pair_eq, append_all,
  append_all-keep,
}
use flawed.Types.{SourceSpan, SymbolRef, ResolutionStatus, resolved, unresolved, partial}

pub record SymbolIndex : Type 0 where
  pub refs : List SymbolRef
  pub by_fqn : String → List SymbolRef
  pub by_name_in_file : String × String → List SymbolRef
  pub defined_fqns : List String

abbrev pub name_key : SymbolRef → String × String
name_key r = (r.name, r.location.file)

-- what a resolved reference adds
unfoldable pub index_fqn : Option String → SymbolRef → SymbolIndex → SymbolIndex
index_fqn none r g = g
index_fqn (some fqn) r g = record g {
  by_fqn = append_at g.by_fqn fqn r;
  defined_fqns = add g.defined_fqns fqn;
}

-- the body of the constructor's loop
unfoldable pub add_ref : SymbolIndex → SymbolRef → SymbolIndex
unfolding index_fqn
add_ref g r =
    index_fqn r.fqn r (record g { by_name_in_file = append_at g.by_name_in_file (name_key r) r })

unfoldable pub add_refs : SymbolIndex → List SymbolRef → SymbolIndex
unfolding add_ref
add_refs g [] = g
add_refs g (r ∷ rs) = add_refs (add_ref g r) rs

-- `__init__`
unfoldable pub symbol_index : List SymbolRef → SymbolIndex
unfolding add_refs
symbol_index refs =
    add_refs
      (record { refs = refs; by_fqn = λ _. []; by_name_in_file = λ _. []; defined_fqns = [] }) refs

-- the first qualified name of a list of references
unfoldable pub first_fqn : List SymbolRef → Option String
first_fqn [] = none
first_fqn (r ∷ rs) = elim r.fqn [ some fqn ↦ some fqn | none ↦ first_fqn rs ]

abbrev is_unresolved : ResolutionStatus → Bool
is_unresolved resolved = false
is_unresolved unresolved = true
is_unresolved partial = false

module _ (g : SymbolIndex) where
  unfoldable pub resolve : String → String → Option String
  unfolding first_fqn
  resolve name file = first_fqn (g.by_name_in_file (name, file))

  unfoldable pub fqn_exists : String → Bool
  fqn_exists fqn = contains g.defined_fqns fqn

  unfoldable pub usages : String → List SourceSpan
  usages fqn = map (λ r. r.location) (g.by_fqn fqn)

  pub unresolved_refs : List SymbolRef
  unresolved_refs = keep (λ r. is_unresolved r.resolution) g.refs

-- -- what the dicts hold -------------------------------------------

abbrev pub has_name : String → String → SymbolRef → Bool
has_name name file r = name_key r == (name, file)

abbrev pub has_fqn : String → SymbolRef → Bool
has_fqn fqn r = elim r.fqn [ none ↦ false | some known ↦ known == fqn ]

index_fqn-by_name :
    (o : Option String) (r : SymbolRef) (g : SymbolIndex)
    → (index_fqn o r g).by_name_in_file ≡ g.by_name_in_file
unfolding index_fqn
index_fqn-by_name none r g = refl
index_fqn-by_name (some fqn) r g = refl

index_fqn-by_fqn :
    (o : Option String) (r : SymbolRef) (g : SymbolIndex) (fqn : String)
    → (index_fqn o r g).by_fqn fqn
      ≡ g.by_fqn fqn
        ++ (if (elim o [ none ↦ false | some known ↦ known == fqn ]) then r ∷ [] else [])
unfolding index_fqn
index_fqn-by_fqn none r g fqn = append_nil (g.by_fqn fqn)
index_fqn-by_fqn (some known) r g fqn = append_at_lem g.by_fqn known r fqn

add_refs-by_name :
    (g : SymbolIndex) (rs : List SymbolRef) (k : String × String)
    → (add_refs g rs).by_name_in_file k ≡ append_all name_key g.by_name_in_file rs k
unfolding add_refs add_ref
add_refs-by_name g [] k = refl
add_refs-by_name g (r ∷ rs) k =
    add_refs-by_name (add_ref g r) rs k
    ∙ ap (λ d. append_all name_key d rs k)
        (index_fqn-by_name r.fqn r
          (record g { by_name_in_file = append_at g.by_name_in_file (name_key r) r }))

add_refs-by_fqn :
    (g : SymbolIndex) (rs : List SymbolRef) (fqn : String)
    → (add_refs g rs).by_fqn fqn ≡ g.by_fqn fqn ++ keep (has_fqn fqn) rs
unfolding add_refs add_ref
add_refs-by_fqn g [] fqn = append_nil (g.by_fqn fqn)
add_refs-by_fqn g (r ∷ rs) fqn =
    add_refs-by_fqn (add_ref g r) rs fqn
    ∙ ap (λ ys. ys ++ keep (has_fqn fqn) rs)
        (index_fqn-by_fqn r.fqn r
          (record g { by_name_in_file = append_at g.by_name_in_file (name_key r) r }) fqn)
    ∙ append_assoc (g.by_fqn fqn) (if has_fqn fqn r then r ∷ [] else []) _
    ∙ ap (λ ys. g.by_fqn fqn ++ ys)
        (elim (Bool-cases (has_fqn fqn r)) [
          | inl same ↦ simp same refl
          | inr other ↦ simp other refl
        ])

resolve-first_fqn :
    (refs : List SymbolRef) (name file : String)
    → resolve (symbol_index refs) name file ≡ first_fqn (keep (has_name name file) refs)
unfolding resolve symbol_index
resolve-first_fqn refs name file =
    ap first_fqn
      (add_refs-by_name _ refs (name, file) ∙ append_all-keep name_key (λ _. []) refs (name, file))

-- no reference with the name in the file has a qualified name
abbrev pub AllLack : String → String → List SymbolRef → Type 0
AllLack name file [] = Unit {0}
AllLack name file (r ∷ rs) = (has_name name file r ≡ true → r.fqn ≡ none) × AllLack name file rs

-- what a list of references says of a name in a file: the qualified name of the first reference to it that
-- has one stands in the list after references that have none
abbrev pub Names : String → String → List SymbolRef → Option String → Type 0
Names name file refs none = AllLack name file refs
Names name file refs (some fqn) =
    (before : List SymbolRef) × (r : SymbolRef) × (after : List SymbolRef) × (refs
      ≡ before ++ r ∷ after)
    × AllLack name file before
    × (has_name name file r ≡ true)
    × (r.fqn ≡ some fqn)

Names-skip :
    (name file : String) (r : SymbolRef) (rs : List SymbolRef) (o : Option String)
    → (has_name name file r ≡ true → r.fqn ≡ none)
    → Names name file rs o
    → Names name file (r ∷ rs) o
Names-skip name file r rs none lacks h = (lacks, h)
Names-skip name file r rs (some fqn) lacks (before, s, after, eq, lack, named, has) =
    (r ∷ before, s, after, ap (λ (xs : List SymbolRef). r ∷ xs) eq, (lacks, lack), named, has)

first_fqn-lacks :
    (r : SymbolRef) (rs : List SymbolRef) → r.fqn ≡ none → first_fqn (r ∷ rs) ≡ first_fqn rs
unfolding first_fqn
first_fqn-lacks r rs missing = simp missing refl

first_fqn-has :
    (r : SymbolRef) (rs : List SymbolRef) (fqn : String)
    → r.fqn ≡ some fqn
    → first_fqn (r ∷ rs) ≡ some fqn
unfolding first_fqn
first_fqn-has r rs fqn has = simp has refl

first_fqn-Names :
    (name file : String) (refs : List SymbolRef)
    → Names name file refs (first_fqn (keep (has_name name file) refs))
unfolding first_fqn
first_fqn-Names name file [] = tt
first_fqn-Names name file (r ∷ rs) =
    let rest = first_fqn-Names name file rs in
    let others = keep (has_name name file) rs in
    elim (Bool-cases (has_name name file r)) [
      | inr other ↦
          rw other (Names-skip name file r rs _ (λ e. absurd (ground (arith, other, e))) rest)
      | inl named ↦ rw named (elim (Option-cases r.fqn) [
        | inl missing ↦
            subst (Names name file (r ∷ rs)) (sym (first_fqn-lacks r others missing))
              (Names-skip name file r rs _ (λ _. missing) rest)
        | inr (fqn, has) ↦
            subst (Names name file (r ∷ rs)) (sym (first_fqn-has r others fqn has))
              ([], r, rs, refl, tt, named, has)
      ])
    ]

-- A name resolves to a qualified name exactly as the list of references says: the first reference with that
-- name in that file that has a qualified name gives it, those before it have none; and the answer is `none`
-- only if all of them lack one. References in other files do not count.
pub resolve-Names :
    (refs : List SymbolRef) (name file : String)
    → Names name file refs (resolve (symbol_index refs) name file)
resolve-Names refs name file =
    subst (Names name file refs) (sym (resolve-first_fqn refs name file))
      (first_fqn-Names name file refs)

-- The usages of a qualified name are the locations of the references that have it, in their order.
pub usages-keep :
    (refs : List SymbolRef) (fqn : String)
    → usages (symbol_index refs) fqn ≡ map (λ r. r.location) (keep (has_fqn fqn) refs)
unfolding usages symbol_index
usages-keep refs fqn = ap (λ rs. map (λ r. r.location) rs) (add_refs-by_fqn _ refs fqn)
