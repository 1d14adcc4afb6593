-- ===== src/Base/Assoc.antt =====
-- Python's dicts as lists of pairs in insertion order; a key is looked up at its first pair, and a write
-- keeps the place of a key that is there.
use mathlib.Core.Path.{◌≡◌, refl}
use mathlib.Core.Logic.{inl, inr}
use mathlib.Core.Option.{Option, none, some}
use mathlib.Core.List.{List, [], ◌∷◌}
use native.Mathlib.Omega.{arith}
use flawed.Base.Tests.{if◌then◌else◌, Bool-cases}
use flawed.Base.Keys.{Eq, ◌==◌}

abbrev pub Dict : Type 0 → Type 0 → Type 0
Dict K V = List (K × V)

module _ {K V : Type 0} ⦃e : Eq K⦄ where
  -- `d.get(k)`
  unfoldable pub lookup : K → Dict K V → Option V
  lookup k [] = none
  lookup k ((j, v) ∷ d) = if k == j then some v else lookup k d

  -- `d[k] = v`
  unfoldable pub insert : K → V → Dict K V → Dict K V
  insert k v [] = (k, v) ∷ []
  insert k v ((j, w) ∷ d) = if k == j then (j, v) ∷ d else (j, w) ∷ insert k v d

  -- `d.update(other)`
  unfoldable pub update_all : Dict K V → Dict K V → Dict K V
  unfolding insert
  update_all d [] = d
  update_all d ((k, v) ∷ other) = update_all (insert k v d) other

  abbrev pub IsUniqueKeys : Dict K V → Type 0
  IsUniqueKeys [] = Unit {0}
  IsUniqueKeys ((k, _) ∷ d) = (lookup k d ≡ none) × IsUniqueKeys d

  pub lookup-insert :
      (j k : K) (v : V) (d : Dict K V)
      → lookup j (insert k v d) ≡ (if j == k then some v else lookup j d)
  unfolding lookup insert
  lookup-insert j k v [] = refl
  lookup-insert j k v ((i, w) ∷ d) =
      ground (arith, e.beq_iff j k, e.beq_iff k i, e.beq_iff j i, lookup-insert j k v d)

  -- The later dict wins.
  pub lookup-update_all :
      (j : K) (d other : Dict K V)
      → IsUniqueKeys other
      → lookup j (update_all d other)
        ≡ elim (lookup j other) as (λ _. Option V) [ some v ↦ some v | none ↦ lookup j d ]
  unfolding update_all lookup
  lookup-update_all j d [] u = refl
  lookup-update_all j d ((k, v) ∷ other) u = elim (Bool-cases (j == k)) [
    | inl same ↦ ground (
      arith,
      e.beq_iff j k,
      lookup-update_all j (insert k v d) other u.1,
      lookup-insert j k v d,
      u.0,
    )
    | inr differ ↦
        ground (arith, lookup-update_all j (insert k v d) other u.1, lookup-insert j k v d)
  ]
