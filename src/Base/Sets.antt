-- ===== src/Base/Sets.antt =====
-- Python's sets as lists without repetition: `add`, `&`, `-`, `<=`, `==`, and counting.
use Prim.Native.Nat.{ℕ, suc, ◌+◌, ◌≤◌, ◌<◌}
use mathlib.Core.Path.{◌≡◌, refl}
use mathlib.Core.Logic.{inl, inr}
use mathlib.Core.Bool.{Bool, true, false, not, ◌&&◌, ◌||◌}
use mathlib.Core.List.{List, [], ◌∷◌, ◌++◌}
use native.Mathlib.Omega.{arith}
use flawed.Base.Tests.{if◌then◌else◌, Bool-cases}
use flawed.Base.Lists.{keep, length, length-append}
use flawed.Base.Keys.{Eq, ◌==◌, contains, beq_refl, beq_sym, contains-append, contains-keep}

module _ {A : Type 0} ⦃e : Eq A⦄ where
  -- `s.add(a)`
  abbrev pub add : List A → A → List A
  add s a = if contains s a then s else s ++ a ∷ []

  -- `s & t`
  abbrev pub inter : List A → List A → List A
  inter s t = keep (contains t) s

  -- `s - t`
  abbrev pub diff : List A → List A → List A
  diff s t = keep (λ x. not (contains t x)) s

  -- `s <= t`
  abbrev pub is_subset : List A → List A → Bool
  is_subset [] t = true
  is_subset (x ∷ s) t = contains t x && is_subset s t

  -- `s == t`
  abbrev pub set_eq : List A → List A → Bool
  set_eq s t = is_subset s t && is_subset t s

  -- No element stands twice.
  abbrev pub IsUnique : List A → Type 0
  IsUnique [] = Unit {0}
  IsUnique (x ∷ xs) = (contains xs x ≡ false) × IsUnique xs

  -- `set(xs)`
  abbrev pub to_set_from : List A → List A → List A
  to_set_from s [] = s
  to_set_from s (x ∷ xs) = to_set_from (add s x) xs

  abbrev pub to_set : List A → List A
  to_set = to_set_from []

module _ {A : Type 0} ⦃e : Eq A⦄ where
  pub contains-add : (s : List A) (a b : A) → contains (add s a) b ≡ (b == a || contains s b)
  contains-add s a b = elim (Bool-cases (b == a)) [
    | inl same ↦
        let eq : b ≡ a = (e.beq_iff b a).0 same in ground (arith, contains-append s (a ∷ []) b)
    | inr other ↦ ground (arith, contains-append s (a ∷ []) b)
  ]

  pub is_subset_at :
      (s t : List A) (a : A) → is_subset s t ≡ true → contains s a ≡ true → contains t a ≡ true
  is_subset_at [] t a h m = cc
  is_subset_at (x ∷ s) t a h m = elim (Bool-cases (a == x)) [
    | inl same ↦ let eq : a ≡ x = (e.beq_iff a x).0 same in ground arith
    | inr other ↦ ground (arith, is_subset_at s t a)
  ]

  -- An element that refutes an inclusion.
  pub is_subset-false :
      (s t : List A)
      → is_subset s t ≡ false
      → (a : A) × (contains s a ≡ true) × (contains t a ≡ false)
  is_subset-false [] t h = cc
  is_subset-false (x ∷ s) t h = elim (Bool-cases (contains t x)) [
    | inl there ↦ let (a, m, n) = is_subset-false s t (ground arith) in (a, ground arith, n)
    | inr missing ↦ (x, ground (arith, beq_refl x), missing)
  ]

  pub is_subset-true :
      (s t : List A) → ((a : A) → contains s a ≡ true → contains t a ≡ true) → is_subset s t ≡ true
  is_subset-true s t h = elim (Bool-cases (is_subset s t)) [
    | inl done ↦ done
    | inr failed ↦ let (a, m, n) = is_subset-false s t failed in ground (arith, h a)
  ]

  pub IsUnique-append_one :
      (s : List A) (a : A) → contains s a ≡ false → IsUnique s → IsUnique (s ++ a ∷ [])
  IsUnique-append_one [] a h u = (refl, tt)
  IsUnique-append_one (x ∷ s) a h u = (
    ground (arith, contains-append s (a ∷ []) x, beq_sym a x),
    IsUnique-append_one s a (ground arith) u.1,
  )

  pub IsUnique-keep : (p : A → Bool) (s : List A) → IsUnique s → IsUnique (keep p s)
  IsUnique-keep p [] u = tt
  IsUnique-keep p (x ∷ s) u = elim (Bool-cases (p x)) [
    | inl kept ↦ rw kept (ground (arith, contains-keep p s x), IsUnique-keep p s u.1)
    | inr dropped ↦ rw dropped (IsUnique-keep p s u.1)
  ]

  -- How many elements of `u` are in `s`.
  abbrev pub count_in : List A → List A → ℕ
  count_in [] s = 0
  count_in (x ∷ u) s = if contains s x then suc (count_in u s) else count_in u s

  pub count_in-le : (u s : List A) → count_in u s ≤ length u
  count_in-le [] s = omega arith
  count_in-le (x ∷ u) s = ground (arith, count_in-le u s)

  pub count_in_mono :
      (u s t : List A)
      → ((a : A) → contains s a ≡ true → contains t a ≡ true)
      → count_in u s ≤ count_in u t
  count_in_mono [] s t h = omega arith
  count_in_mono (x ∷ u) s t h = ground (arith, count_in_mono u s t h, h x)

  -- A strictly larger set counts more.
  pub count_in-lt :
      (u s t : List A) (a : A)
      → ((b : A) → contains s b ≡ true → contains t b ≡ true)
      → contains u a ≡ true
      → contains s a ≡ false
      → contains t a ≡ true
      → count_in u s < count_in u t
  count_in-lt [] s t a h m n p = cc
  count_in-lt (x ∷ u) s t a h m n p = elim (Bool-cases (a == x)) [
    | inl same ↦ let eq : a ≡ x = (e.beq_iff a x).0 same in ground (arith, count_in_mono u s t h)
    | inr other ↦ ground (arith, count_in-lt u s t a h, h x)
  ]

  pub contains-to_set_from :
      (s xs : List A) (a : A) → contains (to_set_from s xs) a ≡ (contains s a || contains xs a)
  contains-to_set_from s [] a = ground arith
  contains-to_set_from s (x ∷ xs) a =
      rw (contains-to_set_from (add s x) xs a) (rw (contains-add s x a) (ground arith))

  pub contains-to_set : (xs : List A) (a : A) → contains (to_set xs) a ≡ contains xs a
  contains-to_set xs a = contains-to_set_from [] xs a

  pub IsUnique-add : (s : List A) (a : A) → IsUnique s → IsUnique (add s a)
  IsUnique-add s a u = elim (Bool-cases (contains s a)) [
    | inl old ↦ rw old u
    | inr new ↦ rw new (IsUnique-append_one s a new u)
  ]

  pub IsUnique-to_set_from : (s xs : List A) → IsUnique s → IsUnique (to_set_from s xs)
  IsUnique-to_set_from s [] u = u
  IsUnique-to_set_from s (x ∷ xs) u = IsUnique-to_set_from (add s x) xs (IsUnique-add s x u)

  pub length-to_set_from : (s xs : List A) → length (to_set_from s xs) ≤ length s + length xs
  length-to_set_from s [] = omega arith
  length-to_set_from s (x ∷ xs) =
      let grown : length (add s x) ≤ length s + 1 = ground (arith, length-append s (x ∷ [])) in
      omega (arith, length-to_set_from (add s x) xs)

  pub length-count_in : (s t : List A) → is_subset s t ≡ true → count_in s t ≡ length s
  length-count_in [] t h = refl
  length-count_in (x ∷ s) t h = ground (arith, length-count_in s t)

  pub length-keep_le : (p : A → Bool) (s : List A) → length (keep p s) ≤ length s
  length-keep_le p [] = omega arith
  length-keep_le p (x ∷ s) = ground (arith, length-keep_le p s)

  pub length-keep_lt :
      (p : A → Bool) (s : List A) (a : A)
      → p a ≡ false
      → contains s a ≡ true
      → length (keep p s) < length s
  length-keep_lt p [] a h m = cc
  length-keep_lt p (x ∷ s) a h m = elim (Bool-cases (a == x)) [
    | inl same ↦ let eq : a ≡ x = (e.beq_iff a x).0 same in ground (arith, length-keep_le p s)
    | inr other ↦ ground (arith, length-keep_lt p s a)
  ]

  pub ne_of_mem :
      (s : List A) (a x : A) → contains s a ≡ true → contains s x ≡ false → (a == x) ≡ false
  ne_of_mem s a x m n = elim (Bool-cases (a == x)) [
    | inl same ↦ let eq : a ≡ x = (e.beq_iff a x).0 same in ground arith
    | inr other ↦ other
  ]

  -- A set without repetition is no longer than a set that holds it.
  pub length-le_of_subset :
      (s t : List A)
      → IsUnique s
      → ((a : A) → contains s a ≡ true → contains t a ≡ true)
      → length s ≤ length t
  length-le_of_subset [] t u h = omega arith
  length-le_of_subset (x ∷ s) t u h =
      let others = λ (y : A). not (y == x) in
      omega (
        arith,
        length-le_of_subset s (keep others t) u.1 (λ a m.
            let apart : (a == x) ≡ false = ne_of_mem s a x m u.0 in
            ground (arith, contains-keep others t a, h a)),
        length-keep_lt others t x (ground (arith, beq_refl x)) (h x (ground (arith, beq_refl x))),
      )

  pub length-lt_of_subset :
      (s t : List A) (a : A)
      → IsUnique s
      → ((b : A) → contains s b ≡ true → contains t b ≡ true)
      → contains s a ≡ false
      → contains t a ≡ true
      → length s < length t
  length-lt_of_subset s t a u h n m = omega (
    arith,
    length-le_of_subset (s ++ a ∷ []) t (IsUnique-append_one s a n u) (λ b p.
        elim (Bool-cases (b == a)) [
          | inl same ↦ let eq : b ≡ a = (e.beq_iff b a).0 same in rw eq m
          | inr other ↦ h b (ground (arith, contains-append s (a ∷ []) b))
        ]),
    length-append s (a ∷ []),
  )
