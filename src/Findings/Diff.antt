-- ===== src/Findings/Diff.antt =====
-- What the comparison of two runs returns, src/flawed/findings.py, FindingCollection.diff.
use flawed.Base.{
  String, ◌≡◌, refl, sym, ap, ◌∙◌, inl, inr, Bool, true, false, not, ◌||◌, Option, none, some, List,
  [], ◌∷◌, arith, if◌then◌else◌, Bool-cases, Dict, lookup, insert, lookup-insert, ◌==◌, nat_eq,
  string_eq, pair_eq,
}
use flawed.Findings.Records.{FindingRecord}
use flawed.Findings.Collection.{fill, has, pick, diff}

abbrev pub or_else : {A : Type 0} → Option A → Option A → Option A
or_else none o = o
or_else (some a) o = some a

-- the first and the last finding with a fingerprint
abbrev pub first_of : String → List FindingRecord → Option FindingRecord
first_of fp [] = none
first_of fp (r ∷ rs) = if fp == r.fingerprint then some r else first_of fp rs

abbrev pub last_of : String → List FindingRecord → Option FindingRecord
last_of fp [] = none
last_of fp (r ∷ rs) = or_else (last_of fp rs) (if fp == r.fingerprint then some r else none)

abbrev pub occurs : String → List FindingRecord → Bool
occurs fp [] = false
occurs fp (r ∷ rs) = fp == r.fingerprint || occurs fp rs

-- every finding stands at its own fingerprint
abbrev IsKeyed : Dict String FindingRecord → Type 0
IsKeyed [] = Unit {0}
IsKeyed ((fp, r) ∷ d) = (r.fingerprint ≡ fp) × IsKeyed d

insert-IsKeyed :
    (r : FindingRecord) (d : Dict String FindingRecord)
    → IsKeyed d
    → IsKeyed (insert r.fingerprint r d)
unfolding insert
insert-IsKeyed r [] h = (refl, tt)
insert-IsKeyed r ((fp, s) ∷ d) (h, k) = elim (Bool-cases (r.fingerprint == fp)) [
  | inl same ↦ rw same ((string_eq.beq_iff r.fingerprint fp).0 same, k)
  | inr differ ↦ rw differ (h, insert-IsKeyed r d k)
]

lookup-fill :
    (fp : String) (d : Dict String FindingRecord) (items : List FindingRecord)
    → lookup fp (fill d items) ≡ or_else (last_of fp items) (lookup fp d)
unfolding fill
lookup-fill fp d [] = refl
lookup-fill fp d (r ∷ rs) =
    lookup-fill fp (insert r.fingerprint r d) rs
    ∙ ap (or_else (last_of fp rs)) (lookup-insert fp r.fingerprint r d)
    ∙ settled (last_of fp rs) (fp == r.fingerprint)
  where
    settled :
        (later : Option FindingRecord) (b : Bool)
        → or_else later (if b then some r else lookup fp d)
          ≡ or_else (or_else later (if b then some r else none)) (lookup fp d)
    settled none true = refl
    settled none false = refl
    settled (some a) b = refl

first_of-pick :
    (fp : String) (p : String → Bool) (d : Dict String FindingRecord)
    → IsKeyed d
    → first_of fp (pick p d) ≡ (if p fp then lookup fp d else none)
unfolding pick lookup
first_of-pick fp p [] h = ground arith
first_of-pick fp p ((k, r) ∷ d) (h, t) = elim (Bool-cases (fp == k)) [
  | inl same ↦
      let eq : fp ≡ k = (string_eq.beq_iff fp k).0 same in
      let own : (fp == r.fingerprint) ≡ true =
        (string_eq.beq_iff fp r.fingerprint).1 (eq ∙ sym h) in
      ground (arith, same, eq, own, first_of-pick fp p d t)
  | inr differ ↦
      let other : (fp == r.fingerprint) ≡ false = rw h differ in
      ground (arith, differ, other, first_of-pick fp p d t)
]

fill-IsKeyed :
    (d : Dict String FindingRecord) (items : List FindingRecord)
    → IsKeyed d
    → IsKeyed (fill d items)
unfolding fill
fill-IsKeyed d [] h = h
fill-IsKeyed d (r ∷ rs) h = fill-IsKeyed (insert r.fingerprint r d) rs (insert-IsKeyed r d h)

last_of-occurs :
    (fp : String) (items : List FindingRecord)
    → elim (last_of fp items) as (λ _. Bool) [ none ↦ false | some r ↦ true ] ≡ occurs fp items
last_of-occurs fp [] = refl
last_of-occurs fp (r ∷ rs) = ground (arith, last_of-occurs fp rs)

filled : (fp : String) (items : List FindingRecord) → lookup fp (fill [] items) ≡ last_of fp items
unfolding lookup
filled fp items = lookup-fill fp [] items ∙ or_else-none (last_of fp items)
  where
    or_else-none : (o : Option FindingRecord) → or_else o none ≡ o
    or_else-none none = refl
    or_else-none (some a) = refl

has-fill : (fp : String) (items : List FindingRecord) → has fp (fill [] items) ≡ occurs fp items
has-fill fp items =
    ap (λ (o : Option FindingRecord). elim o as (λ _. Bool) [ none ↦ false | some r ↦ true ])
      (filled fp items)
    ∙ last_of-occurs fp items

first_of-diff :
    (fp : String) (p : String → Bool) (b : Bool) (items : List FindingRecord)
    → p fp ≡ b
    → first_of fp (pick p (fill [] items)) ≡ (if b then last_of fp items else none)
first_of-diff fp p b items h =
    first_of-pick fp p (fill [] items) (fill-IsKeyed [] items tt)
    ∙ ground (arith, h, filled fp items)

-- A fingerprint of the newer run only is added, of the older run only removed, and of both common, each with
-- the last finding of its run that has it; in every other list it does not occur.
pub diff_decides :
    (fp : String) (items other : List FindingRecord)
    → (first_of fp (diff items other).added ≡ (if occurs fp other then none else last_of fp items))
      × (first_of fp (diff items other).removed
          ≡ (if occurs fp items then none else last_of fp other))
      × (first_of fp (diff items other).common
          ≡ (if occurs fp other then last_of fp items else none))
unfolding diff
diff_decides fp items other = (
  first_of-diff fp (λ k. not (has k (fill [] other))) (not (occurs fp other)) items
        (ap not (has-fill fp other))
      ∙ ground arith,
  first_of-diff fp (λ k. not (has k (fill [] items))) (not (occurs fp items)) other
        (ap not (has-fill fp items))
      ∙ ground arith,
  first_of-diff fp (λ k. has k (fill [] other)) (occurs fp other) items (has-fill fp other),
)
