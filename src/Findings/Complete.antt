-- ===== src/Findings/Complete.antt =====
-- The loader fails closed, src/flawed/findings.py: no finding of a capture is lost or left without identity.
use flawed.Base.{
  String, ◌≡◌, refl, sym, ◌∙◌, subst, ◌⊎◌, inl, inr, false, Option, none, some, List, [], ◌∷◌,
  Bool-cases, ◌==◌, nat_eq, string_eq, pair_eq,
}
use flawed.Config.Values.{
  Value, null, bool, number, text, list_of, tuple_of, dict, Items, no_items, item, Fields, get,
}
use flawed.Findings.Records.{
  Python, FindingRecord, FindingLocation, Loaded, loaded, refused, ◌>>=◌, as_text, iterated,
}
use flawed.Findings.Loading.{
  require, parse_severity, record_from_fields, record_from_json, records_from_json,
}
use flawed.Findings.Sarif.{load_document}

-- what holds of a result that is not refused
abbrev pub Gives : {A : Type 0} → (A → Type 0) → Loaded A → Type 0
Gives P (loaded a) = P a
Gives P (refused e) = Unit {0}

Gives-bind :
    {A B : Type 0} (P : A → Type 0) (Q : B → Type 0) (m : Loaded A) (f : A → Loaded B)
    → Gives P m
    → ((a : A) → P a → Gives Q (f a))
    → Gives Q (m >>= f)
Gives-bind P Q (loaded a) f h k = k a h
Gives-bind P Q (refused e) f h k = tt

Gives-any : {A : Type 0} (m : Loaded A) → Gives (λ _. Unit {0}) m
Gives-any (loaded a) = tt
Gives-any (refused e) = tt

Gives-weaken :
    {A : Type 0} (P Q : A → Type 0) (m : Loaded A) → Gives P m → ((a : A) → P a → Q a) → Gives Q m
Gives-weaken P Q (loaded a) h k = k a h
Gives-weaken P Q (refused e) h k = tt

-- a key of a dict that has a text which is not empty
abbrev pub IsField : String → Fields → String → Type 0
IsField key d s = (get key d ≡ some (text s)) × ((s == "") ≡ false)

text-cases : (o : Option Value) → (as_text o ≡ none) ⊎ ((s : String) × (o ≡ some (text s)))
text-cases none = inl refl
text-cases (some null) = inl refl
text-cases (some (bool b)) = inl refl
text-cases (some (number n)) = inl refl
text-cases (some (text s)) = inr (s, refl)
text-cases (some (list_of xs)) = inl refl
text-cases (some (tuple_of xs)) = inl refl
text-cases (some (dict d)) = inl refl

require-Gives : (key : String) (d : Fields) → Gives (IsField key d) (require key d)
unfolding require
require-Gives key d = elim (text-cases (get key d)) [
  | inl missing ↦ rw (missing, Gives) tt
  | inr (s, found) ↦ elim (Bool-cases (s == "")) [
    | inl empty ↦ rw (found, Gives) (rw (empty, Gives) tt)
    | inr filled ↦
        let result : require key d ≡ loaded s = rw (found, require) (rw filled refl) in
        subst (Gives (IsField key d)) (sym result) (found, filled)
  ]
]

-- the record is the dict's: rule and fingerprint are its texts, and neither is empty
abbrev pub IsOf : Fields → FindingRecord → Type 0
IsOf d r = IsField "rule_id" d r.rule_id × IsField "fingerprint" d r.fingerprint

-- one record for each element of the list, in order
abbrev pub Reads : Items → List FindingRecord → Type 0
Reads no_items [] = Unit {0}
Reads no_items (r ∷ rs) = ⊥
Reads (item v xs) [] = ⊥
Reads (item v xs) (r ∷ rs) = ((d : Fields) × (v ≡ dict d) × IsOf d r) × Reads xs rs

module _ (py : Python) where
  record_from_fields-Gives : (d : Fields) → Gives (IsOf d) (record_from_fields py d)
  unfolding record_from_fields
  record_from_fields-Gives d =
      Gives-bind (IsField "rule_id" d) (IsOf d) (require "rule_id" d) _ (require-Gives "rule_id" d)
        (λ rule_id h.
          Gives-bind (λ _. Unit {0}) (IsOf d) (require "severity" d) _ (Gives-any _)
            (λ named _.
              Gives-bind (λ _. Unit {0}) (IsOf d) (parse_severity py named) _ (Gives-any _)
                (λ severity _.
                  Gives-bind (IsField "fingerprint" d) (IsOf d) (require "fingerprint" d) _
                    (require-Gives "fingerprint" d)
                    (λ fingerprint k.
                      Gives-bind (λ _. Unit {0}) (IsOf d) (iterated "evidence" (get "evidence" d)) _
                        (Gives-any _)
                        (λ _ _.
                          Gives-bind (λ _. Unit {0}) (IsOf d) (iterated "gaps" (get "gaps" d)) _
                            (Gives-any _) (λ _ _. (h, k)))))))

  record_from_json-Gives :
      (v : Value) → Gives (λ r. (d : Fields) × (v ≡ dict d) × IsOf d r) (record_from_json py v)
  unfolding record_from_json
  record_from_json-Gives (dict d) =
      Gives-weaken (IsOf d) (λ r. (x : Fields) × (dict d ≡ dict x) × IsOf x r)
        (record_from_fields py d) (record_from_fields-Gives d) (λ r h. (d, refl, h))
  record_from_json-Gives null = tt
  record_from_json-Gives (bool b) = tt
  record_from_json-Gives (number n) = tt
  record_from_json-Gives (text s) = tt
  record_from_json-Gives (list_of xs) = tt
  record_from_json-Gives (tuple_of xs) = tt

  records_from_json-Gives : (xs : Items) → Gives (Reads xs) (records_from_json py xs)
  unfolding records_from_json
  records_from_json-Gives no_items = tt
  records_from_json-Gives (item v xs) =
      Gives-bind (λ r. (d : Fields) × (v ≡ dict d) × IsOf d r) (Reads (item v xs))
        (record_from_json py v) _ (record_from_json-Gives v)
        (λ r h.
          Gives-bind (Reads xs) (Reads (item v xs)) (records_from_json py xs) _
            (records_from_json-Gives xs) (λ rs k. (h, k)))

  -- A capture that is accepted gives one record for each of its findings, in order, and each has the rule and
  -- the fingerprint that the document says, neither of them empty.
  pub load_document-Reads :
      (digest : String → String → Option FindingLocation → String) (d : Fields) (xs : Items)
      (rs : List FindingRecord)
      → get "findings" d ≡ some (list_of xs)
      → load_document py digest (dict d) ≡ loaded rs
      → Reads xs rs
  unfolding load_document
  load_document-Reads digest d xs rs found e =
      let same : load_document py digest (dict d) ≡ records_from_json py xs =
        rw (found, load_document) refl in
      subst (Gives (Reads xs)) (sym same ∙ e) (records_from_json-Gives xs)
