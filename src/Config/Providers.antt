-- ===== src/Config/Providers.antt =====
-- What a file does to the providers of a configuration: `_merge_providers` of src/flawed/_config/merge.py.
use flawed.Base.{
  String, ◌≡◌, refl, sym, ap, ◌∙◌, subst, inl, inr, false, ◌||◌, Option, none, some, arith,
  Bool-cases, Option-cases, Dict, lookup, insert, lookup-insert, ◌==◌, nat_eq, string_eq, beq_refl,
  pair_eq,
}
use flawed.Config.Values.{Value, dict, Fields, no_fields, field, get}
use flawed.Config.Schema.{Result, ok, err, ◌>>=◌, Python, ProviderEntry}
use flawed.Config.Blocks.{entry_dict, parse_provider_entry}
use flawed.Config.Merge.{merge_provider_entry, merge_entry, merge_entries}
use flawed.Config.Deep.{dict-cases}
use flawed.Config.Limits.{Within-weaken, Within, Within-bind, Within-at, any_then}

-- no key of a dict occurs twice
abbrev pub IsUniqueFields : Fields → Type 0
IsUniqueFields no_fields = Unit {0}
IsUniqueFields (field key val d) = (get key d ≡ none) × IsUniqueFields d

-- the entry of one provider, given what the file has at its id
abbrev pub merged_at : Python → Option ProviderEntry → Option Value → Result (Option ProviderEntry)
merged_at py before none = ok before
merged_at py before (some v) = elim (entry_dict v) [
  | none ↦ ok before
  | some d ↦ elim before [
    | none ↦ (do entry ← parse_provider_entry py d; ok (some entry))
    | some base ↦ (do
      entry ← merge_provider_entry py base (get "enable" d) (get "config" d)
      ok (some entry))
  ]
]

-- a write shows at its own key
stored :
    (key : String) (entries : Dict String ProviderEntry) (m : Result ProviderEntry)
    → Within
        (λ next. (do entry ← m; ok (some entry)) ≡ ok (lookup key next))
        (do entry ← m; ok (insert key entry entries))
stored key entries (ok entry) =
    ap ok (sym (lookup-insert key key entry entries ∙ rw (beq_refl key) refl))
stored key entries (err e) = tt

module _ (py : Python) where
  -- an entry of another provider is untouched
  merge_entry-others :
      (key pid : String) (val : Fields) (entries : Dict String ProviderEntry)
      → (pid == key) ≡ false
      → Within (λ next. lookup pid next ≡ lookup pid entries) (merge_entry py key val entries)
  unfolding merge_entry
  merge_entry-others key pid val entries differ = elim (Option-cases (lookup key entries)) [
    | inl missing ↦
        rw (missing, Within)
          (any_then (λ next. lookup pid next ≡ lookup pid entries) (parse_provider_entry py val) _
            (λ entry. lookup-insert pid key entry entries ∙ rw differ refl))
    | inr (base, found) ↦
        rw (found, Within)
          (any_then (λ next. lookup pid next ≡ lookup pid entries)
            (merge_provider_entry py base (get "enable" val) (get "config" val)) _
            (λ entry. lookup-insert pid key entry entries ∙ rw differ refl))
  ]

  -- the entry of its own provider is merged
  merge_entry-here :
      (key : String) (block : Fields) (entries : Dict String ProviderEntry)
      (before : Option ProviderEntry)
      → lookup key entries ≡ before
      → Within
          (λ next. merged_at py before (some (dict block)) ≡ ok (lookup key next))
          (merge_entry py key block entries)
  unfolding merge_entry
  merge_entry-here key block entries none missing =
      rw (missing, Within) (stored key entries (parse_provider_entry py block))
  merge_entry-here key block entries (some base) found =
      rw (found, Within)
        (stored key entries
          (merge_provider_entry py base (get "enable" block) (get "config" block)))

  -- what `merge_entries-Within` shows of a result
  abbrev Merges : String → Dict String ProviderEntry → Fields → Dict String ProviderEntry → Type 0
  Merges pid entries raw next =
      merged_at py (lookup pid entries) (get pid raw) ≡ ok (lookup pid next)

  Merges-skip :
      (pid key : String) (val : Value) (raw : Fields) (entries next : Dict String ProviderEntry)
      → (pid == key) ≡ false
      → Merges pid entries raw next
      → Merges pid entries (field key val raw) next
  unfolding get
  Merges-skip pid key val raw entries next differ e = rw differ e

  Merges-leaf :
      (key : String) (val : Value) (raw : Fields) (entries next : Dict String ProviderEntry)
      → entry_dict val ≡ none
      → get key raw ≡ none
      → Merges key entries raw next
      → Merges key entries (field key val raw) next
  unfolding get
  Merges-leaf key val raw entries next other absent e =
      rw (beq_refl key, merged_at, other) (sym (ap (merged_at py (lookup key entries)) absent) ∙ e)

  Merges-dict :
      (key : String) (d raw : Fields) (entries next last : Dict String ProviderEntry)
      → get key raw ≡ none
      → merged_at py (lookup key entries) (some (dict d)) ≡ ok (lookup key next)
      → Merges key next raw last
      → Merges key entries (field key (dict d) raw) last
  unfolding get
  Merges-dict key d raw entries next last absent first e =
      rw (beq_refl key) (first ∙ sym (ap (merged_at py (lookup key next)) absent) ∙ e)

  Within-skip :
      (pid key : String) (val : Value) (raw : Fields) (entries : Dict String ProviderEntry)
      (m : Result (Dict String ProviderEntry))
      → (pid == key) ≡ false
      → Within (Merges pid entries raw) m
      → Within (Merges pid entries (field key val raw)) m
  Within-skip pid key val raw entries m differ held =
      Within-weaken (Merges pid entries raw) (Merges pid entries (field key val raw)) m held
        (λ next e. Merges-skip pid key val raw entries next differ e)

  Within-leaf :
      (pid key : String) (val : Value) (raw : Fields) (entries : Dict String ProviderEntry)
      (m : Result (Dict String ProviderEntry))
      → entry_dict val ≡ none
      → get key raw ≡ none
      → Within (Merges pid entries raw) m
      → Within (Merges pid entries (field key val raw)) m
  Within-leaf pid key val raw entries m other absent held = elim (Bool-cases (pid == key)) [
    | inl same ↦
        let eq : pid ≡ key = (string_eq.beq_iff pid key).0 same in
        subst (λ (p : String). Within (Merges p entries (field key val raw)) m) (sym eq)
          (Within-weaken (Merges key entries raw) (Merges key entries (field key val raw)) m
            (subst (λ (p : String). Within (Merges p entries raw) m) eq held)
            (λ next e. Merges-leaf key val raw entries next other absent e))
    | inr differ ↦ Within-skip pid key val raw entries m differ held
  ]

  -- an entry of the file, and the rest of it
  Within-dict :
      (pid key : String) (d raw : Fields) (entries : Dict String ProviderEntry)
      (f : Dict String ProviderEntry → Result (Dict String ProviderEntry))
      → get key raw ≡ none
      → ((next : Dict String ProviderEntry) → Within (Merges pid next raw) (f next))
      → Within (Merges pid entries (field key (dict d) raw)) (merge_entry py key d entries >>= f)
  Within-dict pid key d raw entries f absent held = elim (Bool-cases (pid == key)) [
    | inl same ↦
        let eq : pid ≡ key = (string_eq.beq_iff pid key).0 same in
        subst
          (λ (p : String).
            Within (Merges p entries (field key (dict d) raw)) (merge_entry py key d entries >>= f))
          (sym eq)
          (Within-bind
            (λ next. merged_at py (lookup key entries) (some (dict d)) ≡ ok (lookup key next))
            (Merges key entries (field key (dict d) raw)) (merge_entry py key d entries) f
            (merge_entry-here key d entries (lookup key entries) refl)
            (λ next first.
              Within-weaken (Merges key next raw) (Merges key entries (field key (dict d) raw))
                (f next)
                (subst (λ (p : String). Within (Merges p next raw) (f next)) eq (held next))
                (λ last e. Merges-dict key d raw entries next last absent first e)))
    | inr differ ↦
        Within-bind (λ next. lookup pid next ≡ lookup pid entries)
          (Merges pid entries (field key (dict d) raw)) (merge_entry py key d entries) f
          (merge_entry-others key pid d entries differ)
          (λ next kept. Within-skip pid key (dict d) raw entries (f next) differ (
            subst
              (λ (o : Option ProviderEntry).
                Within (λ last. merged_at py o (get pid raw) ≡ ok (lookup pid last)) (f next))
              kept (held next)))
  ]

  merge_entries-Merges :
      (pid : String) (entries : Dict String ProviderEntry) (raw : Fields)
      → (pid == "base_dir" || pid == "paths") ≡ false
      → IsUniqueFields raw
      → Within (Merges pid entries raw) (merge_entries py entries raw)
  unfolding merge_entries get
  merge_entries-Merges pid entries no_fields h u = refl
  merge_entries-Merges pid entries (field key val raw) h u =
      let rest = merge_entries-Merges pid entries raw h u.1 in
      elim (Bool-cases (key == "base_dir" || key == "paths")) [
        | inl special ↦
            let differ : (pid == key) ≡ false =
              ground (arith, special, h, string_eq.beq_iff pid key) in
            rw (special, Within)
              (Within-skip pid key val raw entries (merge_entries py entries raw) differ rest)
        | inr plain ↦ elim (dict-cases val) [
          | inl other ↦
              rw (plain, other, Within)
                (Within-leaf pid key val raw entries (merge_entries py entries raw) other u.0 rest)
          | inr (d, eq) ↦
              subst
                (λ (v : Value).
                  Within (Merges pid entries (field key v raw))
                    (merge_entries py entries (field key v raw)))
                (sym eq)
                (rw (plain, Within)
                  (Within-dict pid key d raw entries (λ next. merge_entries py next raw) u.0
                    (λ next. merge_entries-Merges pid next raw h u.1)))
        ]
      ]

  -- After a file, each provider has the entry that its own earlier entry and its own part of the file give,
  -- whatever else the file holds and in whatever order.
  pub merge_entries-lookup :
      (pid : String) (entries next : Dict String ProviderEntry) (raw : Fields)
      → (pid == "base_dir" || pid == "paths") ≡ false
      → IsUniqueFields raw
      → merge_entries py entries raw ≡ ok next
      → merged_at py (lookup pid entries) (get pid raw) ≡ ok (lookup pid next)
  merge_entries-lookup pid entries next raw h u e =
      Within-at (Merges pid entries raw) (merge_entries py entries raw) next
        (merge_entries-Merges pid entries raw h u) e
