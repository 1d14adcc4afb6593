-- ===== src/Config/Entries.antt =====
-- What an override block does to the provider entries: the loop of `_apply_single` in
-- src/flawed/_config/match.py.
use flawed.Base.{
  String, ◌≡◌, refl, sym, ap, ◌∙◌, subst, inl, inr, Bool, true, false, ◌&&◌, ◌||◌, Option, none,
  some, [], ◌∷◌, arith, if◌then◌else◌, Bool-cases, Option-cases, Dict, lookup, insert, IsUniqueKeys,
  lookup-insert, ◌==◌, nat_eq, string_eq, beq_refl, beq_sym, pair_eq,
}
use flawed.Config.Values.{dict, Fields, deep_merge, deep_merge_dicts, dict}
use flawed.Config.Schema.{
  not_bool_or_list, Result, ok, err, ◌>>=◌, Python, Enable, switched, only, ProviderEntry,
}
use flawed.Config.Parse.{parse_enable}
use flawed.Config.Merge.{merge_provider_entry, merge_enable}
use flawed.Config.Match.{apply_entry, apply_entries, enable_value}

abbrev Entries : Type 0
Entries = Dict String ProviderEntry

-- -- what a block means ---------------------------------------------------

abbrev pub is_list : Enable → Bool
is_list (switched b) = false
is_list (only names) = true

abbrev pub is_known : Option ProviderEntry → Bool
is_known none = false
is_known (some e) = true

-- some provider that is there already gets a list of modules to enable
abbrev pub any_refused : Entries → Entries → Bool
any_refused entries [] = false
any_refused entries ((pid, patch) ∷ block) =
    is_known (lookup pid entries) && is_list patch.enable || any_refused entries block

-- the entry of one provider, from its entry before and what the block has for it
abbrev pub overridden : Option ProviderEntry → Option ProviderEntry → Option ProviderEntry
overridden before none = before
overridden none (some patch) = some patch
overridden (some base) (some patch) =
    some (record { enable = patch.enable; config = deep_merge_dicts base.config patch.config })

-- what the result of a block is to be
abbrev pub Overridden : Entries → Entries → Result Entries → Type 0
Overridden entries block (ok next) =
    (any_refused entries block ≡ false)
    × ((pid : String) → lookup pid next ≡ overridden (lookup pid entries) (lookup pid block))
Overridden entries block (err e) = (any_refused entries block ≡ true) × (e ≡ not_bool_or_list)

-- -- one provider -----------------------------------------------------------

-- the entry that one provider of a block gets, or the error
abbrev entry_for : Option ProviderEntry → ProviderEntry → Result ProviderEntry
entry_for none patch = ok patch
entry_for (some base) patch = elim patch.enable [
  | switched b ↦
      ok (record { enable = switched b; config = deep_merge_dicts base.config patch.config })
  | only names ↦ err not_bool_or_list
]

apply_entry-entry_for :
    (py : Python) (entries : Entries) (pid : String) (enable : Enable) (config : Fields)
    → apply_entry py entries pid (record { enable = enable; config = config }) ≡ (do
      entry ← entry_for (lookup pid entries) (record { enable = enable; config = config })
      ok (insert pid entry entries))
unfolding apply_entry merge_provider_entry merge_enable parse_enable deep_merge
apply_entry-entry_for py entries pid enable config = elim (Option-cases (lookup pid entries)) [
  | inl missing ↦ rw (missing, apply_entry) refl
  | inr (base, found) ↦ rw (found, apply_entry) (known base enable)
]
  where
    known :
        (base : ProviderEntry) (enable : Enable)
        → (do
          entry ← merge_provider_entry py base (some (enable_value enable)) (some (dict config))
          ok (insert pid entry entries))
          ≡ (do
            entry ← entry_for (some base) (record { enable = enable; config = config })
            ok (insert pid entry entries))
    known base (switched b) = refl
    known base (only names) = refl

-- a write at a key that the block does not have refuses nothing
any_refused-insert :
    (pid : String) (entry : ProviderEntry) (entries block : Entries)
    → lookup pid block ≡ none
    → any_refused (insert pid entry entries) block ≡ any_refused entries block
unfolding lookup
any_refused-insert pid entry entries [] h = refl
any_refused-insert pid entry entries ((key, patch) ∷ block) h = elim (Bool-cases (pid == key)) [
  | inl same ↦ absurd (ground (arith, same, h))
  | inr differ ↦
      let rest = any_refused-insert pid entry entries block (ground (arith, differ, h)) in
      let other : lookup key (insert pid entry entries) ≡ lookup key entries =
        lookup-insert key pid entry entries ∙ rw (beq_sym key pid, differ) refl in
      ap
        (λ (o : Option ProviderEntry).
          is_known o && is_list patch.enable || any_refused (insert pid entry entries) block)
        other
      ∙ ap (λ (b : Bool). is_known (lookup key entries) && is_list patch.enable || b) rest
]

-- an entry that is written, and the rest of the block
Overridden-step :
    (entries block : Entries) (pid : String) (patch entry : ProviderEntry) (m : Result Entries)
    → lookup pid block ≡ none
    → (is_known (lookup pid entries) && is_list patch.enable) ≡ false
    → some entry ≡ overridden (lookup pid entries) (some patch)
    → Overridden (insert pid entry entries) block m
    → Overridden entries ((pid, patch) ∷ block) m
unfolding lookup
Overridden-step entries block pid patch entry (err e) absent accepted given (refused, kind) =
    (rw accepted (sym (any_refused-insert pid entry entries block absent) ∙ refused), kind)
Overridden-step entries block pid patch entry (ok next) absent accepted given (passed, at) = (
  rw accepted (sym (any_refused-insert pid entry entries block absent) ∙ passed),
  (λ key. at key ∙ elim (Bool-cases (key == pid)) [
    | inl same ↦
        let eq : key ≡ pid = (string_eq.beq_iff key pid).0 same in
        subst
          (λ (k : String).
            overridden (lookup k (insert pid entry entries)) (lookup k block)
            ≡ overridden (lookup k entries) (if k == pid then some patch else lookup k block))
          (sym eq) (rw (lookup-insert pid pid entry entries, beq_refl pid, absent) given)
    | inr differ ↦ rw (lookup-insert key pid entry entries, differ) refl
  ]),
)

module _ (py : Python) where
  -- the first provider of a block, given what the rest of the block does
  Overridden-entry_for :
      (entries block : Entries) (pid : String) (enable : Enable) (config : Fields)
      (before : Option ProviderEntry)
      → lookup pid block ≡ none
      → lookup pid entries ≡ before
      → ((next : Entries) → Overridden next block (apply_entries py next block))
      → Overridden entries ((pid, record { enable = enable; config = config }) ∷ block) (
          (do
            entry ← entry_for before (record { enable = enable; config = config })
            ok (insert pid entry entries))
          >>= (λ next. apply_entries py next block))
  Overridden-entry_for entries block pid enable config none absent missing rest =
      let patch : ProviderEntry = record { enable = enable; config = config } in
      Overridden-step entries block pid patch patch
        (apply_entries py (insert pid patch entries) block) absent (rw missing refl)
        (rw missing refl) (rest (insert pid patch entries))
  Overridden-entry_for entries block pid (switched b) config (some base) absent found rest =
      let entry : ProviderEntry = record {
        enable = switched b;
        config = deep_merge_dicts base.config config;
      } in
      Overridden-step entries block pid (record { enable = switched b; config = config }) entry
        (apply_entries py (insert pid entry entries) block) absent (rw found refl) (rw found refl)
        (rest (insert pid entry entries))
  Overridden-entry_for entries block pid (only names) config (some base) absent found rest =
      (rw found refl, refl)

  pub apply_entries-Overridden :
      (entries block : Entries)
      → IsUniqueKeys block
      → Overridden entries block (apply_entries py entries block)
  unfolding apply_entries lookup
  apply_entries-Overridden entries [] u = (refl, (λ pid. refl))
  apply_entries-Overridden entries ((pid, patch) ∷ block) (absent, u) =
      subst
        (λ (m : Result Entries).
          Overridden entries ((pid, patch) ∷ block) (m >>= (λ next. apply_entries py next block)))
        (sym (apply_entry-entry_for py entries pid patch.enable patch.config))
        (Overridden-entry_for entries block pid patch.enable patch.config (lookup pid entries)
          absent refl (λ next. apply_entries-Overridden next block u))
