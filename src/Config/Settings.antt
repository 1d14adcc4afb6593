-- ===== src/Config/Settings.antt =====
-- A provider's settings in a file reach the configuration: merge_raw_into of src/flawed/_config/merge.py,
-- through _merge_providers and the recursive merge.
use flawed.Base.{
  String, ◌≡◌, refl, sym, ap, ◌∙◌, true, false, ◌||◌, Option, none, some, List, lookup, ◌==◌,
  nat_eq, string_eq, pair_eq,
}
use flawed.Config.Values.{bool, Value, dict, Fields, no_fields, field, get, as_dict, deep_merge}
use flawed.Config.Schema.{
  Result, ok, err, ◌>>=◌, Python, ProviderEntry, ProviderConfig, ResolvedConfig,
}
use flawed.Config.Parse.{get_or_default, parse_cache_invalidation, parse_enable}
use flawed.Config.Blocks.{parse_provider_entry}
use flawed.Config.Merge.{
  merge_type_enrichment, merge_timeouts, parse_sampler_hz, merge_providers, merge_entries,
  merge_enable, merge_provider_entry,
}
use flawed.Config.Files.{
  merge_raw_into, merge_effects, merge_groups, new_overrides, items_at, parsed,
}
use flawed.Config.Limits.{any_then, Within, Within-bind, Within-at}
use flawed.Config.Deep.{IsTidy, AllTidy, get_path, raw_wins, get-IsTidy, merge_value-dicts}
use flawed.Config.Providers.{IsUniqueFields, merged_at, merge_entries-lookup}

Within-self : {A : Type 0} (m : Result A) → Within (λ a. m ≡ ok a) m
Within-self (ok a) = refl
Within-self (err e) = tt

AllTidy-IsUniqueFields : (d : Fields) → AllTidy d → IsUniqueFields d
unfolding IsTidy
AllTidy-IsUniqueFields no_fields u = tt
AllTidy-IsUniqueFields (field k v d) u = (u.0, AllTidy-IsUniqueFields d u.2)

tidy_dict :
    (k : String) (d given : Fields) → AllTidy d → get k d ≡ some (dict given) → AllTidy given
unfolding IsTidy
tidy_dict k d given u e = get-IsTidy k d (dict given) u e

-- what holds of an entry holds of the entry that is stored
stored_entry :
    (P : ProviderEntry → Type 0) (m : Result ProviderEntry) (o : Option ProviderEntry)
    → Within P m
    → (do entry ← m; ok (some entry)) ≡ ok o
    → (entry : ProviderEntry) × (o ≡ some entry) × P entry
stored_entry P (ok entry) none h e = cc
stored_entry P (ok entry) (some other) h e =
    (entry, (let eq : some other ≡ some entry = cc in eq), h)
stored_entry P (err e) o h eq = cc

module _ (py : Python) where
  -- the settings that an entry of a file gives stand in the provider's entry
  abbrev Stands : List String → Value → ProviderEntry → Type 0
  Stands path leaf entry = get_path path (dict entry.config) ≡ some leaf

  parse_provider_entry-Stands :
      (d given : Fields) (path : List String) (leaf : Value)
      → get "config" d ≡ some (dict given)
      → get_path path (dict given) ≡ some leaf
      → Within (Stands path leaf) (parse_provider_entry py d)
  unfolding parse_provider_entry
  parse_provider_entry-Stands d given path leaf has e =
      any_then (Stands path leaf) (parse_enable py (get_or_default "enable" (bool true) d)) _
        (λ _. rw has e)

  merge_provider_entry-Stands :
      (base : ProviderEntry) (enable : Option Value) (given : Fields) (path : List String)
      (leaf : Value)
      → AllTidy given
      → as_dict (some leaf) ≡ none
      → get_path path (dict given) ≡ some leaf
      → Within (Stands path leaf) (merge_provider_entry py base enable (some (dict given)))
  unfolding merge_provider_entry deep_merge IsTidy
  merge_provider_entry-Stands base enable given path leaf u plain e =
      any_then (Stands path leaf) (merge_enable py base.enable enable) _ (λ _.
        ap (get_path path) (sym (merge_value-dicts base.config given))
        ∙ raw_wins path (some (dict base.config)) (dict given) leaf u plain e)

  merged_at-Stands :
      (before o : Option ProviderEntry) (d given : Fields) (path : List String) (leaf : Value)
      → get "config" d ≡ some (dict given)
      → AllTidy given
      → as_dict (some leaf) ≡ none
      → get_path path (dict given) ≡ some leaf
      → merged_at py before (some (dict d)) ≡ ok o
      → (entry : ProviderEntry) × (o ≡ some entry) × Stands path leaf entry
  merged_at-Stands none o d given path leaf has u plain e eq =
      stored_entry (Stands path leaf) (parse_provider_entry py d) o
        (parse_provider_entry-Stands d given path leaf has e) eq
  merged_at-Stands (some base) o d given path leaf has u plain e eq =
      stored_entry (Stands path leaf)
        (merge_provider_entry py base (get "enable" d) (get "config" d)) o
        (rw has (merge_provider_entry-Stands base (get "enable" d) given path leaf u plain e)) eq

  -- the providers of the result are those of the merge
  merge_raw_into-providers :
      (base : ResolvedConfig) (raw : Fields)
      → Within
          (λ next. merge_providers py base.providers (get "providers" raw) ≡ ok next.providers)
          (merge_raw_into py base raw)
  unfolding merge_raw_into
  merge_raw_into-providers base raw =
      let Ends : ResolvedConfig → Type 0 =
        λ next. merge_providers py base.providers (get "providers" raw) ≡ ok next.providers in
      any_then Ends
        (parsed base.cache_invalidation parse_cache_invalidation (get "cache_invalidation" raw)) _
        (λ _.
          any_then Ends
            (parsed base.observability_sampler_hz (parse_sampler_hz py)
              (get "observability_sampler_hz" raw))
            _
            (λ _.
              Within-bind (λ p. merge_providers py base.providers (get "providers" raw) ≡ ok p) Ends
                (merge_providers py base.providers (get "providers" raw)) _ (Within-self _)
                (λ _ same.
                  any_then Ends
                    (merge_type_enrichment base.type_enrichment (get "type_enrichment" raw)) _
                    (λ _. any_then Ends (merge_timeouts base.timeouts (get "timeouts" raw)) _ (λ _.
                      any_then Ends (items_at "meta_effects" (get "meta_effects" raw)) _ (λ _.
                        any_then Ends (merge_effects py base.effect_routing (get "effects" raw)) _
                          (λ _. any_then Ends (items_at "groups" (get "groups" raw)) _ (λ defs.
                            any_then Ends (merge_groups py base.groups defs) _ (λ _.
                              any_then Ends (new_overrides py (get "overrides" raw)) _
                                (λ _. same))))))))))

  merge_providers-entries :
      (base next : ProviderConfig) (providers : Fields)
      → merge_providers py base (some (dict providers)) ≡ ok next
      → merge_entries py base.entries providers ≡ ok next.entries
  unfolding merge_providers merge_entries
  merge_providers-entries base next no_fields e = cc
  merge_providers-entries base next (field k v d) e =
      Within-at (λ (p : ProviderConfig). merge_entries py base.entries (field k v d) ≡ ok p.entries)
        (merge_providers py base (some (dict (field k v d)))) next
        (Within-bind (λ entries. merge_entries py base.entries (field k v d) ≡ ok entries) _
          (merge_entries py base.entries (field k v d)) _ (Within-self _) (λ _ same. same))
        e

  -- A setting that an accepted file gives a provider stands in the configuration that results, at its path of
  -- keys: the file's value wins over what the earlier files gave the provider, whether they knew it or not. The
  -- value is no dict (a list replaces a list), and no dict of the file's providers has a key twice.
  pub merge_raw_into-settings :
      (base next : ResolvedConfig) (raw providers block given : Fields) (pid : String)
      (path : List String) (leaf : Value)
      → (pid == "base_dir" || pid == "paths") ≡ false
      → AllTidy providers
      → get "providers" raw ≡ some (dict providers)
      → get pid providers ≡ some (dict block)
      → get "config" block ≡ some (dict given)
      → get_path path (dict given) ≡ some leaf
      → as_dict (some leaf) ≡ none
      → merge_raw_into py base raw ≡ ok next
      → (entry : ProviderEntry) × (lookup pid next.providers.entries ≡ some entry)
        × (get_path path (dict entry.config) ≡ some leaf)
  merge_raw_into-settings base next raw providers block given pid path leaf h u at_file at_pid
        at_config e plain accepted =
      let merged : merge_providers py base.providers (some (dict providers)) ≡ ok next.providers =
        ap (merge_providers py base.providers) (sym at_file)
        ∙ Within-at
            (λ (n : ResolvedConfig).
              merge_providers py base.providers (get "providers" raw) ≡ ok n.providers)
            (merge_raw_into py base raw) next (merge_raw_into-providers base raw) accepted in
      merged_at-Stands (lookup pid base.providers.entries) (lookup pid next.providers.entries) block
        given path leaf at_config
        (tidy_dict "config" block given (tidy_dict pid providers block u at_pid) at_config) plain e
        (ap (merged_at py (lookup pid base.providers.entries)) (sym at_pid)
          ∙ merge_entries-lookup py pid base.providers.entries next.providers.entries providers h
              (AllTidy-IsUniqueFields providers u)
              (merge_providers-entries base.providers next.providers providers merged))
