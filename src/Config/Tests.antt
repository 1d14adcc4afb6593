-- ===== src/Config/Tests.antt =====
-- The theorems about the configuration at a small configuration with one override block.
use flawed.Base.{
  String, ◌≡◌, refl, ◌↔◌, true, false, none, some, [], ◌∷◌, arith, keep, Dict, lookup, insert,
  IsUniqueKeys, nat_eq, string_eq, contains, pair_eq,
}
use flawed.Config.Values.{
  float, number, nan, dict, Fields, no_fields, field, get, deep_merge, deep_merge_dicts,
  merge_value, put,
}
use flawed.Config.Schema.{not_bool_or_list, ok, err, switched, only, ProviderEntry, ResolvedConfig}
use flawed.Config.Settings.{merge_raw_into-settings}
use flawed.Config.Deep.{AllTidy, IsTidy, get_path, leaves, raw_wins, base_stays}
use flawed.Config.Parse.{parse_type_enrichment_config, parse_timeout_config, parse_enable}
use flawed.Config.Merge.{
  parse_sampler_hz, merge_entries, int, merge_providers, merge_type_enrichment, merge_timeouts,
  merge_rules, merge_provider_entry,
}
use flawed.Config.Files.{
  merge_raw_into, merge_effects, merge_groups, new_overrides, merge_meta_effects,
}
use flawed.Config.Match.{repo_ids, matches, apply_entries, apply_overrides, apply_types}
use flawed.Config.Limits.{IsBounded}
use flawed.Config.Bounds.{merge_raw_into-IsBounded, apply_overrides-IsBounded}
use flawed.Config.Types.{overlay, apply_types-overlay}
use flawed.Config.Overrides.{apply_overrides-keep, apply_overrides-IsFramed, IsFramed, apply_each}
use flawed.Config.Entries.{Overridden, apply_entries-Overridden}
use flawed.Config.Groups.{matches_iff, OneOf, InGroup, HasTag}
use flawed.Config.Providers.{merge_entries-lookup, merged_at}
use flawed.Config.Samples.{
  python, limits, more_queries, flask, web, in_web, block, a_config, here, a_file, merged,
}

merge_raw_into_run : merge_raw_into python a_config a_file ≡ ok merged
unfolding merge_raw_into get merge_providers merge_type_enrichment parse_type_enrichment_config
    merge_timeouts parse_timeout_config merge_effects merge_groups new_overrides merge_rules
    merge_meta_effects
merge_raw_into_run = refl

abbrev overridden : ResolvedConfig
overridden = record a_config {
  providers = record (a_config.providers) {
    entries =
        ("flask", record { enable = switched true; config = field "depth" (int 5) no_fields }) ∷ [];
  };
  type_enrichment = overlay more_queries limits;
}

apply_overrides_run : apply_overrides python a_config here ≡ ok overridden
unfolding apply_overrides matches lookup merge_provider_entry parse_enable merge_type_enrichment
    parse_type_enrichment_config get insert deep_merge put
apply_overrides_run = refl

a_config-IsBounded : IsBounded a_config
a_config-IsBounded = (
  (omega arith, omega arith, omega arith, omega arith, omega arith, omega arith, omega arith),
  (omega arith, tt, omega arith),
  tt,
)

-- a rate that is not a number is accepted
parse_sampler_hz_nan : parse_sampler_hz python (number (float nan "nan")) ≡ ok (float nan "nan")
unfolding parse_sampler_hz
parse_sampler_hz_nan = refl

-- -- witnesses --------------------------------------------------------

merge_raw_into-IsBounded_example : IsBounded merged
merge_raw_into-IsBounded_example =
    merge_raw_into-IsBounded python a_config merged a_file a_config-IsBounded merge_raw_into_run

apply_overrides-IsBounded_example : IsBounded overridden
apply_overrides-IsBounded_example =
    apply_overrides-IsBounded python a_config overridden here a_config-IsBounded apply_overrides_run

apply_types-overlay_example :
    apply_types python limits (some more_queries) ≡ ok (overlay more_queries limits)
apply_types-overlay_example =
    apply_types-overlay python limits more_queries a_config-IsBounded.0
      (omega arith, tt, tt, tt, omega arith, tt, tt)

apply_overrides-IsFramed_example : IsFramed a_config overridden
apply_overrides-IsFramed_example =
    apply_overrides-IsFramed python a_config overridden here apply_overrides_run

apply_overrides-keep_example :
    apply_overrides python a_config here
    ≡ apply_each python a_config (keep (λ b. matches b.match here web) (block ∷ []))
apply_overrides-keep_example = apply_overrides-keep python a_config here

-- one provider that is there, and a new one with a list of modules
abbrev patches : Dict String ProviderEntry
patches =
    ("flask", record { enable = switched true; config = field "depth" (int 5) no_fields })
    ∷ ("django", record { enable = only ("views" ∷ []); config = no_fields })
    ∷ []

apply_entries_run : apply_entries python a_config.providers.entries patches ≡ ok patches
unfolding apply_entries lookup insert merge_provider_entry parse_enable deep_merge put
apply_entries_run = refl

-- a list of modules for a provider that is there is refused
apply_entries_refused :
    apply_entries python patches
      (("flask", record { enable = only ("views" ∷ []); config = no_fields }) ∷ [])
    ≡ err not_bool_or_list
unfolding apply_entries lookup merge_provider_entry parse_enable
apply_entries_refused = refl

patches-IsUniqueKeys : IsUniqueKeys patches
unfolding lookup
patches-IsUniqueKeys = (refl, (refl, tt))

apply_entries-Overridden_example :
    Overridden a_config.providers.entries patches
      (apply_entries python a_config.providers.entries patches)
apply_entries-Overridden_example =
    apply_entries-Overridden python a_config.providers.entries patches patches-IsUniqueKeys

matches_iff_example : (matches in_web here web ≡ true) ↔ (
    OneOf [] (λ x. contains (repo_ids here) x ≡ true)
    × OneOf ("web" ∷ "other" ∷ []) (InGroup here web)
    × OneOf ("prod" ∷ []) (HasTag here web))
matches_iff_example = matches_iff in_web here web

abbrev settings : Fields
settings =
    field "flask" (dict (field "config" (dict (field "depth" (int 9) no_fields)) no_fields))
      no_fields

abbrev before : Dict String ProviderEntry
before = ("flask", flask) ∷ []

abbrev deeper : Dict String ProviderEntry
deeper =
    ("flask", record { enable = switched false; config = field "depth" (int 9) no_fields }) ∷ []

merge_entries_run : merge_entries python before settings ≡ ok deeper
unfolding merge_entries get put deep_merge deep_merge_dicts lookup insert
merge_entries_run = refl

settings_unique : get "flask" no_fields ≡ none
unfolding get
settings_unique = refl

merge_entries-lookup_example :
    merged_at python (lookup "flask" before) (get "flask" settings) ≡ ok (lookup "flask" deeper)
merge_entries-lookup_example =
    merge_entries-lookup python "flask" before deeper settings refl (settings_unique, tt)
      merge_entries_run

abbrev earlier : Fields
earlier =
    field "flask"
      (dict
        (field "config" (dict (field "depth" (int 3) (field "width" (int 4) no_fields))) no_fields))
      no_fields

settings-IsTidy : IsTidy (dict settings)
unfolding IsTidy get
settings-IsTidy = (refl, (refl, (refl, tt, tt), tt), tt)

depth_set : get_path ("flask" ∷ "config" ∷ "depth" ∷ []) (dict settings) ≡ some (int 9)
unfolding get_path get
depth_set = refl

width_left : leaves ("flask" ∷ "config" ∷ "width" ∷ []) (dict settings) ≡ true
unfolding leaves get
width_left = refl

width_set : get_path ("flask" ∷ "config" ∷ "width" ∷ []) (dict earlier) ≡ some (int 4)
unfolding get_path get
width_set = refl

raw_wins_example :
    get_path ("flask" ∷ "config" ∷ "depth" ∷ []) (merge_value (some (dict earlier)) (dict settings))
    ≡ some (int 9)
raw_wins_example =
    raw_wins ("flask" ∷ "config" ∷ "depth" ∷ []) (some (dict earlier)) (dict settings) (int 9)
      settings-IsTidy refl depth_set

base_stays_example :
    get_path ("flask" ∷ "config" ∷ "width" ∷ []) (merge_value (some (dict earlier)) (dict settings))
    ≡ some (int 4)
base_stays_example =
    base_stays ("flask" ∷ "config" ∷ "width" ∷ []) (dict earlier) (dict settings) (int 4)
      settings-IsTidy width_left width_set

-- a file that sets `depth` of the provider that is there
abbrev deeper_file : Fields
deeper_file = field "providers" (dict settings) no_fields

abbrev deeper_config : ResolvedConfig
deeper_config = record a_config { providers = record (a_config.providers) { entries = deeper } }

deeper_file_run : merge_raw_into python a_config deeper_file ≡ ok deeper_config
unfolding merge_raw_into get merge_providers merge_type_enrichment merge_timeouts merge_effects
    merge_groups new_overrides merge_rules merge_meta_effects merge_entries put deep_merge
    deep_merge_dicts lookup insert
deeper_file_run = refl

providers_set : get "providers" deeper_file ≡ some (dict settings)
unfolding get
providers_set = refl

flask_set :
    get "flask" settings
    ≡ some (dict (field "config" (dict (field "depth" (int 9) no_fields)) no_fields))
unfolding get
flask_set = refl

config_set :
    get "config" (field "config" (dict (field "depth" (int 9) no_fields)) no_fields)
    ≡ some (dict (field "depth" (int 9) no_fields))
unfolding get
config_set = refl

depth_given : get_path ("depth" ∷ []) (dict (field "depth" (int 9) no_fields)) ≡ some (int 9)
unfolding get_path get
depth_given = refl

settings-AllTidy : AllTidy settings
unfolding IsTidy
settings-AllTidy = settings-IsTidy

merge_raw_into-settings_example :
    (entry : ProviderEntry) × (lookup "flask" deeper ≡ some entry)
    × (get_path ("depth" ∷ []) (dict entry.config) ≡ some (int 9))
merge_raw_into-settings_example =
    merge_raw_into-settings python a_config deeper_config deeper_file settings
      (field "config" (dict (field "depth" (int 9) no_fields)) no_fields)
      (field "depth" (int 9) no_fields) "flask" ("depth" ∷ []) (int 9) refl settings-AllTidy
      providers_set flask_set config_set depth_given refl deeper_file_run
