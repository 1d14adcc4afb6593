-- ===== src/Config/Blocks.antt =====
-- The parsers of src/flawed/_config/schema.py for the blocks that a file holds: providers, rules, effects
-- and overrides.
use flawed.Base.{
  zero, String, Bool, true, false, not, ◌||◌, Option, none, some, [], ◌∷◌, if◌then◌else◌, Dict,
  ◌==◌, nat_eq, string_eq, pair_eq,
}
use flawed.Config.Values.{
  nil, nat, float, Value, null, bool, number, text, list_of, tuple_of, dict, no_items, item, Fields,
  no_fields, field, get, as_dict,
}
use flawed.Config.Schema.{
  not_mapping, uncaught, Result, ok, err, ◌>>=◌, Python, ProviderEntry, ProviderConfig, RuleConfig,
  OverrideBlock, EffectRoutingEntry, TypeEnrichmentOverride,
}
use flawed.Config.Parse.{
  get_or_default, as_str_tuple, as_path_tuple, parse_enable, parse_match_criteria,
  parse_type_enrichment_override,
}

-- `bool(value)`
abbrev pub is_truthy : Value → Bool
is_truthy null = false
is_truthy (bool b) = b
is_truthy (number (nat zero)) = false
is_truthy (number (float nil s)) = false
is_truthy (number n) = true
is_truthy (text s) = not (s == "")
is_truthy (list_of no_items) = false
is_truthy (list_of (item v xs)) = true
is_truthy (tuple_of no_items) = false
is_truthy (tuple_of (item v xs)) = true
is_truthy (dict no_fields) = false
is_truthy (dict (field k v d)) = true

-- `isinstance(val, dict)` of each entry; the others are passed over
abbrev pub entry_dict : Value → Option Fields
entry_dict v = as_dict (some v)

module _ (py : Python) where
  -- `dict(raw.get("config", {}))`
  abbrev pub config_dict : Option Value → Result Fields
  config_dict none = ok no_fields
  config_dict (some (dict d)) = ok d
  config_dict (some v) = elim (py.pairs v) [ none ↦ err (uncaught "config") | some d ↦ ok d ]

  unfoldable pub parse_provider_entry : Fields → Result ProviderEntry
  parse_provider_entry raw = do
    enable ← parse_enable py (get_or_default "enable" (bool true) raw)
    config ← config_dict (get "config" raw)
    ok (record { enable = enable; config = config })

  -- `Path(raw).expanduser() if raw else None`
  abbrev pub optional_path : Option Value → Result (Option String)
  optional_path none = ok none
  optional_path (some (text s)) = if s == "" then ok none else ok (some (py.expand s))
  optional_path (some v) = if is_truthy v then err (uncaught "base_dir") else ok none

  unfoldable pub parse_rule_config : Fields → Result RuleConfig
  parse_rule_config raw = do
    base_dir ← optional_path (get "base_dir" raw)
    paths ← as_path_tuple py "rules.paths" (get "paths" raw)
    include ← as_str_tuple py "rules.include" (get "include" raw)
    exclude ← as_str_tuple py "rules.exclude" (get "exclude" raw)
    include_regex ← as_str_tuple py "rules.include_regex" (get "include_regex" raw)
    exclude_regex ← as_str_tuple py "rules.exclude_regex" (get "exclude_regex" raw)
    ok (record {
      base_dir = base_dir;
      paths = paths;
      include = include;
      exclude = exclude;
      include_regex = include_regex;
      exclude_regex = exclude_regex;
    })

  -- the loop of `parse_override_block` over its providers
  unfoldable pub parse_entries : Fields → Result (Dict String ProviderEntry)
  unfolding parse_provider_entry
  parse_entries no_fields = ok []
  parse_entries (field key val raw) = elim (entry_dict val) [
    | none ↦ parse_entries raw
    | some block ↦ (do
      entry ← parse_provider_entry block
      rest ← parse_entries raw
      ok ((key, entry) ∷ rest))
  ]

  -- the loop of `parse_provider_config`, which passes over two keys
  unfoldable pub parse_provider_entries : Fields → Result (Dict String ProviderEntry)
  unfolding parse_provider_entry
  parse_provider_entries no_fields = ok []
  parse_provider_entries (field key val raw) =
      let rest = parse_provider_entries raw in
      if key == "base_dir" || key == "paths" then rest else elim (entry_dict val) [
        | none ↦ rest
        | some block ↦ (do
          entry ← parse_provider_entry block
          others ← rest
          ok ((key, entry) ∷ others))
      ]

  unfoldable pub parse_provider_config : Fields → Result ProviderConfig
  parse_provider_config raw = do
    base_dir ← optional_path (get "base_dir" raw)
    paths ← as_path_tuple py "providers.paths" (get "paths" raw)
    entries ← parse_provider_entries raw
    ok (record { base_dir = base_dir; paths = paths; entries = entries })

  -- a part of a block that must be a dict, or be absent
  abbrev pub dict_at : String → Option Value → Result Fields
  dict_at key none = ok no_fields
  dict_at key (some (dict d)) = ok d
  dict_at key (some v) = err (uncaught key)

  unfoldable pub parse_override_rules : Option Value → Result (Option RuleConfig)
  parse_override_rules raw = elim (as_dict raw) [
    | none ↦ ok none
    | some d ↦ (do rules ← parse_rule_config d; ok (some rules))
  ]

  unfoldable pub parse_override_types : Option Value → Result (Option TypeEnrichmentOverride)
  parse_override_types none = ok none
  parse_override_types (some null) = ok none
  parse_override_types (some (dict no_fields)) = ok none
  parse_override_types (some (dict (field k v d))) = do
    parsed ← parse_type_enrichment_override (field k v d)
    ok (some parsed)
  parse_override_types (some _) = err (not_mapping "overrides[].type_enrichment")

  unfoldable pub parse_override_block : Fields → Result OverrideBlock
  parse_override_block raw = do
    criteria ← dict_at "match" (get "match" raw)
    match ← parse_match_criteria py criteria
    blocks ← dict_at "providers" (get "providers" raw)
    providers ← parse_entries blocks
    rules ← parse_override_rules (get "rules" raw)
    types ← parse_override_types (get "type_enrichment" raw)
    ok (record { match = match; providers = providers; rules = rules; type_enrichment = types })

  unfoldable pub parse_effect_routing : Fields → Result (Dict String EffectRoutingEntry)
  parse_effect_routing no_fields = ok []
  parse_effect_routing (field category val raw) = elim (entry_dict val) [
    | none ↦ parse_effect_routing raw
    | some entry ↦ (do
      from_providers ←
          as_str_tuple py (category) (some (get_or_default "from" (list_of no_items) entry))
      rest ← parse_effect_routing raw
      ok ((category, record { from_providers = from_providers }) ∷ rest))
  ]
