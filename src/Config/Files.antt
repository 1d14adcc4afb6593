-- ===== src/Config/Files.antt =====
-- `merge_raw_into` of src/flawed/_config/merge.py: a whole file over a configuration.
use flawed.Base.{
  String, true, Option, none, some, List, [], ◌∷◌, ◌++◌, if◌then◌else◌, Dict, insert, update_all,
  nat_eq, string_eq, pair_eq,
}
use flawed.Config.Values.{
  Value, null, bool, number, list_of, tuple_of, dict, Items, no_items, item, Fields, no_fields,
  field, get, as_dict,
}
use flawed.Config.Schema.{
  uncaught, Result, ok, err, ◌>>=◌, Python, GroupDef, OverrideBlock, EffectRoutingEntry,
  ResolvedConfig,
}
use flawed.Config.Parse.{str_of, parse_cache_invalidation, parse_group_def}
use flawed.Config.Blocks.{is_truthy, entry_dict, parse_override_block, parse_effect_routing}
use flawed.Config.Merge.{
  merge_type_enrichment, merge_timeouts, parse_sampler_hz, merge_rules, merge_providers,
}

-- a setting that the file replaces if it has the key
abbrev replaced : {A : Type 0} → A → (Value → A) → Option Value → A
replaced base f none = base
replaced base f (some v) = f v

abbrev pub parsed : {A : Type 0} → A → (Value → Result A) → Option Value → Result A
parsed base f none = ok base
parsed base f (some v) = f v

-- `(raw.get(key) or {}).items()`
abbrev pub items_at : String → Option Value → Result Fields
items_at key none = ok no_fields
items_at key (some (dict d)) = ok d
items_at key (some v) = if is_truthy v then err (uncaught key) else ok no_fields

module _ (py : Python) where
  abbrev optional_log_path : Value → Option String
  optional_log_path null = none
  optional_log_path v = some (py.expand (str_of py v))

  unfoldable pub merge_meta_effects : Dict String String → Fields → Dict String String
  merge_meta_effects effects no_fields = effects
  merge_meta_effects effects (field name expr raw) =
      merge_meta_effects (insert name (str_of py expr) effects) raw

  unfoldable pub merge_groups : Dict String GroupDef → Fields → Result (Dict String GroupDef)
  merge_groups groups no_fields = ok groups
  merge_groups groups (field name gdef raw) = elim (entry_dict gdef) [
    | none ↦ merge_groups groups raw
    | some d ↦ (do group ← parse_group_def py d; merge_groups (insert name group groups) raw)
  ]

  unfoldable pub merge_effects :
      Dict String EffectRoutingEntry → Option Value → Result (Dict String EffectRoutingEntry)
  merge_effects routing raw = elim (as_dict raw) [
    | none ↦ ok routing
    | some d ↦ (do entries ← parse_effect_routing py d; ok (update_all routing entries))
  ]

  unfoldable pub parse_overrides : Items → Result (List OverrideBlock)
  parse_overrides no_items = ok []
  parse_overrides (item v xs) = elim (entry_dict v) [
    | none ↦ parse_overrides xs
    | some d ↦ (do block ← parse_override_block py d; rest ← parse_overrides xs; ok (block ∷ rest))
  ]

  -- `raw.get("overrides") or []`: the keys of a dict and the characters of a text are no dicts
  unfoldable pub new_overrides : Option Value → Result (List OverrideBlock)
  unfolding parse_overrides
  new_overrides (some (list_of xs)) = parse_overrides xs
  new_overrides (some (tuple_of xs)) = parse_overrides xs
  new_overrides (some (number n)) =
      if is_truthy (number n) then err (uncaught "overrides") else ok []
  new_overrides (some (bool true)) = err (uncaught "overrides")
  new_overrides _ = ok []

  unfoldable pub merge_raw_into : ResolvedConfig → Fields → Result ResolvedConfig
  merge_raw_into base raw = do
    cache ← parsed base.cache_invalidation parse_cache_invalidation (get "cache_invalidation" raw)
    hz ←
        parsed base.observability_sampler_hz (parse_sampler_hz py)
          (get "observability_sampler_hz" raw)
    providers ← merge_providers py base.providers (get "providers" raw)
    types ← merge_type_enrichment base.type_enrichment (get "type_enrichment" raw)
    timeouts ← merge_timeouts base.timeouts (get "timeouts" raw)
    effects ← items_at "meta_effects" (get "meta_effects" raw)
    routing ← merge_effects base.effect_routing (get "effects" raw)
    defs ← items_at "groups" (get "groups" raw)
    groups ← merge_groups base.groups defs
    overrides ← new_overrides (get "overrides" raw)
    ok (record {
      data_dir = replaced base.data_dir (λ v. py.expand (str_of py v)) (get "data_dir" raw);
      state_dir = replaced base.state_dir (λ v. py.expand (str_of py v)) (get "state_dir" raw);
      repo_local = replaced base.repo_local is_truthy (get "repo_local" raw);
      cache_invalidation = cache;
      observability_enabled =
          replaced base.observability_enabled is_truthy (get "observability_enabled" raw);
      observability_log_path =
          replaced base.observability_log_path optional_log_path (get "observability_log_path" raw);
      observability_sampler_hz = hz;
      providers = providers;
      rules = merge_rules py base.rules (get "rules" raw);
      type_enrichment = types;
      timeouts = timeouts;
      meta_effects = merge_meta_effects base.meta_effects effects;
      effect_routing = routing;
      groups = groups;
      overrides = base.overrides ++ overrides;
    })
