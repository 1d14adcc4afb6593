-- ===== src/Config/Bounds.antt =====
-- A file and the override blocks keep the limits of a configuration: src/flawed/_config/merge.py,
-- merge_raw_into, and src/flawed/_config/match.py, apply_overrides.
use flawed.Base.{
  String, ◌≡◌, inl, inr, Option, none, some, List, [], ◌∷◌, Bool-cases, Dict, nat_eq, string_eq,
  pair_eq,
}
use flawed.Config.Values.{Value, Fields, get}
use flawed.Config.Schema.{
  Result, ok, Python, TypeEnrichmentConfig, OverrideBlock, ResolvedConfig, TypeEnrichmentOverride,
  GroupDef,
}
use flawed.Config.Parse.{parse_cache_invalidation}
use flawed.Config.Merge.{merge_type_enrichment, merge_timeouts, parse_sampler_hz, merge_providers}
use flawed.Config.Files.{
  merge_raw_into, merge_effects, merge_groups, new_overrides, items_at, parsed,
}
use flawed.Config.Match.{
  RepoIdentity, matches, apply_entries, apply_types, apply_single, apply_blocks, apply_overrides,
}
use flawed.Config.Limits.{
  any_then, Within, Within-bind, Within-at, AllPositive, AllTimeouts, IsRate, IsBounded,
  merge_type_enrichment-Within, merge_timeouts-Within, parse_sampler_hz-Within,
}

parsed-Within :
    {A : Type 0} (P : A → Type 0) (base : A) (f : Value → Result A) (raw : Option Value)
    → P base
    → ((v : Value) → Within P (f v))
    → Within P (parsed base f raw)
parsed-Within P base f none h k = h
parsed-Within P base f (some v) h k = k v

module _ (py : Python) where
  merge_raw_into-Within :
      (base : ResolvedConfig) (raw : Fields)
      → IsBounded base
      → Within IsBounded (merge_raw_into py base raw)
  unfolding merge_raw_into
  merge_raw_into-Within base raw (h, t, r) =
      any_then IsBounded
        (parsed base.cache_invalidation parse_cache_invalidation (get "cache_invalidation" raw)) _
        (λ _.
          Within-bind IsRate IsBounded
            (parsed base.observability_sampler_hz (parse_sampler_hz py)
              (get "observability_sampler_hz" raw))
            _ (parsed-Within IsRate _ _ _ r (parse_sampler_hz-Within py))
            (λ _ rate.
              any_then IsBounded (merge_providers py base.providers (get "providers" raw)) _ (λ _.
                Within-bind AllPositive IsBounded
                  (merge_type_enrichment base.type_enrichment (get "type_enrichment" raw)) _
                  (merge_type_enrichment-Within _ _ h)
                  (λ _ types.
                    Within-bind AllTimeouts IsBounded
                      (merge_timeouts base.timeouts (get "timeouts" raw)) _
                      (merge_timeouts-Within _ _ t)
                      (λ _ timeouts.
                        any_then IsBounded (items_at "meta_effects" (get "meta_effects" raw)) _
                          (λ _.
                            any_then IsBounded
                              (merge_effects py base.effect_routing (get "effects" raw)) _
                              (λ _.
                                any_then IsBounded (items_at "groups" (get "groups" raw)) _ (λ defs.
                                  any_then IsBounded (merge_groups py base.groups defs) _ (λ _.
                                    any_then IsBounded (new_overrides py (get "overrides" raw)) _
                                      (λ _. (types, timeouts, rate)))))))))))

  -- A file that is accepted leaves every limit of the type enrichment at least 1, every timeout unset or at
  -- least 1, and the sampling rate a float that is not below 0 (NaN, which the code accepts, is one), if the
  -- configuration that it is merged into has them so.
  pub merge_raw_into-IsBounded :
      (base next : ResolvedConfig) (raw : Fields)
      → IsBounded base
      → merge_raw_into py base raw ≡ ok next
      → IsBounded next
  merge_raw_into-IsBounded base next raw h e =
      Within-at IsBounded (merge_raw_into py base raw) next (merge_raw_into-Within base raw h) e

  apply_types-Within :
      (types : TypeEnrichmentConfig) (block : Option TypeEnrichmentOverride)
      → AllPositive types
      → Within AllPositive (apply_types py types block)
  unfolding apply_types
  apply_types-Within types none h = h
  apply_types-Within types (some block) h = merge_type_enrichment-Within types _ h

  apply_single-Within :
      (config : ResolvedConfig) (block : OverrideBlock)
      → IsBounded config
      → Within IsBounded (apply_single py config block)
  unfolding apply_single
  apply_single-Within config block (h, t, r) =
      any_then IsBounded (apply_entries py config.providers.entries block.providers) _ (λ _.
        Within-bind AllPositive IsBounded
          (apply_types py config.type_enrichment block.type_enrichment) _ (apply_types-Within _ _ h)
          (λ _ types. (types, t, r)))

  apply_blocks-Within :
      (groups : Dict String GroupDef) (identity : RepoIdentity) (config : ResolvedConfig)
      (blocks : List OverrideBlock)
      → IsBounded config
      → Within IsBounded (apply_blocks py groups identity config blocks)
  unfolding apply_blocks
  apply_blocks-Within groups identity config [] h = h
  apply_blocks-Within groups identity config (block ∷ blocks) h =
      elim (Bool-cases (matches block.match identity groups)) [
        | inl applies ↦
            rw (applies, Within)
              (Within-bind IsBounded IsBounded (apply_single py config block) _
                (apply_single-Within config block h)
                (λ next held. apply_blocks-Within groups identity next blocks held))
        | inr other ↦ rw (other, Within) (apply_blocks-Within groups identity config blocks h)
      ]

  -- Override blocks keep these bounds, whichever of them apply: if they raise no error and the configuration
  -- has every limit of the type enrichment at least 1, every timeout unset or at least 1, and a float not
  -- below 0 (NaN is one) as sampling rate, the result has them so too.
  pub apply_overrides-IsBounded :
      (config next : ResolvedConfig) (identity : RepoIdentity)
      → IsBounded config
      → apply_overrides py config identity ≡ ok next
      → IsBounded next
  unfolding apply_overrides
  apply_overrides-IsBounded config next identity h e =
      Within-at IsBounded (apply_blocks py config.groups identity config config.overrides) next
        (apply_blocks-Within config.groups identity config config.overrides h) e
