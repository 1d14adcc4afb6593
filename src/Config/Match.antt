-- ===== src/Config/Match.antt =====
-- The override blocks that apply to a repository, src/flawed/_config/match.py.
use flawed.Base.{
  String, Bool, true, false, ◌&&◌, ◌||◌, Option, none, some, List, [], ◌∷◌, if◌then◌else◌, add,
  to_set_from, Dict, lookup, insert, nat_eq, string_eq, contains, pair_eq,
}
use flawed.Config.Values.{
  Value, bool, text, list_of, tuple_of, dict, Items, no_items, item, Fields, no_fields, field,
}
use flawed.Config.Schema.{
  Result, ok, ◌>>=◌, Python, Enable, switched, only, ProviderEntry, PathItem, token, path,
  RuleConfig, TypeEnrichmentConfig, TypeEnrichmentOverride, GroupDef, MatchCriteria, OverrideBlock,
  ResolvedConfig,
}
use flawed.Config.Merge.{int, merge_type_enrichment, merge_rules, merge_provider_entry}

-- `RepoIdentity` of paths.py; its `hash` is not read here
pub record RepoIdentity : Type 0 where
  pub canonical : String
  pub path : String

abbrev pub repo_ids : RepoIdentity → List String
repo_ids identity = identity.canonical ∷ identity.path ∷ []

-- `bool(xs.intersection(ys))`
abbrev pub meets : List String → List String → Bool
meets [] ys = false
meets (x ∷ xs) ys = contains ys x || meets xs ys

unfoldable pub groups_for : RepoIdentity → Dict String GroupDef → List String
groups_for identity [] = []
groups_for identity ((name, gdef) ∷ groups) =
    let rest = groups_for identity groups in
    if meets (repo_ids identity) gdef.repos then add rest name else rest

unfoldable pub tags_for : RepoIdentity → Dict String GroupDef → List String
tags_for identity [] = []
tags_for identity ((name, gdef) ∷ groups) =
    let rest = tags_for identity groups in
    if meets (repo_ids identity) gdef.repos then to_set_from rest gdef.tags else rest

-- `if criteria.<field>:` and the test of that field
abbrev pub passes : List String → List String → Bool
passes [] found = true
passes (x ∷ xs) found = meets found (x ∷ xs)

unfoldable pub matches : MatchCriteria → RepoIdentity → Dict String GroupDef → Bool
unfolding groups_for tags_for
matches criteria identity groups =
    passes criteria.repo (repo_ids identity)
    && passes criteria.group (groups_for identity groups)
    && passes criteria.tag (tags_for identity groups)

-- a Python value for a typed setting
abbrev pub texts : List String → Items
texts [] = no_items
texts (s ∷ ss) = item (text s) (texts ss)

abbrev pub enable_value : Enable → Value
enable_value (switched b) = bool b
enable_value (only names) = tuple_of (texts names)

abbrev path_value : PathItem → Value
path_value (token s) = text s
path_value (path p) = text p

abbrev path_values : List PathItem → Items
path_values [] = no_items
path_values (p ∷ ps) = item (path_value p) (path_values ps)

-- `if xs: raw[key] = list(xs)`
abbrev with_items : String → Items → Fields → Fields
with_items key no_items rest = rest
with_items key (item v xs) rest = field key (list_of (item v xs)) rest

abbrev pub with_option : {A : Type 0} → String → (A → Value) → Option A → Fields → Fields
with_option key f none rest = rest
with_option key f (some a) rest = field key (f a) rest

abbrev pub rules_override_raw : RuleConfig → Fields
rules_override_raw br = with_option "base_dir" text br.base_dir (
    with_items "paths" (path_values br.paths) (
      with_items "include" (texts br.include) (
        with_items "exclude" (texts br.exclude) (
          with_items "include_regex" (texts br.include_regex)
            (with_items "exclude_regex" (texts br.exclude_regex) no_fields)))))

unfoldable pub type_enrichment_override_raw : TypeEnrichmentOverride → Fields
type_enrichment_override_raw block = with_option "enable_mypy_batch" bool block.enable_mypy_batch (
    with_option "basedpyright_max_queries" int block.basedpyright_max_queries (
      with_option "basedpyright_max_probe_files" int block.basedpyright_max_probe_files (
        with_option "basedpyright_max_source_files" int block.basedpyright_max_source_files (
          with_option "basedpyright_max_workspace_bytes" int block.basedpyright_max_workspace_bytes
            (with_option "basedpyright_timeout_seconds" int block.basedpyright_timeout_seconds (
              with_option "mypy_batch_timeout_seconds" int block.mypy_batch_timeout_seconds
                (with_option "mypy_batch_max_files" int block.mypy_batch_max_files no_fields)))))))

module _ (py : Python) where
  -- one provider of a block
  unfoldable pub apply_entry :
      Dict String ProviderEntry → String → ProviderEntry → Result (Dict String ProviderEntry)
  apply_entry entries pid pentry = elim (lookup pid entries) [
    | none ↦ ok (insert pid pentry entries)
    | some base ↦ (do
      entry ←
          merge_provider_entry py base (some (enable_value pentry.enable))
            (some (dict pentry.config))
      ok (insert pid entry entries))
  ]

  unfoldable pub apply_entries :
      Dict String ProviderEntry → Dict String ProviderEntry → Result (Dict String ProviderEntry)
  unfolding apply_entry
  apply_entries entries [] = ok entries
  apply_entries entries ((pid, pentry) ∷ block) = do
    next ← apply_entry entries pid pentry
    apply_entries next block

  unfoldable pub apply_rules : RuleConfig → Option RuleConfig → RuleConfig
  apply_rules rules none = rules
  apply_rules rules (some br) = merge_rules py rules (some (dict (rules_override_raw br)))

  unfoldable pub apply_types :
      TypeEnrichmentConfig → Option TypeEnrichmentOverride → Result TypeEnrichmentConfig
  unfolding type_enrichment_override_raw
  apply_types types none = ok types
  apply_types types (some block) =
      merge_type_enrichment types (some (dict (type_enrichment_override_raw block)))

  unfoldable pub apply_single : ResolvedConfig → OverrideBlock → Result ResolvedConfig
  unfolding apply_entries apply_rules apply_types
  apply_single config block = do
    entries ← apply_entries config.providers.entries block.providers
    types ← apply_types config.type_enrichment block.type_enrichment
    let providers = record (config.providers) { entries = entries }
    ok (record config {
      providers = providers;
      rules = apply_rules config.rules block.rules;
      type_enrichment = types;
    })

  -- the loop of `apply_overrides`; the groups are those of the first configuration
  unfoldable pub apply_blocks :
      Dict String GroupDef
      → RepoIdentity
      → ResolvedConfig
      → List OverrideBlock
      → Result ResolvedConfig
  unfolding apply_single matches
  apply_blocks groups identity result [] = ok result
  apply_blocks groups identity result (block ∷ blocks) =
      elim (matches block.match identity groups) [
        | true ↦ (do next ← apply_single result block; apply_blocks groups identity next blocks)
        | false ↦ apply_blocks groups identity result blocks
      ]

  unfoldable pub apply_overrides : ResolvedConfig → RepoIdentity → Result ResolvedConfig
  unfolding apply_blocks
  apply_overrides config identity = apply_blocks config.groups identity config config.overrides
