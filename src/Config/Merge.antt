-- ===== src/Config/Merge.antt =====
-- The merge of a file's dict into a configuration, src/flawed/_config/merge.py.
use flawed.Base.{
  zero, suc, ℕ, zero, suc, String, Bool, true, false, ◌||◌, Option, none, some, List, ◌++◌,
  if◌then◌else◌, Dict, lookup, insert, ◌==◌, nat_eq, string_eq, pair_eq,
}
use flawed.Config.Values.{
  negative, nil, positive, nan, Sign, Number, nat, negsuc, float, Value, null, bool, number,
  list_of, dict, no_items, item, Fields, no_fields, field, get, deep_merge,
}
use flawed.Config.Schema.{
  not_mapping, not_number, not_positive, Result, ok, err, ◌>>=◌, Python, Enable, ProviderEntry,
  ProviderConfig, PathItem, RuleConfig, TypeEnrichmentConfig, TimeoutConfig, uncaught,
}
use flawed.Config.Parse.{
  get_or_default, str_of, strs, path_items, parse_enable, parse_type_enrichment_config,
  parse_timeout_config,
}
use flawed.Config.Blocks.{entry_dict, parse_provider_entry}

-- -- settings of fixed shape ---------------------------------------

abbrev pub int : ℕ → Value
int n = number (nat n)

-- the dict that is parsed: each key of the file, or the setting of the base
abbrev pub type_enrichment_raw : TypeEnrichmentConfig → Fields → Fields
type_enrichment_raw base raw =
    field "enable_mypy_batch" (get_or_default "enable_mypy_batch" (bool base.enable_mypy_batch) raw)
      (at "basedpyright_max_queries" base.basedpyright_max_queries (
        at "basedpyright_max_probe_files" base.basedpyright_max_probe_files (
          at "basedpyright_max_source_files" base.basedpyright_max_source_files (
            at "basedpyright_max_workspace_bytes" base.basedpyright_max_workspace_bytes (
              at "basedpyright_timeout_seconds" base.basedpyright_timeout_seconds (
                at "mypy_batch_timeout_seconds" base.mypy_batch_timeout_seconds
                  (at "mypy_batch_max_files" base.mypy_batch_max_files no_fields)))))))
  where
    at : String → ℕ → Fields → Fields
    at key n rest = field key (get_or_default key (int n) raw) rest

unfoldable pub merge_type_enrichment :
    TypeEnrichmentConfig → Option Value → Result TypeEnrichmentConfig
merge_type_enrichment base none = ok base
merge_type_enrichment base (some null) = ok base
merge_type_enrichment base (some (dict no_fields)) = ok base
merge_type_enrichment base (some (dict (field k v d))) =
    parse_type_enrichment_config (type_enrichment_raw base (field k v d))
merge_type_enrichment base (some _) = err (not_mapping "type_enrichment")

abbrev pub seconds : Option ℕ → Value
seconds none = null
seconds (some n) = int n

abbrev pub timeouts_raw : TimeoutConfig → Fields → Fields
timeouts_raw base raw = field "overall" (get_or_default "overall" (seconds base.overall) raw) (
    field "per_layer" (get_or_default "per_layer" (seconds base.per_layer) raw)
      (field "per_rule" (get_or_default "per_rule" (seconds base.per_rule) raw) no_fields))

unfoldable pub merge_timeouts : TimeoutConfig → Option Value → Result TimeoutConfig
merge_timeouts base none = ok base
merge_timeouts base (some null) = ok base
merge_timeouts base (some (dict no_fields)) = ok base
merge_timeouts base (some (dict (field k v d))) =
    parse_timeout_config (timeouts_raw base (field k v d))
merge_timeouts base (some _) = err (not_mapping "timeouts")

-- `raw < 0`; a comparison with NaN is false
unfoldable pub is_below_zero : Number → Bool
is_below_zero (nat n) = false
is_below_zero (negsuc n) = true
is_below_zero (float negative s) = true
is_below_zero (float nil s) = false
is_below_zero (float positive s) = false
is_below_zero (float nan s) = false

-- the sign of the float of an int that is not negative
abbrev sign_of : ℕ → Sign
sign_of zero = nil
sign_of (suc n) = positive

-- `float(raw)` of a number that is not below zero
unfoldable pub as_float : Python → Number → Result Number
as_float py (nat n) = elim (py.float_of n) [
  | none ↦ err (uncaught "observability_sampler_hz")
  | some s ↦ ok (float (sign_of n) s)
]
as_float py n = ok n

module _ (py : Python) where
  unfoldable pub parse_sampler_hz : Value → Result Number
  unfolding is_below_zero as_float
  parse_sampler_hz (number n) =
      if is_below_zero n then err (not_positive "observability_sampler_hz") else as_float py n
  parse_sampler_hz _ = err (not_number "observability_sampler_hz")

  -- -- lists -------------------------------------------------------

  -- `Path(s).expanduser()` for each entry, or the base's entries first
  unfoldable pub merge_path_tuples : List PathItem → Option Value → List PathItem
  merge_path_tuples base (some (list_of no_items)) = base
  merge_path_tuples base (some (list_of (item v xs))) =
      if str_of py v == "!reset" then path_items py xs else base ++ path_items py (item v xs)
  merge_path_tuples base _ = base

  unfoldable pub merge_str_tuples : List String → Option Value → List String
  merge_str_tuples base (some (list_of xs)) = base ++ strs py xs
  merge_str_tuples base _ = base

  -- `if "base_dir" in raw and raw["base_dir"] is not None`
  abbrev pub merge_base_dir : Option String → Option Value → Option String
  merge_base_dir base none = base
  merge_base_dir base (some null) = base
  merge_base_dir base (some v) = some (py.expand (str_of py v))

  -- -- rules -------------------------------------------------------

  unfoldable pub merge_rules : RuleConfig → Option Value → RuleConfig
  unfolding merge_path_tuples merge_str_tuples
  merge_rules base (some (dict (field k v d))) =
      let raw = field k v d in
      record {
        base_dir = merge_base_dir base.base_dir (get "base_dir" raw);
        paths = merge_path_tuples base.paths (get "paths" raw);
        include = merge_str_tuples base.include (get "include" raw);
        exclude = merge_str_tuples base.exclude (get "exclude" raw);
        include_regex = merge_str_tuples base.include_regex (get "include_regex" raw);
        exclude_regex = merge_str_tuples base.exclude_regex (get "exclude_regex" raw);
      }
  merge_rules base (some _) = base
  merge_rules base none = base

  -- -- providers ---------------------------------------------------

  unfoldable pub merge_enable : Enable → Option Value → Result Enable
  merge_enable base none = ok base
  merge_enable base (some null) = ok base
  merge_enable base (some v) = parse_enable py v

  unfoldable pub merge_provider_entry :
      ProviderEntry → Option Value → Option Value → Result ProviderEntry
  unfolding merge_enable
  merge_provider_entry base enable_raw config_raw = do
    enable ← merge_enable base.enable enable_raw
    ok (record { enable = enable; config = deep_merge base.config config_raw })

  -- one entry of a file
  unfoldable pub merge_entry :
      String → Fields → Dict String ProviderEntry → Result (Dict String ProviderEntry)
  unfolding merge_provider_entry
  merge_entry key val entries = elim (lookup key entries) [
    | some base ↦ (do
      entry ← merge_provider_entry base (get "enable" val) (get "config" val)
      ok (insert key entry entries))
    | none ↦ (do entry ← parse_provider_entry py val; ok (insert key entry entries))
  ]

  unfoldable pub merge_entries :
      Dict String ProviderEntry → Fields → Result (Dict String ProviderEntry)
  unfolding merge_entry
  merge_entries entries no_fields = ok entries
  merge_entries entries (field key val raw) = elim (key == "base_dir" || key == "paths") [
    | true ↦ merge_entries entries raw
    | false ↦ elim (entry_dict val) [
      | none ↦ merge_entries entries raw
      | some block ↦ (do next ← merge_entry key block entries; merge_entries next raw)
    ]
  ]

  unfoldable pub merge_providers : ProviderConfig → Option Value → Result ProviderConfig
  unfolding merge_path_tuples merge_entries
  merge_providers base (some (dict (field k v d))) = do
    let raw = field k v d
    entries ← merge_entries base.entries raw
    ok (record {
      base_dir = merge_base_dir base.base_dir (get "base_dir" raw);
      paths = merge_path_tuples base.paths (get "paths" raw);
      entries = entries;
    })
  merge_providers base (some _) = ok base
  merge_providers base none = ok base
