-- ===== src/Config/Parse.antt =====
-- The helpers of src/flawed/_config/schema.py that turn values into typed settings, or fail.
use flawed.Base.{
  ℕ, suc, String, Bool, true, false, ◌||◌, Option, none, some, List, [], ◌∷◌, if◌then◌else◌, ◌==◌,
  nat_eq, string_eq, pair_eq,
}
use flawed.Config.Values.{
  nat, Value, null, bool, number, text, list_of, Items, no_items, item, Fields, get,
}
use flawed.Config.Schema.{
  not_bool_or_list, not_bool, not_positive, not_text, not_list, not_member, Result, ok, err, ◌>>=◌,
  Python, CacheInvalidation, auto, git_hash, mtime, content_hash, Enable, switched, only, PathItem,
  token, path, TypeEnrichmentConfig, TimeoutConfig, TypeEnrichmentOverride, GroupDef, MatchCriteria,
}

-- `raw.get(key, default)`
abbrev pub get_or_default : String → Value → Fields → Value
get_or_default key default raw = elim (get key raw) [ none ↦ default | some v ↦ v ]

unfoldable pub parse_cache_invalidation : Value → Result CacheInvalidation
parse_cache_invalidation (text s) =
    if s == "auto"
    then ok auto
    else if s == "git-hash"
    then ok git_hash
    else if s == "mtime"
    then ok mtime
    else if s == "content-hash"
    then ok content_hash
    else err (not_member "cache_invalidation")
parse_cache_invalidation _ = err (not_text "cache_invalidation")

unfoldable pub validate_positive_int : String → Value → Result ℕ
validate_positive_int key (number (nat (suc n))) = ok (suc n)
validate_positive_int key _ = err (not_positive key)

-- a key that may be absent or null
unfoldable pub validate_optional : String → Option Value → Result (Option ℕ)
unfolding validate_positive_int
validate_optional key none = ok none
validate_optional key (some null) = ok none
validate_optional key (some v) = do n ← validate_positive_int key v; ok (some n)

unfoldable pub bool_or_error : String → Value → Result Bool
bool_or_error key (bool b) = ok b
bool_or_error key _ = err (not_bool key)

unfoldable pub optional_bool : String → Option Value → Result (Option Bool)
unfolding bool_or_error
optional_bool key none = ok none
optional_bool key (some null) = ok none
optional_bool key (some v) = do b ← bool_or_error key v; ok (some b)

unfoldable pub parse_type_enrichment_config : Fields → Result TypeEnrichmentConfig
unfolding bool_or_error validate_positive_int
parse_type_enrichment_config raw = do
  batch ← bool_or_error "enable_mypy_batch" (get_or_default "enable_mypy_batch" (bool false) raw)
  queries ← positive_at "basedpyright_max_queries" 2000
  probes ← positive_at "basedpyright_max_probe_files" 500
  sources ← positive_at "basedpyright_max_source_files" 5000
  bytes ← positive_at "basedpyright_max_workspace_bytes" 250000000
  timeout ← positive_at "basedpyright_timeout_seconds" 120
  mypy_timeout ← positive_at "mypy_batch_timeout_seconds" 120
  files ← positive_at "mypy_batch_max_files" 5000
  ok (record {
    enable_mypy_batch = batch;
    basedpyright_max_queries = queries;
    basedpyright_max_probe_files = probes;
    basedpyright_max_source_files = sources;
    basedpyright_max_workspace_bytes = bytes;
    basedpyright_timeout_seconds = timeout;
    mypy_batch_timeout_seconds = mypy_timeout;
    mypy_batch_max_files = files;
  })
  where
    positive_at : String → ℕ → Result ℕ
    positive_at key default =
        validate_positive_int key (get_or_default key (number (nat default)) raw)

unfoldable pub parse_type_enrichment_override : Fields → Result TypeEnrichmentOverride
unfolding optional_bool validate_optional
parse_type_enrichment_override raw = do
  batch ← optional_bool "enable_mypy_batch" (get "enable_mypy_batch" raw)
  queries ← positive_at "basedpyright_max_queries"
  probes ← positive_at "basedpyright_max_probe_files"
  sources ← positive_at "basedpyright_max_source_files"
  bytes ← positive_at "basedpyright_max_workspace_bytes"
  timeout ← positive_at "basedpyright_timeout_seconds"
  mypy_timeout ← positive_at "mypy_batch_timeout_seconds"
  files ← positive_at "mypy_batch_max_files"
  ok (record {
    enable_mypy_batch = batch;
    basedpyright_max_queries = queries;
    basedpyright_max_probe_files = probes;
    basedpyright_max_source_files = sources;
    basedpyright_max_workspace_bytes = bytes;
    basedpyright_timeout_seconds = timeout;
    mypy_batch_timeout_seconds = mypy_timeout;
    mypy_batch_max_files = files;
  })
  where
    positive_at : String → Result (Option ℕ)
    positive_at key = validate_optional key (get key raw)

-- `isinstance(val, int)` also holds of the booleans, which are 0 and 1.
unfoldable pub parse_timeout : String → Value → Result (Option ℕ)
parse_timeout key null = ok none
parse_timeout key (number (nat (suc n))) = ok (some (suc n))
parse_timeout key (bool true) = ok (some 1)
parse_timeout key _ = err (not_positive key)

unfoldable pub parse_timeout_config : Fields → Result TimeoutConfig
unfolding parse_timeout
parse_timeout_config raw = do
  overall ← parse_timeout "overall" (get_or_default "overall" (number (nat 600)) raw)
  per_layer ← parse_timeout "per_layer" (get_or_default "per_layer" (number (nat 300)) raw)
  per_rule ← parse_timeout "per_rule" (get_or_default "per_rule" (number (nat 60)) raw)
  ok (record { overall = overall; per_layer = per_layer; per_rule = per_rule })

module _ (py : Python) where
  -- `str(value)`
  abbrev pub str_of : Value → String
  str_of (text s) = s
  str_of v = py.render v

  abbrev pub strs : Items → List String
  strs no_items = []
  strs (item v xs) = str_of v ∷ strs xs

  unfoldable pub as_str_tuple : String → Option Value → Result (List String)
  as_str_tuple key none = ok []
  as_str_tuple key (some null) = ok []
  as_str_tuple key (some (text s)) = ok (s ∷ [])
  as_str_tuple key (some (list_of xs)) = ok (strs xs)
  as_str_tuple key (some _) = err (not_list key)

  abbrev pub path_item : Value → PathItem
  path_item v =
      let s = str_of v in if s == "builtin" || s == "!reset" then token s else path (py.expand s)

  abbrev pub path_items : Items → List PathItem
  path_items no_items = []
  path_items (item v xs) = path_item v ∷ path_items xs

  unfoldable pub as_path_tuple : String → Option Value → Result (List PathItem)
  as_path_tuple key none = ok []
  as_path_tuple key (some null) = ok []
  as_path_tuple key (some (list_of xs)) = ok (path_items xs)
  as_path_tuple key (some _) = err (not_list key)

  unfoldable pub parse_enable : Value → Result Enable
  parse_enable (bool b) = ok (switched b)
  parse_enable (list_of xs) = ok (only (strs xs))
  parse_enable _ = err not_bool_or_list

  unfoldable pub parse_group_def : Fields → Result GroupDef
  unfolding as_str_tuple
  parse_group_def raw = do
    repos ← as_str_tuple "group.repos" (get "repos" raw)
    tags ← as_str_tuple "group.tags" (get "tags" raw)
    ok (record { repos = repos; tags = tags })

  unfoldable pub parse_match_criteria : Fields → Result MatchCriteria
  unfolding as_str_tuple
  parse_match_criteria raw = do
    repo ← as_str_tuple "match.repo" (get "repo" raw)
    group ← as_str_tuple "match.group" (get "group" raw)
    tag ← as_str_tuple "match.tag" (get "tag" raw)
    ok (record { repo = repo; group = group; tag = tag })
