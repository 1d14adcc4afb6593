-- ===== src/Config/Schema.antt =====
-- The typed configuration of src/flawed/_config/schema.py. A path is its text. What Python computes for a
-- value that is no text, and the expansion of `~` in a path, are parameters.
use flawed.Base.{ℕ, String, Bool, Option, List, Dict, nat_eq, string_eq, pair_eq}
use flawed.Config.Values.{Number, Value, Fields}

-- What is raised, with the key that the message names; the rest of its text is left out.
pub data ConfigError : Type 0 where
  not_bool_or_list : ConfigError
  not_bool : String → ConfigError
  not_positive : String → ConfigError
  not_text : String → ConfigError
  not_list : String → ConfigError
  not_mapping : String → ConfigError
  not_number : String → ConfigError
  not_member : String → ConfigError
  -- Python's own error, which is no `ConfigError`
  uncaught : String → ConfigError

pub data Result (A : Type 0) : Type 0 where
  ok : A → Result A
  err : ConfigError → Result A

infixl 5 ◌>>=◌ ◌>>◌
abbrev pub ◌>>=◌ : {A B : Type 0} → Result A → (A → Result B) → Result B
ok a >>= f = f a
err e >>= f = err e

abbrev pub ◌>>◌ : {A B : Type 0} → Result A → Result B → Result B
m >> k = m >>= λ _. k

pub record Python : Type 0 where
  -- `str(value)` where `value` is no text
  pub render : Value → String
  -- `Path(s).expanduser()`
  pub expand : String → String
  -- `dict(value)` where `value` is no dict; `none` is an error
  pub pairs : Value → Option Fields
  -- `float(n)` for an int n that is not negative, as the text of the float; `none` is its OverflowError
  pub float_of : ℕ → Option String

pub data CacheInvalidation : Type 0 where
  auto : CacheInvalidation
  git_hash : CacheInvalidation
  mtime : CacheInvalidation
  content_hash : CacheInvalidation

pub data Enable : Type 0 where
  switched : Bool → Enable
  only : List String → Enable

pub record ProviderEntry : Type 0 where
  pub enable : Enable
  pub config : Fields

-- `Path | str`: the tokens `builtin` and `!reset` stay texts.
pub data PathItem : Type 0 where
  token : String → PathItem
  path : String → PathItem

pub record ProviderConfig : Type 0 where
  pub base_dir : Option String
  pub paths : List PathItem
  pub entries : Dict String ProviderEntry

pub record RuleConfig : Type 0 where
  pub base_dir : Option String
  pub paths : List PathItem
  pub include : List String
  pub exclude : List String
  pub include_regex : List String
  pub exclude_regex : List String

pub record TypeEnrichmentConfig : Type 0 where
  pub enable_mypy_batch : Bool
  pub basedpyright_max_queries : ℕ
  pub basedpyright_max_probe_files : ℕ
  pub basedpyright_max_source_files : ℕ
  pub basedpyright_max_workspace_bytes : ℕ
  pub basedpyright_timeout_seconds : ℕ
  pub mypy_batch_timeout_seconds : ℕ
  pub mypy_batch_max_files : ℕ

pub record TimeoutConfig : Type 0 where
  pub overall : Option ℕ
  pub per_layer : Option ℕ
  pub per_rule : Option ℕ

pub record TypeEnrichmentOverride : Type 0 where
  pub enable_mypy_batch : Option Bool
  pub basedpyright_max_queries : Option ℕ
  pub basedpyright_max_probe_files : Option ℕ
  pub basedpyright_max_source_files : Option ℕ
  pub basedpyright_max_workspace_bytes : Option ℕ
  pub basedpyright_timeout_seconds : Option ℕ
  pub mypy_batch_timeout_seconds : Option ℕ
  pub mypy_batch_max_files : Option ℕ

pub record GroupDef : Type 0 where
  pub repos : List String
  pub tags : List String

pub record MatchCriteria : Type 0 where
  pub repo : List String
  pub group : List String
  pub tag : List String

pub record OverrideBlock : Type 0 where
  pub match : MatchCriteria
  pub providers : Dict String ProviderEntry
  pub rules : Option RuleConfig
  pub type_enrichment : Option TypeEnrichmentOverride

pub record EffectRoutingEntry : Type 0 where
  pub from_providers : List String

pub record ResolvedConfig : Type 0 where
  pub data_dir : String
  pub state_dir : String
  pub repo_local : Bool
  pub cache_invalidation : CacheInvalidation
  pub observability_enabled : Bool
  pub observability_log_path : Option String
  pub observability_sampler_hz : Number
  pub providers : ProviderConfig
  pub rules : RuleConfig
  pub type_enrichment : TypeEnrichmentConfig
  pub timeouts : TimeoutConfig
  pub meta_effects : Dict String String
  pub effect_routing : Dict String EffectRoutingEntry
  pub groups : Dict String GroupDef
  pub overrides : List OverrideBlock
