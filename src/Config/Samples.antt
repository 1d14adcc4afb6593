-- ===== src/Config/Samples.antt =====
-- A small configuration with one override block, for the tests of src/flawed/_config.
use flawed.Base.{String, true, false, none, some, [], ◌∷◌, Dict, nat_eq, string_eq, pair_eq}
use flawed.Config.Values.{float, positive, null, dict, Fields, no_fields, field}
use flawed.Config.Schema.{
  Python, switched, ProviderEntry, TypeEnrichmentConfig, TypeEnrichmentOverride, OverrideBlock,
  ResolvedConfig, GroupDef, MatchCriteria, mtime,
}
use flawed.Config.Merge.{int}
use flawed.Config.Match.{RepoIdentity}

-- a Python whose `str` and `expanduser` return fixed texts
abbrev pub python : Python
python = record {
  render = λ _. "?";
  expand = λ s. s;
  pairs = λ _. none;
  float_of = λ _. some "1.0";
}

abbrev pub limits : TypeEnrichmentConfig
limits = record {
  enable_mypy_batch = false;
  basedpyright_max_queries = 2000;
  basedpyright_max_probe_files = 500;
  basedpyright_max_source_files = 5000;
  basedpyright_max_workspace_bytes = 250000;
  basedpyright_timeout_seconds = 120;
  mypy_batch_timeout_seconds = 120;
  mypy_batch_max_files = 5000;
}

abbrev pub more_queries : TypeEnrichmentOverride
more_queries = record {
  enable_mypy_batch = some true;
  basedpyright_max_queries = some 9000;
  basedpyright_max_probe_files = none;
  basedpyright_max_source_files = none;
  basedpyright_max_workspace_bytes = none;
  basedpyright_timeout_seconds = some 30;
  mypy_batch_timeout_seconds = none;
  mypy_batch_max_files = none;
}

abbrev pub flask : ProviderEntry
flask = record { enable = switched false; config = field "depth" (int 3) no_fields }

abbrev pub web : Dict String GroupDef
web = ("web", record { repos = "github.com/a/b" ∷ []; tags = "prod" ∷ [] }) ∷ []

abbrev pub in_web : MatchCriteria
in_web = record { repo = []; group = "web" ∷ "other" ∷ []; tag = "prod" ∷ [] }

abbrev pub block : OverrideBlock
block = record {
  match = in_web;
  providers =
      ("flask", record { enable = switched true; config = field "depth" (int 5) no_fields }) ∷ [];
  rules = none;
  type_enrichment = some more_queries;
}

abbrev pub a_config : ResolvedConfig
a_config = record {
  data_dir = "/data";
  state_dir = "/state";
  repo_local = false;
  cache_invalidation = mtime;
  observability_enabled = true;
  observability_log_path = none;
  observability_sampler_hz = float positive "1.0";
  providers = record { base_dir = none; paths = []; entries = ("flask", flask) ∷ [] };
  rules = record {
    base_dir = none;
    paths = [];
    include = [];
    exclude = [];
    include_regex = [];
    exclude_regex = [];
  };
  type_enrichment = limits;
  timeouts = record { overall = some 600; per_layer = none; per_rule = some 60 };
  meta_effects = [];
  effect_routing = [];
  groups = web;
  overrides = block ∷ [];
}

abbrev pub here : RepoIdentity
here = record { canonical = "github.com/a/b"; path = "/src/b" }

abbrev pub a_file : Fields
a_file =
    field "timeouts" (dict (field "overall" (int 5) (field "per_rule" null no_fields))) (
      field "type_enrichment" (dict (field "basedpyright_max_queries" (int 7) no_fields)) no_fields)

abbrev pub merged : ResolvedConfig
merged = record a_config {
  type_enrichment = record limits { basedpyright_max_queries = 7 };
  timeouts = record { overall = some 5; per_layer = none; per_rule = none };
}
