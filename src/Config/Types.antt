-- ===== src/Config/Types.antt =====
-- What an override block does to the limits of the type enrichment: `_apply_single` of
-- src/flawed/_config/match.py, through the dict that it builds and that merge.py parses again.
use flawed.Base.{
  ℕ, zero, suc, ◌≤◌, String, ◌≡◌, refl, sym, ap, ◌∙◌, Bool, false, Option, none, some, arith, ◌==◌,
  nat_eq, string_eq, beq_refl, pair_eq,
}
use flawed.Config.Values.{Value, bool, dict, Fields, no_fields, field, get}
use flawed.Config.Schema.{ok, Python, TypeEnrichmentConfig, TypeEnrichmentOverride}
use flawed.Config.Parse.{
  get_or_default, bool_or_error, validate_positive_int, parse_type_enrichment_config,
}
use flawed.Config.Merge.{merge_type_enrichment, int, type_enrichment_raw}
use flawed.Config.Match.{apply_types, type_enrichment_override_raw, with_option}
use flawed.Config.Limits.{AllPositive, IsTimeout}

abbrev or_base : {A : Type 0} → A → Option A → A
or_base base none = base
or_base base (some a) = a

-- the settings of a block over those of the configuration
abbrev pub overlay : TypeEnrichmentOverride → TypeEnrichmentConfig → TypeEnrichmentConfig
overlay block t = record {
  enable_mypy_batch = or_base t.enable_mypy_batch block.enable_mypy_batch;
  basedpyright_max_queries = or_base t.basedpyright_max_queries block.basedpyright_max_queries;
  basedpyright_max_probe_files =
      or_base t.basedpyright_max_probe_files block.basedpyright_max_probe_files;
  basedpyright_max_source_files =
      or_base t.basedpyright_max_source_files block.basedpyright_max_source_files;
  basedpyright_max_workspace_bytes =
      or_base t.basedpyright_max_workspace_bytes block.basedpyright_max_workspace_bytes;
  basedpyright_timeout_seconds =
      or_base t.basedpyright_timeout_seconds block.basedpyright_timeout_seconds;
  mypy_batch_timeout_seconds =
      or_base t.mypy_batch_timeout_seconds block.mypy_batch_timeout_seconds;
  mypy_batch_max_files = or_base t.mypy_batch_max_files block.mypy_batch_max_files;
}

-- each limit of a block is unset or at least 1, as its parser sees to
abbrev pub AllValid : TypeEnrichmentOverride → Type 0
AllValid b =
    IsTimeout b.basedpyright_max_queries
    × IsTimeout b.basedpyright_max_probe_files
    × IsTimeout b.basedpyright_max_source_files
    × IsTimeout b.basedpyright_max_workspace_bytes
    × IsTimeout b.basedpyright_timeout_seconds
    × IsTimeout b.mypy_batch_timeout_seconds
    × IsTimeout b.mypy_batch_max_files

or_base-positive : (base : ℕ) (o : Option ℕ) → 1 ≤ base → IsTimeout o → 1 ≤ or_base base o
or_base-positive base none h k = h
or_base-positive base (some n) h k = k

validate_positive_int-int :
    (key : String) (n : ℕ) → 1 ≤ n → validate_positive_int key (int n) ≡ ok n
unfolding validate_positive_int
validate_positive_int-int key (suc n) h = refl
validate_positive_int-int key zero h = absurd (omega arith)

get-skip :
    {A : Type 0} (k j : String) (f : A → Value) (o : Option A) (rest : Fields)
    → (k == j) ≡ false
    → get k (with_option j f o rest) ≡ get k rest
unfolding get
get-skip k j f none rest h = refl
get-skip k j f (some a) rest h = rw h refl

get_or_default-skip :
    {A : Type 0} (k j : String) (v : Value) (f : A → Value) (o : Option A) (rest : Fields)
    → (k == j) ≡ false
    → get_or_default k v (with_option j f o rest) ≡ get_or_default k v rest
get_or_default-skip k j v f o rest h =
    ap (λ (found : Option Value). elim found [ none ↦ v | some w ↦ w ]) (get-skip k j f o rest h)

-- the value that the merge reads for a key which the block sets or leaves unset
get_or_default-here :
    {A : Type 0} (k : String) (f : A → Value) (base : A) (o : Option A) (rest : Fields)
    → get k rest ≡ none
    → get_or_default k (f base) (with_option k f o rest) ≡ f (or_base base o)
unfolding get
get_or_default-here k f base none rest h = rw (h, get_or_default) refl
get_or_default-here k f base (some a) rest h = rw (beq_refl k, get_or_default) refl

-- the dict of limits without any change is parsed to them
parse_type_enrichment_config-type_enrichment_raw :
    (t : TypeEnrichmentConfig)
    → AllPositive t
    → parse_type_enrichment_config (type_enrichment_raw t no_fields) ≡ ok t
unfolding parse_type_enrichment_config get bool_or_error
parse_type_enrichment_config-type_enrichment_raw t (a, b, c, d, e, f, g) =
    rw
      (
        validate_positive_int-int "basedpyright_max_queries" t.basedpyright_max_queries a,
        validate_positive_int-int "basedpyright_max_probe_files" t.basedpyright_max_probe_files b,
        validate_positive_int-int "basedpyright_max_source_files" t.basedpyright_max_source_files c,
        validate_positive_int-int "basedpyright_max_workspace_bytes"
            t.basedpyright_max_workspace_bytes d,
        validate_positive_int-int "basedpyright_timeout_seconds" t.basedpyright_timeout_seconds e,
        validate_positive_int-int "mypy_batch_timeout_seconds" t.mypy_batch_timeout_seconds f,
        validate_positive_int-int "mypy_batch_max_files" t.mypy_batch_max_files g,
      )
      refl

-- The dict that the merge builds from a block is the dict of the settings overlaid.
type_enrichment_raw-overlay :
    (t : TypeEnrichmentConfig) (b : TypeEnrichmentOverride)
    → type_enrichment_raw t (type_enrichment_override_raw b)
      ≡ type_enrichment_raw (overlay b t) no_fields
unfolding type_enrichment_override_raw get
type_enrichment_raw-overlay t b = simp (get_or_default-skip, limit_here, switch_here, get-skip)
  where
    limit_here :
        (k : String) (base : ℕ) (o : Option ℕ) (rest : Fields)
        → get k rest ≡ none
        → get_or_default k (int base) (with_option k int o rest) ≡ int (or_base base o)
    limit_here k base o rest h = get_or_default-here k int base o rest h

    switch_here :
        (k : String) (base : Bool) (o : Option Bool) (rest : Fields)
        → get k rest ≡ none
        → get_or_default k (bool base) (with_option k bool o rest) ≡ bool (or_base base o)
    switch_here k base o rest h = get_or_default-here k bool base o rest h

merge_type_enrichment-parse :
    (t : TypeEnrichmentConfig) (d : Fields)
    → AllPositive t
    → merge_type_enrichment t (some (dict d))
      ≡ parse_type_enrichment_config (type_enrichment_raw t d)
unfolding merge_type_enrichment
merge_type_enrichment-parse t no_fields h =
    sym (parse_type_enrichment_config-type_enrichment_raw t h)
merge_type_enrichment-parse t (field k v d) h = refl

overlay-AllPositive :
    (t : TypeEnrichmentConfig) (b : TypeEnrichmentOverride)
    → AllPositive t
    → AllValid b
    → AllPositive (overlay b t)
overlay-AllPositive t block (a, b, c, d, e, f, g) (i, j, k, l, m, n, o) = (
  or_base-positive _ _ a i,
  or_base-positive _ _ b j,
  or_base-positive _ _ c k,
  or_base-positive _ _ d l,
  or_base-positive _ _ e m,
  or_base-positive _ _ f n,
  or_base-positive _ _ g o,
)

-- Over a type enrichment whose limits are all at least 1, a block whose limits are all unset or at least 1
-- never fails, and sets exactly the settings that it names.
pub apply_types-overlay :
    (py : Python) (t : TypeEnrichmentConfig) (b : TypeEnrichmentOverride)
    → AllPositive t
    → AllValid b
    → apply_types py t (some b) ≡ ok (overlay b t)
unfolding apply_types
apply_types-overlay py t b h k =
    merge_type_enrichment-parse t (type_enrichment_override_raw b) h
    ∙ ap parse_type_enrichment_config (type_enrichment_raw-overlay t b)
    ∙ parse_type_enrichment_config-type_enrichment_raw (overlay b t) (overlay-AllPositive t b h k)
