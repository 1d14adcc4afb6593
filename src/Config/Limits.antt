-- ===== src/Config/Limits.antt =====
-- The limits of the configuration that the parsers and the merges of src/flawed/_config let through.
use flawed.Base.{
  ℕ, zero, suc, ◌≤◌, String, ◌≡◌, subst, inl, inr, true, false, Option, none, some, arith,
  Bool-cases, nat_eq, string_eq, pair_eq,
}
use flawed.Config.Values.{
  negative, nil, positive, nan, Sign, Number, nat, negsuc, float, Value, null, bool, number, text,
  list_of, tuple_of, dict, Fields, no_fields, field,
}
use flawed.Config.Schema.{
  Result, ok, err, ◌>>=◌, TypeEnrichmentConfig, TimeoutConfig, ResolvedConfig, Python, uncaught,
}
use flawed.Config.Parse.{
  get_or_default, bool_or_error, validate_positive_int, parse_timeout, parse_type_enrichment_config,
  parse_timeout_config,
}
use flawed.Config.Merge.{
  merge_type_enrichment, merge_timeouts, parse_sampler_hz, is_below_zero, as_float,
}

-- what holds of a result that is no error
abbrev pub Within : {A : Type 0} → (A → Type 0) → Result A → Type 0
Within P (ok a) = P a
Within P (err e) = Unit {0}

pub Within-bind :
    {A B : Type 0} (P : A → Type 0) (Q : B → Type 0) (m : Result A) (f : A → Result B)
    → Within P m
    → ((a : A) → P a → Within Q (f a))
    → Within Q (m >>= f)
Within-bind P Q (ok a) f h k = k a h
Within-bind P Q (err e) f h k = tt

pub Within-any : {A : Type 0} (m : Result A) → Within (λ _. Unit {0}) m
Within-any (ok a) = tt
Within-any (err e) = tt

pub Within-weaken :
    {A : Type 0} (P Q : A → Type 0) (m : Result A) → Within P m → ((a : A) → P a → Q a) → Within Q m
Within-weaken P Q (ok a) h k = k a h
Within-weaken P Q (err e) h k = tt

-- a step about which nothing is claimed
pub any_then :
    {A B : Type 0} (P : B → Type 0) (m : Result A) (f : A → Result B)
    → ((a : A) → Within P (f a))
    → Within P (m >>= f)
any_then P m f k = Within-bind (λ _. Unit {0}) P m f (Within-any m) (λ a _. k a)

pub Within-at : {A : Type 0} (P : A → Type 0) (m : Result A) (a : A) → Within P m → m ≡ ok a → P a
Within-at P m a h e = subst (Within P) e h

abbrev pub AllPositive : TypeEnrichmentConfig → Type 0
AllPositive t =
    (1 ≤ t.basedpyright_max_queries)
    × (1 ≤ t.basedpyright_max_probe_files)
    × (1 ≤ t.basedpyright_max_source_files)
    × (1 ≤ t.basedpyright_max_workspace_bytes)
    × (1 ≤ t.basedpyright_timeout_seconds)
    × (1 ≤ t.mypy_batch_timeout_seconds)
    × (1 ≤ t.mypy_batch_max_files)

abbrev pub IsTimeout : Option ℕ → Type 0
IsTimeout none = Unit {0}
IsTimeout (some n) = 1 ≤ n

abbrev pub AllTimeouts : TimeoutConfig → Type 0
AllTimeouts t = IsTimeout t.overall × IsTimeout t.per_layer × IsTimeout t.per_rule

-- a float that is not below zero; NaN, which compares with nothing, is one
abbrev pub IsRate : Number → Type 0
IsRate (nat n) = ⊥
IsRate (negsuc n) = ⊥
IsRate (float negative s) = ⊥
IsRate (float nil s) = Unit {0}
IsRate (float positive s) = Unit {0}
IsRate (float nan s) = Unit {0}

-- every limit of a configuration is at least 1, and the sampling rate is not below 0
abbrev pub IsBounded : ResolvedConfig → Type 0
IsBounded c =
    AllPositive c.type_enrichment × AllTimeouts c.timeouts × IsRate c.observability_sampler_hz

validate_positive_int-Within :
    (key : String) (v : Value) → Within (λ n. 1 ≤ n) (validate_positive_int key v)
unfolding validate_positive_int
validate_positive_int-Within key (number (nat (suc n))) = omega arith
validate_positive_int-Within key (number (nat zero)) = tt
validate_positive_int-Within key (number (negsuc n)) = tt
validate_positive_int-Within key (number (float s t)) = tt
validate_positive_int-Within key null = tt
validate_positive_int-Within key (bool b) = tt
validate_positive_int-Within key (text s) = tt
validate_positive_int-Within key (list_of xs) = tt
validate_positive_int-Within key (tuple_of xs) = tt
validate_positive_int-Within key (dict d) = tt

parse_timeout-Within : (key : String) (v : Value) → Within IsTimeout (parse_timeout key v)
unfolding parse_timeout
parse_timeout-Within key null = tt
parse_timeout-Within key (number (nat (suc n))) = omega arith
parse_timeout-Within key (number (nat zero)) = tt
parse_timeout-Within key (number (negsuc n)) = tt
parse_timeout-Within key (number (float s t)) = tt
parse_timeout-Within key (bool true) = omega arith
parse_timeout-Within key (bool false) = tt
parse_timeout-Within key (text s) = tt
parse_timeout-Within key (list_of xs) = tt
parse_timeout-Within key (tuple_of xs) = tt
parse_timeout-Within key (dict d) = tt

-- the float of an int
float-Within :
    (sign : Sign) (o : Option String)
    → ((s : String) → IsRate (float sign s))
    → Within IsRate
        (elim o [ none ↦ err (uncaught "observability_sampler_hz") | some s ↦ ok (float sign s) ])
float-Within sign none h = tt
float-Within sign (some s) h = h s

as_float-Within :
    (py : Python) (n : Number) → is_below_zero n ≡ false → Within IsRate (as_float py n)
unfolding as_float is_below_zero
as_float-Within py (nat zero) h = float-Within nil (py.float_of 0) (λ _. tt)
as_float-Within py (nat (suc n)) h = float-Within positive (py.float_of (suc n)) (λ _. tt)
as_float-Within py (negsuc n) h = cc
as_float-Within py (float negative t) h = cc
as_float-Within py (float nil t) h = tt
as_float-Within py (float positive t) h = tt
as_float-Within py (float nan t) h = tt

pub parse_sampler_hz-Within : (py : Python) (v : Value) → Within IsRate (parse_sampler_hz py v)
unfolding parse_sampler_hz
parse_sampler_hz-Within py (number n) = elim (Bool-cases (is_below_zero n)) [
  | inl below ↦ rw (below, Within) tt
  | inr rate ↦ rw (rate, Within) (as_float-Within py n rate)
]
parse_sampler_hz-Within py null = tt
parse_sampler_hz-Within py (bool b) = tt
parse_sampler_hz-Within py (text s) = tt
parse_sampler_hz-Within py (list_of xs) = tt
parse_sampler_hz-Within py (tuple_of xs) = tt
parse_sampler_hz-Within py (dict d) = tt

positive_then :
    (key : String) (default : ℕ) (raw : Fields) (f : ℕ → Result TypeEnrichmentConfig)
    → ((n : ℕ) → 1 ≤ n → Within AllPositive (f n))
    → Within AllPositive
        (validate_positive_int key (get_or_default key (number (nat default)) raw) >>= f)
positive_then key default raw f h =
    Within-bind _ AllPositive
      (validate_positive_int key (get_or_default key (number (nat default)) raw)) f
      (validate_positive_int-Within key _) h

parse_type_enrichment_config-Within :
    (raw : Fields) → Within AllPositive (parse_type_enrichment_config raw)
unfolding parse_type_enrichment_config
parse_type_enrichment_config-Within raw =
    Within-bind (λ _. Unit {0}) AllPositive
      (bool_or_error "enable_mypy_batch" (get_or_default "enable_mypy_batch" (bool false) raw)) _
      (Within-any _)
      (λ _ _. positive_then "basedpyright_max_queries" 2000 raw _ (λ _ a.
        positive_then "basedpyright_max_probe_files" 500 raw _ (λ _ b.
          positive_then "basedpyright_max_source_files" 5000 raw _ (λ _ c.
            positive_then "basedpyright_max_workspace_bytes" 250000000 raw _ (λ _ d.
              positive_then "basedpyright_timeout_seconds" 120 raw _ (λ _ e.
                positive_then "mypy_batch_timeout_seconds" 120 raw _ (λ _ f.
                  positive_then "mypy_batch_max_files" 5000 raw _
                    (λ _ g. (a, b, c, d, e, f, g)))))))))

parse_timeout_config-Within : (raw : Fields) → Within AllTimeouts (parse_timeout_config raw)
unfolding parse_timeout_config
parse_timeout_config-Within raw =
    timeout_then "overall" 600 _ (λ _ a.
      timeout_then "per_layer" 300 _ (λ _ b. timeout_then "per_rule" 60 _ (λ _ c. (a, b, c))))
  where
    timeout_then :
        (key : String) (default : ℕ) (f : Option ℕ → Result TimeoutConfig)
        → ((n : Option ℕ) → IsTimeout n → Within AllTimeouts (f n))
        → Within AllTimeouts
            (parse_timeout key (get_or_default key (number (nat default)) raw) >>= f)
    timeout_then key default f h =
        Within-bind IsTimeout AllTimeouts
          (parse_timeout key (get_or_default key (number (nat default)) raw)) f
          (parse_timeout-Within key _) h

pub merge_type_enrichment-Within :
    (base : TypeEnrichmentConfig) (raw : Option Value)
    → AllPositive base
    → Within AllPositive (merge_type_enrichment base raw)
unfolding merge_type_enrichment
merge_type_enrichment-Within base none h = h
merge_type_enrichment-Within base (some null) h = h
merge_type_enrichment-Within base (some (dict no_fields)) h = h
merge_type_enrichment-Within base (some (dict (field k v d))) h =
    parse_type_enrichment_config-Within _
merge_type_enrichment-Within base (some (bool b)) h = tt
merge_type_enrichment-Within base (some (number n)) h = tt
merge_type_enrichment-Within base (some (text s)) h = tt
merge_type_enrichment-Within base (some (list_of xs)) h = tt
merge_type_enrichment-Within base (some (tuple_of xs)) h = tt

pub merge_timeouts-Within :
    (base : TimeoutConfig) (raw : Option Value)
    → AllTimeouts base
    → Within AllTimeouts (merge_timeouts base raw)
unfolding merge_timeouts
merge_timeouts-Within base none h = h
merge_timeouts-Within base (some null) h = h
merge_timeouts-Within base (some (dict no_fields)) h = h
merge_timeouts-Within base (some (dict (field k v d))) h = parse_timeout_config-Within _
merge_timeouts-Within base (some (bool b)) h = tt
merge_timeouts-Within base (some (number n)) h = tt
merge_timeouts-Within base (some (text s)) h = tt
merge_timeouts-Within base (some (list_of xs)) h = tt
merge_timeouts-Within base (some (tuple_of xs)) h = tt
