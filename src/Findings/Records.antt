-- ===== src/Findings/Records.antt =====
-- The records of src/flawed/findings.py, over the values of a JSON document. Integers keep their sign.
use flawed.Base.{String, Bool, true, false, Option, none, some, List, nat_eq, string_eq, pair_eq}
use flawed.Config.Values.{
  Number, nat, negsuc, Value, null, bool, number, text, list_of, tuple_of, dict, Items, no_items,
  Fields, get,
}
use flawed.Findings.Severity.{Severity}

-- What Python computes: `str` of a value that is no text, `value.strip().upper()`, and the digest of a
-- rule, a summary and a place.
pub record Python : Type 0 where
  pub render : Value → String
  pub normal : String → String

pub record FindingLocation : Type 0 where
  pub file : String
  pub line : Number
  pub column : Option Number
  pub end_line : Option Number
  pub end_column : Option Number

pub record FindingEvidence : Type 0 where
  pub description : String
  pub location : Option FindingLocation

pub record FindingGap : Type 0 where
  pub kind : String
  pub message : String
  pub affected_file : Value
  pub affected_function : Value

pub record FindingRecord : Type 0 where
  pub rule_id : String
  pub fingerprint : String
  pub severity : Severity
  pub route_endpoint : String
  pub summary : String
  pub location : Option FindingLocation
  pub evidence : List FindingEvidence
  pub gaps : List FindingGap
  pub rule_path : String
  pub suppressed : Bool

-- `ValueError` with the field or the kind that its message names, or an error of Python's own
pub data LoadError : Type 0 where
  no_object : LoadError
  missing_field : String → LoadError
  unknown_severity : LoadError
  unrecognized : LoadError
  uncaught : String → LoadError

pub data Loaded (A : Type 0) : Type 0 where
  loaded : A → Loaded A
  refused : LoadError → Loaded A

infixl 5 ◌>>=◌ ◌>>◌
abbrev pub ◌>>=◌ : {A B : Type 0} → Loaded A → (A → Loaded B) → Loaded B
loaded a >>= f = f a
refused e >>= f = refused e

abbrev pub ◌>>◌ : {A B : Type 0} → Loaded A → Loaded B → Loaded B
m >> k = m >>= λ _. k

-- `x if isinstance(x, int) else None`; a boolean is an int
abbrev pub as_int : Option Value → Option Number
as_int (some (number (nat n))) = some (nat n)
as_int (some (number (negsuc n))) = some (negsuc n)
as_int (some (bool true)) = some (nat 1)
as_int (some (bool false)) = some (nat 0)
as_int _ = none

-- `isinstance(x, str)`
abbrev pub as_text : Option Value → Option String
as_text (some (text s)) = some s
as_text _ = none

-- `isinstance(x, list)`
abbrev pub as_list : Option Value → Option Items
as_list (some (list_of xs)) = some xs
as_list _ = none

abbrev pub or_null : Option Value → Value
or_null none = null
or_null (some v) = v

-- `for x in raw.get(key, [])`: only the dicts among the elements are read later, so the keys of a dict and
-- the characters of a text count for nothing
abbrev pub iterated : String → Option Value → Loaded Items
iterated key none = loaded no_items
iterated key (some (list_of xs)) = loaded xs
iterated key (some (tuple_of xs)) = loaded xs
iterated key (some (dict d)) = loaded no_items
iterated key (some (text s)) = loaded no_items
iterated key (some v) = refused (uncaught key)

module _ (py : Python) where
  -- `str(raw.get(key, ""))`
  abbrev pub text_at : String → Fields → String
  text_at key raw = elim (get key raw) [ none ↦ "" | some v ↦ str_of v ]
    where
      str_of : Value → String
      str_of (text s) = s
      str_of v = py.render v
