-- ===== src/Config/Values.antt =====
-- The values that a YAML file holds, as src/flawed/_config/merge.py meets them, and its recursive merge of
-- dicts. Keys are texts. A tuple is a value too, since the merge of an override block passes one.
use flawed.Base.{
  ℕ, String, Bool, Option, none, some, if◌then◌else◌, ◌==◌, nat_eq, string_eq, pair_eq,
}

pub data Sign : Type 0 where
  negative : Sign
  nil : Sign
  positive : Sign
  -- not a number: neither below zero nor above it nor equal to it
  nan : Sign

-- `nat n` and `negsuc n` are the ints n and -(n + 1); a float is its sign and its text.
pub data Number : Type 0 where
  nat : ℕ → Number
  negsuc : ℕ → Number
  float : Sign → String → Number

mutual
  pub data Value : Type 0 where
    null : Value
    bool : Bool → Value
    number : Number → Value
    text : String → Value
    list_of : Items → Value
    tuple_of : Items → Value
    dict : Fields → Value

  pub data Items : Type 0 where
    no_items : Items
    item : Value → Items → Items

  pub data Fields : Type 0 where
    no_fields : Fields
    field : String → Value → Fields → Fields

-- `raw.get(key)`
unfoldable pub get : String → Fields → Option Value
get k no_fields = none
get k (field j v d) = if k == j then some v else get k d

-- `result[key] = value`
unfoldable pub put : String → Value → Fields → Fields
put k v no_fields = field k v no_fields
put k v (field j w d) = if k == j then field j v d else field j w (put k v d)

-- `isinstance(existing, dict)`
abbrev pub as_dict : Option Value → Option Fields
as_dict none = none
as_dict (some null) = none
as_dict (some (bool b)) = none
as_dict (some (number n)) = none
as_dict (some (text s)) = none
as_dict (some (list_of xs)) = none
as_dict (some (tuple_of xs)) = none
as_dict (some (dict d)) = some d

-- `_deep_merge_dicts` on a dict, and the value that it stores at a key
unfoldable mutual
  pub deep_merge_dicts : Fields → Fields → Fields
  deep_merge_dicts result no_fields = result
  deep_merge_dicts result (field key value raw) =
      deep_merge_dicts (put key (merge_value (get key result) value) result) raw

  pub merge_value : Option Value → Value → Value
  merge_value existing null = null
  merge_value existing (bool b) = bool b
  merge_value existing (number n) = number n
  merge_value existing (text s) = text s
  merge_value existing (list_of xs) = list_of xs
  merge_value existing (tuple_of xs) = tuple_of xs
  merge_value existing (dict d) = elim (as_dict existing) [
    | some e ↦ dict (deep_merge_dicts e d)
    | none ↦ dict d
  ]

-- A dict that is not a mapping leaves the base as it is.
unfoldable pub deep_merge : Fields → Option Value → Fields
unfolding deep_merge_dicts
deep_merge base raw = elim (as_dict raw) [ some d ↦ deep_merge_dicts base d | none ↦ base ]
