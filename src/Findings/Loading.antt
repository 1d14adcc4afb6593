-- ===== src/Findings/Loading.antt =====
-- Findings from a `--json` capture, src/flawed/findings.py.
use flawed.Base.{
  String, Bool, false, Option, none, some, List, [], ◌∷◌, if◌then◌else◌, ◌==◌, nat_eq, string_eq,
  pair_eq,
}
use flawed.Config.Values.{Value, Items, no_items, item, Fields, get, as_dict}
use flawed.Config.Blocks.{is_truthy}
use flawed.Findings.Severity.{Severity, severity_named}
use flawed.Findings.Records.{
  Python, FindingLocation, FindingEvidence, FindingGap, FindingRecord, no_object, missing_field,
  unknown_severity, Loaded, loaded, refused, ◌>>=◌, as_int, as_text, or_null, iterated, text_at,
}

-- `_require`
unfoldable pub require : String → Fields → Loaded String
require key finding = elim (as_text (get key finding)) [
  | none ↦ refused (missing_field key)
  | some s ↦ if s == "" then refused (missing_field key) else loaded s
]

unfoldable pub location_from_dict : Option Value → Option FindingLocation
location_from_dict raw = elim (as_dict raw) [
  | none ↦ none
  | some d ↦ elim (as_text (get "file" d)) [
    | none ↦ none
    | some file ↦ elim (as_int (get "line" d)) [
      | none ↦ none
      | some line ↦ some (record {
        file = file;
        line = line;
        column = as_int (get "column" d);
        end_line = as_int (get "end_line" d);
        end_column = as_int (get "end_column" d);
      })
    ]
  ]
]

abbrev pub is_present : Option Value → Bool
is_present none = false
is_present (some v) = is_truthy v

module _ (py : Python) where
  unfoldable pub parse_severity : String → Loaded Severity
  parse_severity value = elim (severity_named (py.normal value)) [
    | none ↦ refused unknown_severity
    | some s ↦ loaded s
  ]

  unfoldable pub evidence_from : Items → List FindingEvidence
  unfolding location_from_dict
  evidence_from no_items = []
  evidence_from (item ev xs) = elim (as_dict (some ev)) [
    | none ↦ evidence_from xs
    | some d ↦
        record {
          description = text_at py "description" d;
          location = location_from_dict (get "location" d);
        }
        ∷ evidence_from xs
  ]

  unfoldable pub gaps_from : Items → List FindingGap
  gaps_from no_items = []
  gaps_from (item gap xs) = elim (as_dict (some gap)) [
    | none ↦ gaps_from xs
    | some d ↦
        record {
          kind = text_at py "kind" d;
          message = text_at py "message" d;
          affected_file = or_null (get "affected_file" d);
          affected_function = or_null (get "affected_function" d);
        }
        ∷ gaps_from xs
  ]

  unfoldable pub record_from_fields : Fields → Loaded FindingRecord
  unfolding evidence_from gaps_from
  record_from_fields finding = do
    rule_id ← require "rule_id" finding
    named ← require "severity" finding
    severity ← parse_severity named
    fingerprint ← require "fingerprint" finding
    evidence ← iterated "evidence" (get "evidence" finding)
    gaps ← iterated "gaps" (get "gaps" finding)
    loaded (record {
      rule_id = rule_id;
      fingerprint = fingerprint;
      severity = severity;
      route_endpoint = text_at py "route_endpoint" finding;
      summary = text_at py "summary" finding;
      location = location_from_dict (get "location" finding);
      evidence = evidence_from evidence;
      gaps = gaps_from gaps;
      rule_path = text_at py "rule_path" finding;
      suppressed = is_present (get "suppressed" finding);
    })

  unfoldable pub record_from_json : Value → Loaded FindingRecord
  record_from_json finding = elim (as_dict (some finding)) [
    | none ↦ refused no_object
    | some d ↦ record_from_fields d
  ]

  unfoldable pub records_from_json : Items → Loaded (List FindingRecord)
  records_from_json no_items = loaded []
  records_from_json (item finding xs) = do
    r ← record_from_json finding
    rest ← records_from_json xs
    loaded (r ∷ rest)
