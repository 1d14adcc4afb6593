-- ===== src/Findings/Sarif.antt =====
-- Findings from a SARIF log, and the choice of the format: src/flawed/findings.py.
use flawed.Base.{
  String, Option, none, some, List, [], ◌∷◌, ◌++◌, if◌then◌else◌, ◌==◌, nat_eq, string_eq, pair_eq,
}
use flawed.Config.Values.{
  nat, Value, text, Items, no_items, item, Fields, no_fields, field, get, as_dict,
}
use flawed.Findings.Severity.{Severity, sarif_level_severity}
use flawed.Findings.Records.{
  Python, FindingLocation, FindingRecord, no_object, unrecognized, Loaded, loaded, refused, ◌>>=◌,
  as_int, as_text, as_list, iterated, text_at,
}
use flawed.Findings.Loading.{require, parse_severity, is_present, records_from_json}

abbrev dict_or_empty : Option Value → Fields
dict_or_empty raw = elim (as_dict raw) [ none ↦ no_fields | some d ↦ d ]

abbrev first_dict : Items → Option Fields
first_dict no_items = none
first_dict (item v xs) = as_dict (some v)

-- a dict at a key of a dict that may be missing
abbrev dict_in : String → Option Fields → Option Fields
dict_in key none = none
dict_in key (some d) = as_dict (get key d)

-- `physicalLocation` of the first location
unfoldable pub physical_location : Fields → Option Fields
physical_location result = elim (as_list (get "locations" result)) [
  | none ↦ none
  | some xs ↦ dict_in "physicalLocation" (first_dict xs)
]

unfoldable pub sarif_location : Fields → Option FindingLocation
unfolding physical_location
sarif_location result = elim (physical_location result) [
  | none ↦ none
  | some physical ↦ elim (dict_in "artifactLocation" (some physical)) [
    | none ↦ none
    | some artifact ↦ elim (as_text (get "uri" artifact)) [
      | none ↦ none
      | some uri ↦
          let region = dict_or_empty (get "region" physical) in
          some (record {
            file = uri;
            line = elim (as_int (get "startLine" region)) [ none ↦ nat 0 | some n ↦ n ];
            column = as_int (get "startColumn" region);
            end_line = as_int (get "endLine" region);
            end_column = as_int (get "endColumn" region);
          })
    ]
  ]
]

-- the first value that is a text and not empty
unfoldable pub first_text : Fields → Option String
first_text no_fields = none
first_text (field key (text s) d) = if s == "" then first_text d else some s
first_text (field key v d) = first_text d

abbrev preferred : Fields → Option String
preferred prints = elim (as_text (get "flawedFingerprint/v1" prints)) [
  | none ↦ first_text prints
  | some s ↦ if s == "" then first_text prints else some s
]

-- the digest of rule, summary and place is a parameter
module _ (py : Python) (digest : String → String → Option FindingLocation → String) where
  unfoldable pub sarif_fingerprint : Fields → String → String → String
  sarif_fingerprint result rule_id summary =
      elim (preferred (dict_or_empty (get "partialFingerprints" result))) [
        | some s ↦ s
        | none ↦ digest rule_id summary (sarif_location result)
      ]

  abbrev sarif_severity : Fields → Loaded Severity
  sarif_severity result =
      elim (as_text (get "severity" (dict_or_empty (get "properties" result)))) [
        | some named ↦ parse_severity py named
        | none ↦ elim (as_text (get "level" result)) [
          | none ↦ loaded (sarif_level_severity "")
          | some level ↦ loaded (sarif_level_severity level)
        ]
      ]

  unfoldable pub record_from_sarif : Fields → Loaded FindingRecord
  unfolding sarif_fingerprint
  record_from_sarif result = do
    rule_id ← require "ruleId" result
    severity ← sarif_severity result
    let summary = text_at py "text" (dict_or_empty (get "message" result))
    loaded (record {
      rule_id = rule_id;
      fingerprint = sarif_fingerprint result rule_id summary;
      severity = severity;
      route_endpoint = "";
      summary = summary;
      location = sarif_location result;
      evidence = [];
      gaps = [];
      rule_path = "";
      suppressed = is_present (get "suppressions" result);
    })

  unfoldable pub results_from_sarif : Items → Loaded (List FindingRecord)
  results_from_sarif no_items = loaded []
  results_from_sarif (item v xs) = elim (as_dict (some v)) [
    | none ↦ results_from_sarif xs
    | some result ↦ (do
      r ← record_from_sarif result
      rest ← results_from_sarif xs
      loaded (r ∷ rest))
  ]

  unfoldable pub records_from_sarif : Items → Loaded (List FindingRecord)
  records_from_sarif no_items = loaded []
  records_from_sarif (item v runs) = elim (as_dict (some v)) [
    | none ↦ records_from_sarif runs
    | some run ↦ (do
      results ← iterated "results" (get "results" run)
      records ← results_from_sarif results
      rest ← records_from_sarif runs
      loaded (records ++ rest))
  ]

  -- `load_findings` on the value of its JSON document
  unfoldable pub load_document : Value → Loaded (List FindingRecord)
  load_document document = elim (as_dict (some document)) [
    | none ↦ refused no_object
    | some d ↦ elim (as_list (get "findings" d)) [
      | some xs ↦ records_from_json py xs
      | none ↦ elim (as_list (get "runs" d)) [
        | some runs ↦ records_from_sarif runs
        | none ↦ refused unrecognized
      ]
    ]
  ]
