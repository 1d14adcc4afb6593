-- ===== src/Findings/Tests.antt =====
-- The theorems about findings at a small capture and two small runs.
use flawed.Base.{
  String, ◌≡◌, refl, false, Option, none, some, List, [], ◌∷◌, if◌then◌else◌, ◌==◌, nat_eq,
  string_eq, pair_eq,
}
use flawed.Config.Values.{text, list_of, dict, Items, no_items, item, Fields, no_fields, field, get}
use flawed.Findings.Severity.{severity_named, high}
use flawed.Findings.Records.{Python, FindingRecord, FindingLocation, loaded}
use flawed.Findings.Loading.{
  require, record_from_fields, records_from_json, location_from_dict, parse_severity,
  record_from_json,
}
use flawed.Findings.Sarif.{load_document}
use flawed.Findings.Collection.{diff}
use flawed.Findings.Diff.{first_of, diff_decides}
use flawed.Findings.Complete.{Reads, load_document-Reads}

abbrev python : Python
python = record { render = λ _. "?"; normal = λ s. if s == "high" then "HIGH" else s }

abbrev digest : String → String → Option FindingLocation → String
digest rule summary loc = rule

abbrev a_finding : Fields
a_finding =
    field "rule_id" (text "r")
      (field "severity" (text "high") (field "fingerprint" (text "f1") no_fields))

abbrev elements : Items
elements = item (dict a_finding) no_items

abbrev capture : Fields
capture = field "findings" (list_of elements) no_fields

abbrev a_record : String → String → FindingRecord
a_record rule fp = record {
  rule_id = rule;
  fingerprint = fp;
  severity = high;
  route_endpoint = "";
  summary = "";
  location = none;
  evidence = [];
  gaps = [];
  rule_path = "";
  suppressed = false;
}

capture_findings : get "findings" capture ≡ some (list_of elements)
unfolding get
capture_findings = refl

load_document_run : load_document python digest (dict capture) ≡ loaded (a_record "r" "f1" ∷ [])
unfolding load_document records_from_json record_from_json record_from_fields require parse_severity
    severity_named location_from_dict get
load_document_run = refl

abbrev newer : List FindingRecord
newer = a_record "r" "f1" ∷ a_record "s" "f2" ∷ []

abbrev older : List FindingRecord
older = a_record "r" "f1" ∷ a_record "q" "f3" ∷ []

-- -- witnesses --------------------------------------------------------

load_document-Reads_example : Reads elements (a_record "r" "f1" ∷ [])
load_document-Reads_example =
    load_document-Reads python digest capture elements (a_record "r" "f1" ∷ []) capture_findings
      load_document_run

diff_decides_example :
    (first_of "f2" (diff newer older).added ≡ some (a_record "s" "f2"))
    × (first_of "f2" (diff newer older).removed ≡ none)
    × (first_of "f2" (diff newer older).common ≡ none)
diff_decides_example = diff_decides "f2" newer older
