-- ===== src/Findings/Severity.antt =====
-- The ladder of severities, src/flawed/severity.py.
use flawed.Base.{
  ℕ, String, Option, none, some, List, [], ◌∷◌, leb, nat_beq, if◌then◌else◌, ◌==◌, nat_eq,
  string_eq, pair_eq,
}

pub data Severity : Type 0 where
  info : Severity
  low : Severity
  medium : Severity
  high : Severity
  critical : Severity

-- the value of the member, by which members are ordered
abbrev pub value_of : Severity → ℕ
value_of info = 10
value_of low = 20
value_of medium = 30
value_of high = 40
value_of critical = 50

abbrev pub label : Severity → String
label info = "info"
label low = "low"
label medium = "medium"
label high = "high"
label critical = "critical"

unfoldable pub sarif_level : Severity → String
sarif_level s =
    if leb (value_of high) (value_of s)
    then "error"
    else if nat_beq (value_of s) (value_of medium)
    then "warning"
    else "note"

-- `cls[name]` where `name` is the text stripped and in capitals
unfoldable pub severity_named : String → Option Severity
severity_named name =
    if name == "INFO"
    then some info
    else if name == "LOW"
    then some low
    else if name == "MEDIUM"
    then some medium
    else if name == "HIGH"
    then some high
    else if name == "CRITICAL"
    then some critical
    else none

-- from most to least severe
abbrev pub ordered : List Severity
ordered = critical ∷ high ∷ medium ∷ low ∷ info ∷ []

-- the severity of a SARIF level
unfoldable pub sarif_level_severity : String → Severity
sarif_level_severity level =
    if level == "error"
    then high
    else if level == "warning"
    then medium
    else if level == "note"
    then low
    else if level == "none"
    then info
    else low
