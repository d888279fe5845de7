-- ===== src/Updates/Differences/Drafts.antt =====
-- packages/updates/src/types.ts and differences.ts: kinds of differences, labels and drafts.
use api_truth.Prelude.{Option, List, String}
use api_truth.Prelude.Text.{Str, lit}
use api_truth.Json.{Json}

pub data DifferenceKind : Type 0 where
  endpoint_added endpoint_removed endpoint_absence_unconfirmed : DifferenceKind
  endpoint_path_parameter_names_changed : DifferenceKind
  parameter_added parameter_removed parameter_changed : DifferenceKind
  request_body_added request_body_removed request_body_changed : DifferenceKind
  response_added response_removed response_changed security_changed : DifferenceKind
  schema_added schema_removed schema_changed : DifferenceKind
  claim_added claim_removed claim_changed : DifferenceKind
  condition_added condition_removed condition_changed : DifferenceKind
  fact_absence_unconfirmed analysis_coverage_changed analysis_identity_changed : DifferenceKind
  analysis_diagnostic_added analysis_diagnostic_resolved : DifferenceKind

-- The name in DIFFERENCE_KINDS, and its position there, padded to three digits.
pub record KindName : Type 0 where
  pub name : Str
  pub index : Str

abbrev kind_named : String → String → KindName
kind_named name index = record { name = lit name; index = lit index }

unfoldable pub kind_name : DifferenceKind → KindName
kind_name endpoint_added = kind_named "endpoint.added" "000"
kind_name endpoint_removed = kind_named "endpoint.removed" "001"
kind_name endpoint_absence_unconfirmed = kind_named "endpoint.absence_unconfirmed" "002"
kind_name endpoint_path_parameter_names_changed =
    kind_named "endpoint.path_parameter_names_changed" "003"
kind_name parameter_added = kind_named "parameter.added" "004"
kind_name parameter_removed = kind_named "parameter.removed" "005"
kind_name parameter_changed = kind_named "parameter.changed" "006"
kind_name request_body_added = kind_named "request_body.added" "007"
kind_name request_body_removed = kind_named "request_body.removed" "008"
kind_name request_body_changed = kind_named "request_body.changed" "009"
kind_name response_added = kind_named "response.added" "010"
kind_name response_removed = kind_named "response.removed" "011"
kind_name response_changed = kind_named "response.changed" "012"
kind_name security_changed = kind_named "security.changed" "013"
kind_name schema_added = kind_named "schema.added" "014"
kind_name schema_removed = kind_named "schema.removed" "015"
kind_name schema_changed = kind_named "schema.changed" "016"
kind_name claim_added = kind_named "claim.added" "017"
kind_name claim_removed = kind_named "claim.removed" "018"
kind_name claim_changed = kind_named "claim.changed" "019"
kind_name condition_added = kind_named "condition.added" "020"
kind_name condition_removed = kind_named "condition.removed" "021"
kind_name condition_changed = kind_named "condition.changed" "022"
kind_name fact_absence_unconfirmed = kind_named "fact.absence_unconfirmed" "023"
kind_name analysis_coverage_changed = kind_named "analysis.coverage_changed" "024"
kind_name analysis_identity_changed = kind_named "analysis.identity_changed" "025"
kind_name analysis_diagnostic_added = kind_named "analysis.diagnostic_added" "026"
kind_name analysis_diagnostic_resolved = kind_named "analysis.diagnostic_resolved" "027"

pub data CompatibilityLabel : Type 0 where
  non_breaking potentially_breaking unknown : CompatibilityLabel

-- `affected_endpoint_ids` is empty if it is left out.
pub record DifferenceSubject : Type 0 where
  pub service_id : Str
  pub endpoint_id : Option Str
  pub component_id : Option Str
  pub affected_endpoint_ids : List Str
  pub fact_kind : Str
  pub fact_key : Str

pub record DifferenceDraft : Type 0 where
  pub kind : DifferenceKind
  pub compatibility : CompatibilityLabel
  pub subject : DifferenceSubject
  pub before : Option Json
  pub after : Option Json
