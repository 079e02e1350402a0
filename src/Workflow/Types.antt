-- ===== src/Workflow/Types.antt =====
-- The payloads of the workflow (runtime/internal/workflow/devicetest.go, types.go) and the analysis
-- that an attempt passes on (runtime/internal/hermesclient/hermesclient.go).
use hermes_ai_devops.Common.{ℕ, String, Bool, Option, List}
use hermes_ai_devops.Common.Int.{ℤ}
use hermes_ai_devops.Common.Dict.{Dict}
use hermes_ai_devops.Store.State.{
  Float64, DeviceSelector, Attachment, VariantRequirements, VariantSignature,
}
use hermes_ai_devops.Rules.{Category}

pub record PackageRef : Type 0 where
  pub variant : String
  pub package_file : String
  pub url : String
  pub sha256 : String
  pub size : ℕ
  pub manifest_digest : String
  pub requirements : Option VariantRequirements
  pub failure_signatures : List VariantSignature

pub record DeviceTestInput : Type 0 where
  pub project : String
  pub commit : String
  pub pipeline_id : ℕ
  pub version : String
  pub packages : List PackageRef
  pub scope : String
  pub rule_version : String
  pub attempt : ℕ
  pub source_workflow_id : String
  pub submitter : String

pub record TestSpec : Type 0 where
  pub test_id : String
  pub variant : String
  pub pkg : PackageRef
  pub selector : DeviceSelector
  pub signature_category : Dict Category
  pub max_infra_retries : ℕ
  pub lease_seconds : ℕ
  pub hard_timeout_sec : ℕ
  pub device_wait_rounds : ℕ
  pub device_wait_seconds : ℕ

-- A JSON text is opaque.
pub record ExtractEvidenceResponse : Type 0 where
  pub evidence_json : String
  pub digest : String
  pub matched_signatures : List String
  pub snapshot_id : String

pub record EscalationGateResponse : Type 0 where
  pub enabled : Bool
  pub min_confidence : Float64
  pub already_escalated : Bool

pub record Analysis : Type 0 where
  pub analysis_version : ℕ
  pub model : String
  pub summary : String
  pub root_cause : String
  pub suggested_category : String
  pub confidence : Float64
  pub next_actions : List String
  pub disagrees_with_rule : Bool

pub record EscalationRequest : Type 0 where
  pub task_id : String
  pub project : String
  pub commit : String
  pub pipeline_id : ℕ
  pub variant : String
  pub verdict : String
  pub category : String
  pub reason : String
  pub signature_or_category : String
  pub analysis : Option Analysis
  pub evidence_snapshot_id : String

pub record DispatchRequest : Type 0 where
  pub task_id : String
  pub idempotency_key : String
  pub attempt : ℕ
  pub package_url : String
  pub package_sha256 : String
  pub manifest_digest : String
  pub device_serial : String
  pub client_base_url : String
  pub lease_id : String
  pub lease_generation : ℕ

pub record TaskSummary : Type 0 where
  pub test_id : String
  pub variant : String
  pub task_id : String
  pub attempt : ℕ
  pub device_name : String
  pub verdict : String
  pub category : String
  pub reason : String
  pub duration_sec : Float64
  pub cases_total : ℤ
  pub cases_failed : ℤ
  pub attachments : List Attachment
  pub metrics : Dict Float64
  pub analysis : Option Analysis
  pub retryable : Bool
