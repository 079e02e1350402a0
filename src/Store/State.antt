-- ===== src/Store/State.antt =====
-- The rows and the tables of MemStore (runtime/internal/store/store.go, devices.go, tasks.go,
-- outbox.go, workflow_runs.go) and the payloads that workflow and store share
-- (runtime/internal/workflow/devicetest.go, types.go). A time is a number of nanoseconds since the
-- zero time of Go. A float64 is its bit pattern: no function here computes with one.
use hermes_ai_devops.Common.{ℕ, String, Bool, Option, List, []}
use hermes_ai_devops.Common.Dict.{Dict}
use hermes_ai_devops.Common.Int.{ℤ}

abbrev pub Float64 : Type 0
Float64 = ℕ

-- time.Second
abbrev pub second : ℕ
second = 1000000000

-- time.Time{}
abbrev pub zero_time : ℕ
zero_time = 0

pub record Client : Type 0 where
  pub client_id : String
  pub host : String
  pub version : String
  pub base_url : String

pub record Device : Type 0 where
  pub device_id : String
  pub serial : String
  pub display_name : String
  pub client_id : String
  pub reported_state : String
  pub os : String
  pub soc : String
  pub abi : String
  pub capabilities : List String
  pub mem_total_mb : Option ℕ
  pub disk_total_mb : Option ℕ
  pub disk_free_mb : Option ℕ

pub data DeviceStatus : Type 0 where
  idle busy offline quarantined : DeviceStatus

pub record DeviceRow : Type 0 where
  pub device : Device
  pub status : DeviceStatus
  pub fail_streak : ℕ
  pub lease_task_id : String
  pub lease_id : String
  pub lease_generation : ℕ
  pub lease_expires_at : ℕ
  pub released : Bool

pub record LeaseCredential : Type 0 where
  pub device_id : String
  pub client_id : String
  pub task_id : String
  pub attempt : ℤ
  pub lease_id : String
  pub generation : ℕ

pub record DeviceSelector : Type 0 where
  pub os : String
  pub soc : List String
  pub capabilities : List String

pub record Lease : Type 0 where
  pub device_id : String
  pub serial : String
  pub device_name : String
  pub soc : String
  pub abi : String
  pub os : String
  pub client_id : String
  pub client_base_url : String
  pub lease_id : String
  pub generation : ℕ

pub data FailScope : Type 0 where
  scope_ok scope_device scope_client scope_none : FailScope

pub record TaskRow : Type 0 where
  pub task_id : String
  pub workflow_id : String
  pub test_id : String
  pub attempt : ℕ
  pub idempotency_key : String
  pub client_id : String
  pub device_id : String
  pub status : String

pub record TaskRecord : Type 0 where
  pub row : TaskRow
  pub verdict : String
  pub category : String
  pub reason : String
  pub seq : ℕ
  pub ended_at : ℕ

pub record TaskEvent : Type 0 where
  pub task_id : String
  pub seq : ℕ
  pub from_state : String
  pub to_state : String

pub record Attachment : Type 0 where
  pub name : String
  pub object_key : String
  pub sha256 : String
  pub size : ℕ

pub record TaskResultSignal : Type 0 where
  pub task_id : String
  pub status : String
  pub exit_code : ℤ
  pub duration_sec : Float64
  pub cases_total : ℤ
  pub cases_failed : ℤ
  pub signatures_hit : List String
  pub metrics : Dict Float64
  pub attachments : List Attachment
  pub failure_scope : String
  pub failure_stage : String

pub record ResultRecord : Type 0 where
  pub task_id : String
  pub result : TaskResultSignal

pub record FinishRequest : Type 0 where
  pub task_id : String
  pub status : String
  pub verdict : String
  pub category : String
  pub reason : String

pub record QuarantineEventPayload : Type 0 where
  pub device_id : String
  pub client_id : String
  pub serial : String
  pub display_name : String
  pub fail_streak : ℕ
  pub task_id : String
  pub failure_stage : String

pub record ResultEventPayload : Type 0 where
  pub workflow_id : String
  pub result : TaskResultSignal

-- A JSON text, by what it encodes; `json_text` is one that is not valid JSON of an object.
pub data Payload : Type 0 where
  json_quarantine : QuarantineEventPayload → Payload
  json_result : ResultEventPayload → Payload
  json_text : String → Payload

pub record OutboxEvent : Type 0 where
  pub id : ℕ
  pub aggregate_type : String
  pub aggregate_id : String
  pub event_type : String
  pub event_key : String
  pub payload : Payload
  pub attempts : ℕ
  pub last_error : String

pub record OutboxRow : Type 0 where
  pub ev : OutboxEvent
  pub published : Bool
  pub created_at : ℕ

pub record AuditEntry : Type 0 where
  pub actor : String
  pub action : String
  pub target : String
  pub payload_digest : String

pub record DecisionRow : Type 0 where
  pub task_id : String
  pub actor : String
  pub input_digest : String
  pub model : String
  pub prompt_version : String
  pub output : String
  pub evidence_snapshot_id : String

pub record VariantRequirements : Type 0 where
  pub os : String
  pub abi : String
  pub soc : List String
  pub capabilities : List String
  pub min_free_storage_mb : ℕ

pub record VariantSignature : Type 0 where
  pub id : String
  pub place : String
  pub regexp : String
  pub classify : String

pub record Artifact : Type 0 where
  pub project : String
  pub commit_sha : String
  pub pipeline_id : ℕ
  pub variant : String
  pub build_type : String
  pub version : String
  pub url : String
  pub sha256 : String
  pub size : ℕ
  pub manifest_digest : String
  pub workflow_attempt : ℕ
  pub variant_requirements : Option VariantRequirements
  pub variant_signatures : List VariantSignature

pub record WorkflowRun : Type 0 where
  pub workflow_id : String
  pub project : String
  pub commit_sha : String
  pub pipeline_id : ℤ
  pub version : String
  pub rule_version : String
  pub scope : String
  pub attempt : ℤ
  pub variants : List String
  pub source_workflow_id : String
  pub created_at : ℕ

pub record EvidenceSnapshot : Type 0 where
  pub evidence_id : String
  pub task_id : String
  pub attempt : ℕ
  pub object_key : String
  pub sha256 : String
  pub extractor_version : String

pub record MetricPoint : Type 0 where
  pub project : String
  pub variant : String
  pub suite : String
  pub metric_name : String
  pub value : Float64
  pub task_id : String

-- The maps outboxByKey and outboxByID hold pointers to the rows of `outbox`, and a row enters all
-- three at once: they are lookups in `outbox` here. `translations` is not modelled.
pub record MemStore : Type 0 where
  pub rows : Dict Artifact
  pub clients : Dict Client
  pub devices : Dict DeviceRow
  pub tasks : Dict TaskRecord
  pub events : Dict TaskEvent
  pub results : Dict ResultRecord
  pub decisions : List DecisionRow
  pub outbox : List OutboxRow
  pub outbox_seq : ℕ
  pub workflow_runs : Dict WorkflowRun
  pub run_seq : Dict ℕ
  pub evidence_snaps : Dict EvidenceSnapshot
  pub metrics : List MetricPoint
  pub client_fail_streak : Dict ℕ
  pub audit_log : List AuditEntry
  pub seq : ℕ
  pub row_seq : Dict ℕ

abbrev pub new_mem_store : MemStore
new_mem_store = record {
  rows = [];
  clients = [];
  devices = [];
  tasks = [];
  events = [];
  results = [];
  decisions = [];
  outbox = [];
  outbox_seq = 0;
  workflow_runs = [];
  run_seq = [];
  evidence_snaps = [];
  metrics = [];
  client_fail_streak = [];
  audit_log = [];
  seq = 0;
  row_seq = [];
}
