-- ===== src/Callbacks/Reports.antt =====
-- The handlers of task events and of results (runtime/internal/callbacks/handler.go, taskEvent and
-- result).
use Prim.Native.String.{◌++◌ as str_append}
use hermes_ai_devops.Common.{
  ℕ, zero, suc, String, not, ◌||◌, Option, none, some, List, if◌then◌else◌, ◌==◌, string_eq,
}
use hermes_ai_devops.Common.Int.{ℤ, pos, negsuc}
use hermes_ai_devops.Common.Dict.{Dict}
use hermes_ai_devops.Store.State.{
  MemStore, Attachment, Float64, TaskEvent, TaskRow, TaskResultSignal, json_result, OutboxEvent,
}
use hermes_ai_devops.Store.Tasks.{get_task, append_task_event, set_task_status}
use hermes_ai_devops.Store.Outbox.{event_task_result, save_result_with_outbox}
use hermes_ai_devops.Callbacks.{Faults, Response, bad_request, store_error, accepted}

-- taskEventReq; the key, the time and the detail are not read.
pub record TaskEventReq : Type 0 where
  pub task_id : String
  pub seq : ℤ
  pub from_state : String
  pub to_state : String

-- A number of an event that is at least 1.
abbrev pub event_number : ℤ → Option ℕ
event_number (pos zero) = none
event_number (pos (suc n)) = some (suc n)
event_number (negsuc n) = none

abbrev pub valid_event : TaskEventReq → Option ℕ
valid_event ev = if ev.task_id == "" || ev.to_state == "" then none else event_number ev.seq

abbrev pub stored_event : TaskEventReq → ℕ → TaskEvent
stored_event ev seq = record {
  task_id = ev.task_id;
  seq = seq;
  from_state = ev.from_state;
  to_state = ev.to_state;
}

-- The status follows only an event that is new.
unfoldable pub record_event : Faults → MemStore → TaskEvent → MemStore × Response
record_event f s ev =
    if f.append_fails
    then (s, store_error)
    else (let (t, inserted) = append_task_event s ev in
        if not inserted
        then (t, accepted)
        else if f.set_status_fails
        then (t, store_error)
        else (set_task_status t ev.task_id ev.to_state, accepted))

unfoldable pub task_event : Faults → MemStore → Option TaskEventReq → MemStore × Response
unfolding record_event
task_event f s none = (s, bad_request "bad_event")
task_event f s (some ev) = elim (valid_event ev) [
  | none ↦ (s, bad_request "bad_event")
  | some seq ↦
      if f.get_task_fails ev.task_id then (s, store_error) else elim (get_task s ev.task_id) [
        | none ↦ (s, bad_request "unknown_task")
        | some row ↦ record_event f s (stored_event ev seq)
      ]
]

-- resultDoc
pub record ResultDoc : Type 0 where
  pub status : String
  pub exit_code : ℤ
  pub duration_sec : Float64
  pub cases_total : ℤ
  pub cases_failed : ℤ
  pub signatures_hit : List String
  pub metrics : Dict Float64
  pub attachments : List Attachment
  pub failure_scope : String
  pub failure_stage : String

-- The result of a request: no bytes, no JSON, JSON that breaks the schema, or JSON that keeps it, with
-- what the decoder into resultDoc gives.
pub data Document : Type 0 where
  missing not_json violation : Document
  conforming : Option ResultDoc → Document

pub record ResultReq : Type 0 where
  pub task_id : String
  pub result : Document

abbrev pub signal_of : String → ResultDoc → TaskResultSignal
signal_of task_id d = record {
  task_id = task_id;
  status = d.status;
  exit_code = d.exit_code;
  duration_sec = d.duration_sec;
  cases_total = d.cases_total;
  cases_failed = d.cases_failed;
  signatures_hit = d.signatures_hit;
  metrics = d.metrics;
  attachments = d.attachments;
  failure_scope = d.failure_scope;
  failure_stage = d.failure_stage;
}

abbrev pub result_key : String → String
result_key task_id = str_append task_id ":result"

abbrev pub result_event : TaskRow → String → TaskResultSignal → OutboxEvent
result_event row task_id sig = record {
  id = 0;
  aggregate_type = "task";
  aggregate_id = task_id;
  event_type = event_task_result;
  event_key = result_key task_id;
  payload = json_result (record { workflow_id = row.workflow_id; result = sig });
  attempts = 0;
  last_error = "";
}

-- The store, the answer, and the signal that is sent at once to a workflow, whatever becomes of it.
pub record Handled : Type 0 where
  pub store : MemStore
  pub response : Response
  pub signaled : Option (String × TaskResultSignal)

abbrev pub refused : MemStore → Response → Handled
refused s r = record { store = s; response = r; signaled = none }

unfoldable pub save_report : Faults → MemStore → ℕ → TaskRow → String → ResultDoc → Handled
save_report f s now row task_id d =
    let sig = signal_of task_id d in
    if f.save_fails
    then refused s store_error
    else (let (t, inserted) =
          save_result_with_outbox s (record { task_id = task_id; result = sig })
            (result_event row task_id sig) now in
        record {
          store = t;
          response = accepted;
          signaled = if inserted then some (row.workflow_id, sig) else none;
        })

unfoldable pub conforming_result : Faults → MemStore → ℕ → String → Option ResultDoc → Handled
unfolding save_report
conforming_result f s now task_id doc =
    if f.get_task_fails task_id then refused s store_error else elim (get_task s task_id) [
      | none ↦ refused s (bad_request "unknown_task")
      | some row ↦ elim doc [
        | none ↦ refused s (bad_request "bad_result")
        | some d ↦ save_report f s now row task_id d
      ]
    ]

abbrev pub read_document : Faults → MemStore → ℕ → String → Document → Handled
read_document f s now task_id missing = refused s (bad_request "bad_result")
read_document f s now task_id not_json = refused s (bad_request "bad_result")
read_document f s now task_id violation = refused s (bad_request "schema_violation")
read_document f s now task_id (conforming doc) = conforming_result f s now task_id doc

unfoldable pub result_report : Faults → MemStore → ℕ → Option ResultReq → Handled
unfolding conforming_result
result_report f s now none = refused s (bad_request "bad_result")
result_report f s now (some req) =
    if req.task_id == ""
    then refused s (bad_request "bad_result")
    else read_document f s now req.task_id req.result
