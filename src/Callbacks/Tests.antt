-- ===== src/Callbacks/Tests.antt =====
-- Reports and heartbeats at a sample store, and the theorems applied to them.
use hermes_ai_devops.Common.{◌≡◌, ◌⊎◌, refl, true, false, none, some, [], ◌∷◌, map}
use hermes_ai_devops.Common.Int.{pos}
use hermes_ai_devops.Common.Dict.{lookup, insert}
use hermes_ai_devops.Common.Text.Ascii.{
  to_upper, to_lower, trim_space, has_suffix, has_char, before_char,
}
use hermes_ai_devops.Store.State.{MemStore, new_mem_store, TaskRow}
use hermes_ai_devops.Store.Devices.{upsert_client_devices, available_state}
use hermes_ai_devops.Store.Leases.{owns_lease}
use hermes_ai_devops.Store.Tasks.{create_task, get_task, get_result}
use hermes_ai_devops.Store.Outbox.{has_key, save_result_with_outbox}
use hermes_ai_devops.Relay.{Config, sent, Answer}
use hermes_ai_devops.Callbacks.{Faults, accepted, is_accepted}
use hermes_ai_devops.Callbacks.Heartbeat.{
  Settings, ReportedDevice, legacy, active, HeartbeatReq, strip_alias, model_name, suffixed_name,
  normalize, registered_device, heartbeat, renew_active,
}
use hermes_ai_devops.Callbacks.Reports.{
  TaskEventReq, ResultDoc, conforming, ResultReq, signal_of, result_key, refused, save_report,
  conforming_result, result_report,
}
use hermes_ai_devops.Callbacks.Repeats.{IsTaken, result_report_outcome}
use hermes_ai_devops.Callbacks.Renewals.{unowned, heartbeat_not_owned}

abbrev healthy : Faults
healthy = record {
  upsert_fails = false;
  get_task_fails = λ id. false;
  renew_fails = λ id. false;
  append_fails = false;
  set_status_fails = false;
  save_fails = false;
}

abbrev status_broken : Faults
status_broken = record healthy { set_status_fails = true }

abbrev task_row : TaskRow
task_row = record {
  task_id = "w:t:a1";
  workflow_id = "w";
  test_id = "t";
  attempt = 1;
  idempotency_key = "k";
  client_id = "c";
  device_id = "S1";
  status = "RUNNING";
}

abbrev one_task : MemStore
one_task = create_task new_mem_store task_row

abbrev event_req : TaskEventReq
event_req = record {
  task_id = "w:t:a1";
  seq = pos 4;
  from_state = "RUNNING";
  to_state = "COLLECTING";
}

abbrev result_doc : ResultDoc
result_doc = record {
  status = "COMPLETED";
  exit_code = pos 0;
  duration_sec = 0;
  cases_total = pos 3;
  cases_failed = pos 0;
  signatures_hit = [];
  metrics = [];
  attachments = [];
  failure_scope = "";
  failure_stage = "";
}

abbrev result_req : ResultReq
result_req = record { task_id = "w:t:a1"; result = conforming (some result_doc) }

abbrev settings : Settings
settings = record {
  lease_sec = 120;
  device_caps = ("qcm6125", "npu" ∷ []) ∷ [];
  soc_aliases = ("trinket", "QCM6125") ∷ [];
}

abbrev reported : ReportedDevice
reported = record {
  serial = "S1";
  display_name = "QCM6125;IDP:QCS6490-S1";
  state = "idle";
  os = "";
  soc = "trinket:QCM6125;idp:QCS6490";
  abi = "arm64-v8a";
  capabilities = [];
  mem_total_mb = none;
  disk_total_mb = none;
  disk_free_mb = none;
}

abbrev beat_req : HeartbeatReq
beat_req = record {
  client_id = "c";
  agent_version = "1";
  base_url = "http://c";
  devices = reported ∷ [];
  active_task_ids =
      legacy "old"
      ∷ active "w:t:a1" (pos 1) "lease" (pos 1)
      ∷ active "gone" (pos 1) "x" (pos 1)
      ∷ [];
}

-- A SoC that is a whole alias table keeps its first entry, which is no key of the table.
cleans_soc : normalize settings reported ≡ ("trinket:QCM6125", "TRINKET:QCM6125-S1")
unfolding normalize strip_alias suffixed_name model_name to_upper to_lower trim_space has_suffix
    has_char before_char lookup
cleans_soc = refl

beats : (heartbeat settings healthy 5 (some beat_req) one_task).response ≡ accepted
unfolding heartbeat renew_active create_task get_task lookup upsert_client_devices insert owns_lease
    available_state
beats = refl

-- The store after the report.
abbrev with_result : MemStore
with_result = (result_report healthy one_task 7 (some result_req)).store

has_result :
    get_result with_result "w:t:a1"
    ≡ some (record { task_id = "w:t:a1"; result = signal_of "w:t:a1" result_doc })
unfolding result_report conforming_result save_report create_task get_task get_result lookup
    save_result_with_outbox insert
has_result = refl

still_finds_task : get_task with_result "w:t:a1" ≡ some task_row
unfolding result_report conforming_result save_report create_task get_task lookup
    save_result_with_outbox insert
still_finds_task = refl

has_event : has_key (result_key "w:t:a1") with_result.outbox ≡ true
unfolding result_report conforming_result save_report create_task get_task lookup
    save_result_with_outbox insert has_key
has_event = refl

result_report_outcome_example :
    (let h = result_report healthy one_task 7 (some result_req) in
      ((is_accepted h.response ≡ false) × (h ≡ refused one_task h.response))
      ⊎ (IsTaken one_task result_req h
          × (result_report healthy with_result 9 (some result_req) ≡ refused with_result accepted)))
result_report_outcome_example =
    result_report_outcome healthy healthy one_task with_result 7 9 result_req task_row
      (record { task_id = "w:t:a1"; result = signal_of "w:t:a1" result_doc }) (refl, refl)
      (still_finds_task, has_result) has_event

heartbeat_not_owned_example :
    (heartbeat settings healthy 5 (some beat_req) one_task).not_owned
    ≡ unowned healthy "c"
        (upsert_client_devices one_task
          (record { client_id = "c"; host = ""; version = "1"; base_url = "http://c" })
          (map (registered_device settings "c") (reported ∷ [])))
        beat_req.active_task_ids
heartbeat_not_owned_example = heartbeat_not_owned settings healthy 5 beat_req one_task beats

abbrev relay_config : Config
relay_config = record {
  has_notifier = true;
  device_notify_disabled = false;
  batch_size = 10;
  poll_interval = 5;
  max_backoff = 60;
  backlog_warn_age = 0;
}

abbrev all_sent : Answer
all_sent = record { signaled = sent; notify_error = none; stored = true }
