-- ===== src/Relay/Tests.antt =====
-- The relay with one event: its theorems at concrete inputs.
use hermes_ai_devops.Common.{◌≡◌, refl, true, false, none, [], ◌∷◌}
use hermes_ai_devops.Store.State.{MemStore, new_mem_store, OutboxEvent, json_quarantine}
use hermes_ai_devops.Store.Outbox.{event_device_quarantined}
use hermes_ai_devops.Relay.{Config, Answer, sent, Loop, run_round, run}

abbrev config : Config
config = record {
  has_notifier = false;
  device_notify_disabled = false;
  batch_size = 20;
  poll_interval = 2;
  max_backoff = 30;
  backlog_warn_age = 300;
}

abbrev loop : Loop
loop = record { store = new_mem_store; backoff = 2; effects = [] }

abbrev event : OutboxEvent
event = record {
  id = 1;
  aggregate_type = "device";
  aggregate_id = "a";
  event_type = event_device_quarantined;
  event_key = "a:q";
  payload = json_quarantine (record {
    device_id = "a";
    client_id = "win1";
    serial = "a";
    display_name = "A";
    fail_streak = 3;
    task_id = "t";
    failure_stage = "reserve";
  });
  attempts = 0;
  last_error = "";
}

abbrev store : MemStore
store = record new_mem_store {
  outbox = record { ev = event; published = false; created_at = 5 } ∷ [];
  outbox_seq = 1;
}

abbrev answer : Answer
answer = record { signaled = sent; notify_error = none; stored = true }

-- Five failures to claim: 4, 8, 16, 30, 30.
backs_off : (run config loop (none ∷ none ∷ none ∷ none ∷ none ∷ [])).backoff ≡ 30
unfolding run run_round
backs_off = refl
