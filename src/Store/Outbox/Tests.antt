-- ===== src/Store/Outbox/Tests.antt =====
-- An outbox with a quarantine event: runs of its methods, and their theorems at concrete inputs.
use hermes_ai_devops.Common.{◌≡◌, refl, true, false, some, List, [], ◌∷◌, map, All, arith}
use hermes_ai_devops.Common.Int.{pos}
use hermes_ai_devops.Store.State.{
  MemStore, new_mem_store, OutboxEvent, OutboxRow, ResultRecord, TaskResultSignal, json_text,
  json_result,
}
use hermes_ai_devops.Store.Outbox.{
  event_task_result, has_key, find_id, enqueue, claim_unpublished, mark_published, mark_failed,
}
use hermes_ai_devops.Store.Outbox.Delivery.{
  OutboxOp, emit, publish, fail, outbox_step, outbox_run, IsSound, outbox_step-IsSound, RowAt,
  IsPending, Spares, unpublished_kept, published_final,
}

abbrev signal : TaskResultSignal
signal = record {
  task_id = "t-1";
  status = "COMPLETED";
  exit_code = pos 0;
  duration_sec = 0;
  cases_total = pos 3;
  cases_failed = pos 0;
  signatures_hit = [];
  metrics = [];
  attachments = [];
  failure_scope = "";
  failure_stage = "";
}

abbrev result : ResultRecord
result = record { task_id = "t-1"; result = signal }

abbrev event : OutboxEvent
event = record {
  id = 0;
  aggregate_type = "task";
  aggregate_id = "t-1";
  event_type = event_task_result;
  event_key = "t-1:result";
  payload = json_result (record { workflow_id = "w"; result = signal });
  attempts = 0;
  last_error = "";
}

abbrev other_event : OutboxEvent
other_event = record event { event_key = "t-2:result"; payload = json_text "{}" }

abbrev row : OutboxRow
row = record { ev = record event { id = 1 }; published = false; created_at = 5 }

abbrev done : OutboxRow
done = record row { published = true }

abbrev one : MemStore
one = record new_mem_store { outbox = row ∷ []; outbox_seq = 1 }

abbrev delivered : MemStore
delivered = record new_mem_store { outbox = done ∷ []; outbox_seq = 1 }

enqueues : (enqueue new_mem_store event 5).outbox ≡ row ∷ []
unfolding enqueue has_key
enqueues = refl

-- A failed delivery is counted, and the row is claimed again.
claims_failed : map (λ e. e.attempts) (claim_unpublished (mark_failed one 1 "down") 10) ≡ 1 ∷ []
unfolding claim_unpublished mark_failed
claims_failed = refl

claims_nothing : claim_unpublished (mark_published one 1) 10 ≡ []
unfolding claim_unpublished mark_published
claims_nothing = refl

one-IsSound : IsSound one
unfolding has_key
one-IsSound = record { numbered = (omega arith, omega arith); distinct = (refl, tt) }

outbox_step-IsSound_example : IsSound (outbox_step one (emit other_event 9))
outbox_step-IsSound_example = outbox_step-IsSound one (emit other_event 9) one-IsSound

one_row : find_id 1 one.outbox ≡ some row
unfolding find_id
one_row = refl

delivered_row : find_id 1 delivered.outbox ≡ some done
unfolding find_id
delivered_row = refl

abbrev busy_calls : List OutboxOp
busy_calls = fail 1 "down" ∷ emit other_event 9 ∷ publish 2 ∷ []

busy_calls_spare : All (Spares 1) busy_calls
busy_calls_spare = (tt, (tt, (ground arith, tt)))

unpublished_kept_example :
    RowAt 1 (IsPending "t-1:result" event.payload) (outbox_run one busy_calls)
unpublished_kept_example =
    unpublished_kept 1 "t-1:result" event.payload busy_calls one busy_calls_spare
      (row, one_row, record { unpublished = refl; keyed = refl; content = refl })

published_final_example : find_id 1 (outbox_run delivered busy_calls).outbox ≡ some done
published_final_example = published_final 1 done busy_calls delivered refl delivered_row
