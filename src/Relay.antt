-- ===== src/Relay.antt =====
-- The outbox relay (runtime/internal/relay/relay.go): it claims events, delivers each one as a
-- Temporal signal or as a notification, and marks the row. What Temporal, the notifier and the
-- database answer is the environment's: an `Answer` for each delivery, a `Round` for each turn of the
-- loop. Logging and sleeping are left out; a canceled context ends a round early.
pub mod Delivery
pub mod Backoff
mod Tests
use Prim.Native.String.{◌++◌ as str_append}
use mathlib.Core.List.{◌++◌}
use hermes_ai_devops.Common.{
  ℕ, ◌+◌, ◌*◌, String, Bool, true, false, not, ◌&&◌, ◌||◌, Option, none, some, List, [], ◌∷◌, leb,
  ltb, if◌then◌else◌, ◌==◌, string_eq, nat_eq,
}
use hermes_ai_devops.Common.Int.{ℤ, pos}
use hermes_ai_devops.Common.Text.{itoa}
use hermes_ai_devops.Store.State.{
  MemStore, TaskResultSignal, QuarantineEventPayload, ResultEventPayload, Payload, json_quarantine,
  json_result, json_text, OutboxEvent,
}
use hermes_ai_devops.Store.Outbox.{
  event_task_result, event_device_quarantined, claim_unpublished, mark_published, mark_failed,
  OutboxBacklog,
}

pub record Config : Type 0 where
  pub has_notifier : Bool
  pub device_notify_disabled : Bool
  pub batch_size : ℕ
  pub poll_interval : ℕ
  pub max_backoff : ℕ
  pub backlog_warn_age : ℕ

-- SignalWorkflow's answer.
pub data Signaled : Type 0 where
  sent not_found : Signaled
  signal_error : String → Signaled

-- `notify_error` is SendText's error, `stored` whether the store took the mark.
pub record Answer : Type 0 where
  pub signaled : Signaled
  pub notify_error : Option String
  pub stored : Bool

-- What went out.
pub data Effect : Type 0 where
  signaled_workflow : String → TaskResultSignal → Effect
  sent_text : String → Effect

abbrev zero_result : TaskResultSignal
zero_result = record {
  task_id = "";
  status = "";
  exit_code = pos 0;
  duration_sec = 0;
  cases_total = pos 0;
  cases_failed = pos 0;
  signatures_hit = [];
  metrics = [];
  attachments = [];
  failure_scope = "";
  failure_stage = "";
}

-- json.Unmarshal into ResultEventPayload: a payload of the other kind has none of its fields.
abbrev pub decode_result : Payload → Option ResultEventPayload
decode_result (json_result p) = some p
decode_result (json_quarantine p) = some (record { workflow_id = ""; result = zero_result })
decode_result (json_text t) = none

abbrev pub decode_quarantine : Payload → Option QuarantineEventPayload
decode_quarantine (json_quarantine p) = some p
decode_quarantine (json_result p) = some (record {
  device_id = "";
  client_id = "";
  serial = "";
  display_name = "";
  fail_streak = 0;
  task_id = "";
  failure_stage = "";
})
decode_quarantine (json_text t) = none

-- The store's error in MarkPublished or MarkFailed leaves the row as it is.
abbrev pub publish : MemStore → OutboxEvent → Answer → MemStore
publish s ev a = if a.stored then mark_published s ev.id else s

abbrev pub fail : MemStore → OutboxEvent → Answer → String → MemStore
fail s ev a cause = if a.stored then mark_failed s ev.id cause else s

unfoldable pub quarantine_text : QuarantineEventPayload → String
quarantine_text p = str_append "[hermes-devops] 设备已自动隔离\n设备: " (
    str_append p.display_name (
      str_append " (" (
        str_append p.device_id (
          str_append ")\nclient: " (
            str_append p.client_id (
              str_append "\n连续失败: " (
                str_append (itoa p.fail_streak) (
                  str_append " 次\n触发任务: " (
                    str_append p.task_id (
                      str_append "\n失败阶段: " (
                        str_append p.failure_stage
                          (str_append "\n解除: 发送 unquarantine " p.device_id))))))))))))

-- The cause that MarkFailed is given, where it is an error of the decoder.
abbrev pub decode_error : String
decode_error = "decode payload: invalid JSON"

deliver_result : MemStore → OutboxEvent → Answer → MemStore × List Effect
deliver_result s ev a = elim (decode_result ev.payload) [
  | none ↦ (fail s ev a decode_error, [])
  | some p ↦ elim a.signaled [
    | sent ↦ (publish s ev a, signaled_workflow p.workflow_id p.result ∷ [])
    | not_found ↦ (publish s ev a, [])
    | signal_error cause ↦ (fail s ev a cause, [])
  ]
]

deliver_quarantine : Config → MemStore → OutboxEvent → Answer → MemStore × List Effect
deliver_quarantine c s ev a = elim (decode_quarantine ev.payload) [
  | none ↦ (fail s ev a decode_error, [])
  | some p ↦
      if c.device_notify_disabled
      then (publish s ev a, [])
      else if not c.has_notifier
      then (fail s ev a "notifier not configured; set FEISHU_* or RELAY_DEVICE_NOTIFY=off", [])
      else elim a.notify_error [
        | some cause ↦ (fail s ev a cause, [])
        | none ↦ (publish s ev a, sent_text (quarantine_text p) ∷ [])
      ]
]

unfoldable pub deliver : Config → MemStore → OutboxEvent → Answer → MemStore × List Effect
unfolding deliver_result deliver_quarantine quarantine_text
deliver c s ev a =
    if ev.event_type == event_task_result
    then deliver_result s ev a
    else if ev.event_type == event_device_quarantined
    then deliver_quarantine c s ev a
    else (fail s ev a (str_append "unsupported event_type: " ev.event_type), [])

-- The loop over the claimed events. Where the answers end the context is canceled, and the rows
-- that remain are left as they are.
unfoldable pub deliver_all :
    Config → MemStore → List OutboxEvent → List Answer → MemStore × List Effect
deliver_all c s [] answers = (s, [])
deliver_all c s (ev ∷ evs) [] = (s, [])
deliver_all c s (ev ∷ evs) (a ∷ answers) =
    let (t, out) = deliver c s ev a in
    let (u, more) = deliver_all c t evs answers in (u, out ++ more)

-- One turn of the loop of Run: `none` is a failure of ClaimUnpublished.
abbrev pub Round : Type 0
Round = Option (List Answer)

pub record Loop : Type 0 where
  pub store : MemStore
  pub backoff : ℕ
  pub effects : List Effect

abbrev pub grow_backoff : Config → ℕ → ℕ
grow_backoff c backoff =
    if ltb backoff c.max_backoff
    then (if ltb c.max_backoff (backoff * 2) then c.max_backoff else backoff * 2)
    else backoff

unfoldable pub run_round : Config → Loop → Round → Loop
run_round c l none = record l { backoff = grow_backoff c l.backoff }
run_round c l (some answers) =
    let (t, out) = deliver_all c l.store (claim_unpublished l.store c.batch_size) answers in
    record { store = t; backoff = c.poll_interval; effects = l.effects ++ out }

unfoldable pub run : Config → Loop → List Round → Loop
run c l [] = l
run c l (r ∷ rs) = run c (run_round c l r) rs

pub data Level : Type 0 where
  debug info warn : Level

-- The level at which reportBacklog logs.
unfoldable pub backlog_level : Config → OutboxBacklog → Level
backlog_level c b =
    if ltb 0 b.stuck || (ltb 0 c.backlog_warn_age && leb c.backlog_warn_age b.oldest_age)
    then warn
    else if ltb 0 b.pending
    then info
    else debug
