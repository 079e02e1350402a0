-- ===== src/Agent/Reporter.antt =====
-- How the agent tells Runtime of the changes of its tasks (agent/internal/reporter/events.go and
-- client.go): a change is written to the journal first, then sent at once if no earlier event of the
-- task waits, or else by the loop that sends the events which Runtime has not confirmed. What
-- Runtime answers, and which reads and writes of the database fail, are arguments.
pub mod Queue
pub mod Order
pub mod Told
pub mod Standing
pub mod Rounds
pub mod Safety
pub mod Drained
use hermes_ai_devops.Common.{
  ℕ, String, Bool, true, false, not, ◌&&◌, Option, none, some, List, [], ◌∷◌, ltb, leb, any,
  contains, if◌then◌else◌, ◌==◌, string_eq,
}
use hermes_ai_devops.Common.Dict.{Dict, lookup, insert}
use hermes_ai_devops.Agent.Journal.{
  State, Event, Journal, Moved, moved, task_not_found, terminal_state, state_mismatch, get_task,
  transition, mark_event_reported, unreported_events,
}

pub record TaskEvent : Type 0 where
  pub task_id : String
  pub idempotency_key : String
  pub seq : ℕ
  pub from_state : State
  pub to_state : State
  pub ts : ℕ
  pub detail : String

-- An error of Client.post: a StatusError with its code, or any other.
pub data PostError : Type 0 where
  status_error : ℕ → PostError
  no_answer : PostError

abbrev pub retryable : PostError → Bool
retryable (status_error code) = leb 500 code
retryable no_answer = true

-- A callback that was sent, and the error.
pub record Sent : Type 0 where
  pub event : TaskEvent
  pub error : Option PostError

-- The journal, and what was sent, the last first.
pub record Reporter : Type 0 where
  pub journal : Journal
  pub sent : List Sent

-- Runtime, which may answer by all that it has got.
abbrev pub Reply : Type 0
Reply = List Sent → TaskEvent → Option PostError

unfoldable pub report_event : Reply → Reporter → TaskEvent → Reporter × Option PostError
report_event reply r ev =
    let error = reply r.sent ev in
    (record r { sent = record { event = ev; error = error } ∷ r.sent }, error)

-- What befalls one call of OnTransition.
pub record Turn : Type 0 where
  pub transition_fails : Bool
  pub key_fails : Bool
  pub pending_fails : Bool
  pub mark_fails : Bool
  pub now : ℕ
  pub sent_at : ℕ

unfoldable pub mark_reported : Bool → Reporter → String → ℕ → Reporter
unfolding mark_event_reported
mark_reported fails r task_id seq =
    if fails then r else record r { journal = mark_event_reported r.journal task_id seq }

-- Is there an earlier event of the task that waits?
abbrev pub is_earlier : String → ℕ → Event → Bool
is_earlier task_id seq e = e.task_id == task_id && ltb e.seq seq

abbrev pub has_backlog : Turn → Reporter → String → ℕ → Bool
has_backlog c r task_id seq =
    not c.pending_fails && any (is_earlier task_id seq) (unreported_events r.journal)

abbrev pub marked_if_sent : Turn → Reporter × Option PostError → String → ℕ → Reporter
marked_if_sent c (r, none) task_id seq = mark_reported c.mark_fails r task_id seq
marked_if_sent c (r, some e) task_id seq = r

unfoldable pub send_at_once :
    Turn → Reply → Reporter → String → ℕ → State → State → String → Reporter
unfolding get_task report_event mark_reported
send_at_once c reply r task_id seq from to detail =
    if c.key_fails then r else elim (get_task r.journal task_id) [
      | none ↦ r
      | some t ↦
          let ev : TaskEvent = record {
            task_id = task_id;
            idempotency_key = t.idempotency_key;
            seq = seq;
            from_state = from;
            to_state = to;
            ts = c.sent_at;
            detail = detail;
          } in
          if has_backlog c r task_id seq
          then r
          else marked_if_sent c (report_event reply r ev) task_id seq
    ]

abbrev pub after_write :
    Turn → Reply → Reporter → String → State → State → String → Journal × Moved → Reporter × Bool
after_write c reply r task_id from to detail (j, moved seq) =
    (send_at_once c reply (record r { journal = j }) task_id seq from to detail, true)
after_write c reply r task_id from to detail (j, task_not_found) = (r, false)
after_write c reply r task_id from to detail (j, terminal_state) = (r, false)
after_write c reply r task_id from to detail (j, state_mismatch) = (r, false)

-- True if the change was written.
unfoldable pub on_transition :
    Turn → Reply → Reporter → String → State → State → String → Reporter × Bool
unfolding transition send_at_once
on_transition c reply r task_id from to detail =
    if c.transition_fails
    then (r, false)
    else after_write c reply r task_id from to detail
        (transition r.journal task_id from to detail c.now)

-- What befalls a turn of the loop, at each of the events that it read.
pub record Faults : Type 0 where
  pub load_fails : Bool
  pub canceled : Event → Bool
  pub key_fails : Event → Bool
  pub mark_fails : Event → Bool

-- The tasks that wait for the next turn, and the keys that were read.
pub record Progress : Type 0 where
  pub blocked : List String
  pub keys : Dict String

abbrev pub no_progress : Progress
no_progress = record { blocked = []; keys = [] }

abbrev pub block : String → Progress → Progress
block task_id p = record p { blocked = task_id ∷ p.blocked }

abbrev pub key_of : Faults → Journal → Progress → Event → Option (String × Progress)
key_of f j p ev = elim (lookup ev.task_id p.keys) [
  | some key ↦ some (key, p)
  | none ↦ if f.key_fails ev then none else elim (get_task j ev.task_id) [
    | none ↦ none
    | some t ↦
        some (t.idempotency_key, record p { keys = insert ev.task_id t.idempotency_key p.keys })
  ]
]

abbrev pub again : Event → String → TaskEvent
again ev key = record {
  task_id = ev.task_id;
  idempotency_key = key;
  seq = ev.seq;
  from_state = ev.from_state;
  to_state = ev.to_state;
  ts = ev.ts;
  detail = ev.detail;
}

-- A refusal for good counts as reported.
abbrev pub settle : Faults → Progress → Event → Reporter × Option PostError → Reporter × Progress
settle f p ev (r, none) = (mark_reported (f.mark_fails ev) r ev.task_id ev.seq, p)
settle f p ev (r, some e) =
    if retryable e
    then (r, block ev.task_id p)
    else (mark_reported (f.mark_fails ev) r ev.task_id ev.seq, p)

-- The body of the loop over the events.
unfoldable pub drain_one : Faults → Reply → Reporter → Progress → Event → Reporter × Progress
unfolding report_event mark_reported get_task
drain_one f reply r p ev =
    if contains ev.task_id p.blocked then (r, p) else elim (key_of f r.journal p ev) [
      | none ↦ (r, block ev.task_id p)
      | some (key, q) ↦ settle f q ev (report_event reply r (again ev key))
    ]

unfoldable pub drain_from : Faults → Reply → Reporter → Progress → List Event → Reporter
unfolding drain_one
drain_from f reply r p [] = r
drain_from f reply r p (ev ∷ evs) =
    let (s, q) = drain_one f reply r p ev in
    let rest = drain_from f reply s q evs in if f.canceled ev then r else rest

unfoldable pub drain : Faults → Reply → Reporter → Reporter
unfolding drain_from unreported_events
drain f reply r =
    if f.load_fails then r else drain_from f reply r no_progress (unreported_events r.journal)
