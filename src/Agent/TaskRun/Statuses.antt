-- ===== src/Agent/TaskRun/Statuses.antt =====
-- The journal after the execution of a task (agent/internal/server/tasks.go, runTask).
use hermes_ai_devops.Common.{
  ℕ, ◌+◌, ◌≡◌, ◌⊎◌, refl, sym, ap, subst, ◌∙◌, String, true, false, Option, none, some, List, [],
  ◌∷◌, ◌++◌, map, length, ◌==◌, string_eq, eq_refl, arith, inl, inr, Bool-cases, Option-cases,
}
use hermes_ai_devops.Agent.Run.{Status, Failure, Options, Env}
use hermes_ai_devops.Agent.Quiet.{hist}
use hermes_ai_devops.Agent.Execute.{execute}
use hermes_ai_devops.Agent.Execute.Lifecycle.{Trail, begin, go_on, may_follow, latest}
use hermes_ai_devops.Agent.Execute.Lifecycle.Whole.{
  Ending, without_error, with_error, execute-Trail,
}
use hermes_ai_devops.Agent.Journal.{
  State, queued, accepted, is_terminal, same_state, Task, Event, Journal, find_task, events_of,
  max_seq, moved_task, mark_events, mark_event_reported, get_task,
}
use hermes_ai_devops.Agent.Journal.History.{after_move, find_task-update_task, filter-mark_events}
use hermes_ai_devops.Agent.Reporter.{
  Reporter, Reply, PostError, TaskEvent, Turn, has_backlog, report_event, mark_reported,
  marked_if_sent, send_at_once, on_transition,
}
use hermes_ai_devops.Agent.Reporter.Safety.{on_transition-made}
use hermes_ai_devops.Agent.TaskRun.{
  of_status, current_status, Surroundings, after_statuses, execute_task,
}

-- The states that the events of a task enter, the last first.
abbrev pub entered : String → Journal → List State
entered task_id j = map (λ e. e.to_state) (events_of task_id j.events)

entered-mark_events :
    (task_id : String) (seq : ℕ) (es : List Event)
    → map (λ e. e.to_state) (mark_events task_id seq es) ≡ map (λ e. e.to_state) es
unfolding mark_events
entered-mark_events task_id seq [] = refl
entered-mark_events task_id seq (e ∷ es) = ground (arith, entered-mark_events task_id seq es)

marked_journal :
    (c : Turn) (q : Reporter) (error : Option PostError) (task_id : String) (seq : ℕ)
    → (let j = (marked_if_sent c (q, error) task_id seq).journal in
        (j ≡ q.journal) ⊎ (j ≡ mark_event_reported q.journal task_id seq))
unfolding mark_reported
marked_journal c q (some e) task_id seq = inl refl
marked_journal c q none task_id seq = elim (Bool-cases c.mark_fails) [
  | inl fails ↦ inl (rw fails refl)
  | inr works ↦ inr (rw works refl)
]

-- Sending changes nothing of a journal but a mark.
sent_journal :
    (c : Turn) (reply : Reply) (r : Reporter) (task_id : String) (seq : ℕ) (from to : State)
    (detail : String)
    → (let j = (send_at_once c reply r task_id seq from to detail).journal in
        (j ≡ r.journal) ⊎ (j ≡ mark_event_reported r.journal task_id seq))
unfolding send_at_once report_event mark_reported
sent_journal c reply r task_id seq from to detail = elim (Bool-cases c.key_fails) [
  | inl fails ↦ inl (ground (arith, fails))
  | inr reads ↦ elim (Option-cases (get_task r.journal task_id)) [
    | inl gone ↦ inl (ground (arith, reads, gone))
    | inr (t, found) ↦ elim (Bool-cases (has_backlog c r task_id seq)) [
      | inl waits ↦ inl (ground (arith, reads, found, waits))
      | inr clear ↦
          let ev : TaskEvent = record {
            task_id = task_id;
            idempotency_key = t.idempotency_key;
            seq = seq;
            from_state = from;
            to_state = to;
            ts = c.sent_at;
            detail = detail;
          } in
          let error = reply r.sent ev in
          let after : Reporter = record r {
            sent = record { event = ev; error = error } ∷ r.sent;
          } in
          let e : send_at_once c reply r task_id seq from to detail
              ≡ marked_if_sent c (after, error) task_id seq =
            ground (arith, reads, found, clear) in
          subst
            (λ q. (q.journal ≡ r.journal) ⊎ (q.journal ≡ mark_event_reported r.journal task_id seq))
            (sym e) (marked_journal c after error task_id seq)
    ]
  ]
]

-- The task is in the state, and its events have entered the states.
abbrev pub Is : String → Journal → State → List State → Type 0
Is task_id j s ss =
    (t : Task) × (find_task task_id j.tasks ≡ some t) × (t.state ≡ s) × (entered task_id j ≡ ss)

after_send-Is :
    (c : Turn) (reply : Reply) (r : Reporter) (task_id : String) (seq : ℕ) (from to : State)
    (detail : String) (s : State) (ss : List State)
    → Is task_id r.journal s ss
    → Is task_id (send_at_once c reply r task_id seq from to detail).journal s ss
after_send-Is c reply r task_id seq from to detail s ss h =
    elim (sent_journal c reply r task_id seq from to detail) [
      | inl same ↦ subst (λ j. Is task_id j s ss) (sym same) h
      | inr marked ↦ subst (λ j. Is task_id j s ss) (sym marked) (after_mark h)
    ]
  where
    after_mark :
        Is task_id r.journal s ss → Is task_id (mark_event_reported r.journal task_id seq) s ss
    after_mark (t, found, state, done) =
        unfold mark_event_reported in
        (
          t,
          found,
          state,
          ap (map (λ e. e.to_state)) (
                filter-mark_events (λ e. e.task_id == task_id) task_id seq (λ e. refl)
                  r.journal.events)
              ∙ entered-mark_events task_id seq (events_of task_id r.journal.events)
              ∙ done,
        )

on_transition-Is :
    (c : Turn) (reply : Reply) (r : Reporter) (task_id : String) (from to : State) (ss : List State)
    → c.transition_fails ≡ false
    → is_terminal from ≡ false
    → Is task_id r.journal from ss
    → Is task_id (on_transition c reply r task_id from to "").0.journal to (to ∷ ss)
on_transition-Is c reply r task_id from to ss works live (t, found, state, done) =
    let seq = max_seq (events_of task_id r.journal.events) + 1 in
    let j = after_move r.journal task_id from to "" c.now seq in
    let same : same_state t.state from ≡ true = ground (arith, state) in
    let made = on_transition-made c reply r task_id from to "" t works found (rw state live) same in
    let there =
      find_task-update_task task_id task_id (moved_task to c.now) r.journal.tasks (λ u. refl) in
    subst (λ q. Is task_id q.0.journal to (to ∷ ss)) (sym made)
      (after_send-Is c reply (record r { journal = j }) task_id seq from to "" to (to ∷ ss)
        (
          moved_task to c.now t,
          there ∙ (rw (eq_refl task_id, found) refl),
          refl,
          rw (eq_refl task_id) (ap (◌∷◌ to) done),
        ))

abbrev state_after : List Status → State
state_after [] = accepted
state_after (s ∷ ss) = of_status s

-- A status that another one may follow is no end.
follow-live :
    (ss : List Status) (s : Status)
    → may_follow (latest ss) s ≡ true
    → is_terminal (state_after ss) ≡ false
unfolding may_follow
follow-live [] s h = refl
follow-live (Status.preparing ∷ ss) s h = refl
follow-live (Status.downloading ∷ ss) s h = refl
follow-live (Status.deploying ∷ ss) s h = refl
follow-live (Status.running ∷ ss) s h = refl
follow-live (Status.collecting ∷ ss) s h = refl
follow-live (Status.completed ∷ ss) s h = cc
follow-live (Status.failed ∷ ss) s h = cc
follow-live (Status.timeout ∷ ss) s h = cc
follow-live (Status.canceled ∷ ss) s h = cc

-- Every change of a state can be read and written; sending may fail.
pub record IsWritable (w : Surroundings) : Type 0 where
  pub writes : (n : ℕ) → (w.turn n).transition_fails ≡ false
  pub reads : (n : ℕ) → w.current_fails n ≡ false

current_status-Is :
    (j : Journal) (task_id : String) (s : State) (ss : List State)
    → Is task_id j s ss
    → current_status false j task_id ≡ s
unfolding current_status get_task
current_status-Is j task_id s ss (t, found, state, done) = rw (found, state) refl

after_statuses-Is :
    (w : Surroundings) (task_id : String) (r : Reporter) (ss : List Status)
    → IsWritable w
    → Is task_id r.journal queued []
    → Trail ss
    → Is task_id
        (after_statuses w task_id r ss).journal
        (state_after ss)
        (map of_status ss ++ accepted ∷ [])
unfolding after_statuses
after_statuses-Is w task_id r [] good h begin =
    on_transition-Is (w.turn 0) w.reply r task_id queued accepted [] (good.writes 0) refl h
after_statuses-Is w task_id r (s ∷ ss) good h (go_on trail follows) =
    let n = length ss + 1 in
    let before = after_statuses w task_id r ss in
    let now = after_statuses-Is w task_id r ss good h trail in
    let states = map of_status ss ++ accepted ∷ [] in
    let from : current_status (w.current_fails n) before.journal task_id ≡ state_after ss =
      rw (good.reads n) (current_status-Is before.journal task_id (state_after ss) states now) in
    subst
      (λ f.
        Is task_id (on_transition (w.turn n) w.reply before task_id f (of_status s) "").0.journal
          (of_status s) (of_status s ∷ states))
      (sym from)
      (on_transition-Is (w.turn n) w.reply before task_id (state_after ss) (of_status s) states
        (good.writes n) (follow-live ss s follows) now)

Ending-terminal : {e : Option Failure} {s : Status} → Ending e s → is_terminal (of_status s) ≡ true
Ending-terminal {s = Status.completed} (without_error well) = refl
Ending-terminal {s = Status.timeout} (without_error well) = refl
Ending-terminal {s = Status.canceled} (without_error well) = refl
Ending-terminal {s = Status.preparing} (without_error well) = cc
Ending-terminal {s = Status.downloading} (without_error well) = cc
Ending-terminal {s = Status.deploying} (without_error well) = cc
Ending-terminal {s = Status.running} (without_error well) = cc
Ending-terminal {s = Status.collecting} (without_error well) = cc
Ending-terminal {s = Status.failed} (without_error well) = cc
Ending-terminal with_error = refl

state_after-latest :
    (ss : List Status) (s : Status) → latest ss ≡ some s → state_after ss ≡ of_status s
state_after-latest [] s h = cc
state_after-latest (x ∷ ss) s h = ground (arith, h)

-- The execution of a new task, where its changes can be written: whatever adb, the files, a
-- cancellation and Runtime do, the task ends in the terminal state that the summary names, and its
-- events have entered ACCEPTED and then the statuses of the executor, each one once, in their order.
pub execute_task-Is :
    (w : Surroundings) (env : Env) (o : Options) (task_id : String) (r : Reporter) (t : Task)
    → IsWritable w
    → find_task task_id r.journal.tasks ≡ some t
    → t.state ≡ queued
    → events_of task_id r.journal.events ≡ []
    → (let ran = execute_task w env o task_id r in
        Is task_id ran.0.journal
          (of_status ran.1.summary.status)
          (map of_status (hist ran.1.agent) ++ accepted ∷ [])
        × (is_terminal (of_status ran.1.summary.status) ≡ true))
unfolding execute_task
execute_task-Is w env o task_id r t good found state fresh =
    let done = execute env o in
    let reported = (execute-Trail env o).0 in
    let ss = hist done.agent in
    (
      subst
          (λ s.
            Is task_id (after_statuses w task_id r ss).journal s
              (map of_status ss ++ accepted ∷ []))
          (state_after-latest ss done.summary.status reported.1)
          (after_statuses-Is w task_id r ss good (t, found, state, rw fresh refl) reported.0),
      Ending-terminal reported.2,
    )
