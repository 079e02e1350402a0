-- ===== src/Agent/Reporter/Safety.antt =====
-- No event of a task overtakes an earlier one (agent/internal/reporter/events.go).
use hermes_ai_devops.Common.{
  ℕ, ◌+◌, ◌≡◌, ◌≢◌, ◌⊎◌, refl, ap, subst, String, Bool, true, false, not, Option, none, some, List,
  [], ◌∷◌, any, All, Memᴰ, nat_eq, string_eq, eq_refl, arith, inl, inr, Bool-cases, Option-cases,
}
use hermes_ai_devops.Agent.Journal.{
  State, Task, Event, Journal, events_of, is_event, unreported_events, find_task, create_task,
  transition, moved, new_event, max_seq, mark_result_recorded, get_task, Moved, task_not_found,
  terminal_state, state_mismatch, is_terminal, same_state, empty_journal,
}
use hermes_ai_devops.Agent.Journal.History.{
  IsHistory, after_move, transition-cases, transition-made, create-IsHistory, transition-IsHistory,
  record_result-IsHistory,
}
use hermes_ai_devops.Agent.Reporter.{
  PostError, TaskEvent, Sent, Reporter, Reply, report_event, Turn, is_earlier, has_backlog,
  marked_if_sent, send_at_once, after_write, on_transition, Faults, Progress, no_progress,
}
use hermes_ai_devops.Agent.Reporter.Order.{
  System, Act, create, confirm, change, reload, proceed, with_journal, proceeded, act, acts,
  is_settled, settled, Before, Ordered, is_reported, IsOrdered,
}
use hermes_ai_devops.Agent.Reporter.Told.{mark_reported-IsOrdered, send-IsOrdered}
use hermes_ai_devops.Agent.Reporter.Standing.{earlier_stand}
use hermes_ai_devops.Agent.Reporter.Rounds.{drain_one-IsOrdered, waits_or_settled, reload-IsOrdered}

any_mono :
    (p q : Event → Bool) (es : List Event)
    → ((e : Event) → p e ≡ true → q e ≡ true)
    → any p es ≡ true
    → any q es ≡ true
any_mono p q [] h k = k
any_mono p q (e ∷ es) h k = ground (arith, h e, k, any_mono p q es h)

-- Where nothing of the task waits, all its earlier events are settled.
no_backlog-Before :
    (s : System) (c : Turn) (e : Event)
    → IsOrdered s
    → c.pending_fails ≡ false
    → Memᴰ e s.reporter.journal.events
    → has_backlog c s.reporter e.task_id e.seq ≡ false
    → Before (λ m. settled e.task_id m s.reporter.sent) e.seq
no_backlog-Before s c e h reads mem clear m pos lt =
    let waiting = unreported_events s.reporter.journal in
    let j = s.reporter.journal in
    let early =
      any_mono (is_event e.task_id m) (is_earlier e.task_id e.seq) waiting
        (λ f k. ground (arith, k, lt)) in
    let either = waits_or_settled s h e.task_id m (earlier_stand j e h.history mem m pos lt) in
    ground (arith, reads, clear, early, either)

settled_here :
    (x : Sent) (sent : List Sent)
    → is_settled x ≡ true
    → settled x.event.task_id x.event.seq (x ∷ sent) ≡ true
settled_here x sent h = ground (arith, h, eq_refl x.event.task_id)

send_at_once-IsOrdered :
    (s : System) (c : Turn) (reply : Reply) (e : Event)
    → IsOrdered s
    → c.pending_fails ≡ false
    → Memᴰ e s.reporter.journal.events
    → IsOrdered (record s {
      reporter = send_at_once c reply s.reporter e.task_id e.seq e.from_state e.to_state e.detail;
    })
unfolding send_at_once report_event
send_at_once-IsOrdered s c reply e h reads mem = elim (Bool-cases c.key_fails) [
  | inl fails ↦ rw fails h
  | inr read ↦ rw read (elim (Option-cases (get_task s.reporter.journal e.task_id)) [
    | inl gone ↦ rw gone h
    | inr (t, found) ↦ rw found (elim (Bool-cases (has_backlog c s.reporter e.task_id e.seq)) [
      | inl waits ↦ rw waits h
      | inr clear ↦
          rw clear (sent (event t.idempotency_key) (no_backlog-Before s c e h reads mem clear))
    ])
  ])
]
  where
    event : String → TaskEvent
    event key = record {
      task_id = e.task_id;
      idempotency_key = key;
      seq = e.seq;
      from_state = e.from_state;
      to_state = e.to_state;
      ts = c.sent_at;
      detail = e.detail;
    }

    after : TaskEvent → Option PostError → Reporter
    after ev error =
        let r = s.reporter in record r { sent = record { event = ev; error = error } ∷ r.sent }

    answered :
        (ev : TaskEvent) (error : Option PostError)
        → IsOrdered (record s { reporter = after ev error })
        → IsOrdered
            (record s { reporter = marked_if_sent c (after ev error, error) ev.task_id ev.seq })
    answered ev none k =
        mark_reported-IsOrdered (record s { reporter = after ev none }) c.mark_fails ev.task_id
          ev.seq (settled_here (record { event = ev; error = none }) s.reporter.sent refl) k
    answered ev (some x) k = k

    sent :
        (ev : TaskEvent)
        → Before (λ m. settled ev.task_id m s.reporter.sent) ev.seq
        → IsOrdered (record s {
          reporter =
              marked_if_sent c
                (after ev (reply s.reporter.sent ev), reply s.reporter.sent ev)
                ev.task_id
                ev.seq;
        })
    sent ev before =
        let error = reply s.reporter.sent ev in
        answered ev error (send-IsOrdered s (record { event = ev; error = error }) before h)

-- A change that is written: its event is the last of the journal, and is not reported.
moved-IsOrdered :
    (s : System) (e : Event) (j : Journal)
    → IsHistory j
    → j.events ≡ e ∷ s.reporter.journal.events
    → e.reported ≡ false
    → IsOrdered s
    → IsOrdered (with_journal s j)
moved-IsOrdered s e j history events new h = record {
  history = history;
  told = λ id m k. h.told id m (older id m (rw events at k));
  ordered = h.ordered;
  due = h.due;
}
  where
    older :
        (id : String) (m : ℕ)
        → any (is_reported id m) (e ∷ s.reporter.journal.events) ≡ true
        → any (is_reported id m) s.reporter.journal.events ≡ true
    older id m k = ground (arith, k, new)

same_events-IsOrdered :
    (s : System) (j : Journal)
    → IsHistory j
    → j.events ≡ s.reporter.journal.events
    → IsOrdered s
    → IsOrdered (with_journal s j)
same_events-IsOrdered s j history events h = record {
  history = history;
  told = λ id m k. h.told id m (rw events at k);
  ordered = h.ordered;
  due = h.due;
}

on_transition-refused :
    (c : Turn) (reply : Reply) (r : Reporter) (task_id : String) (from to : State) (detail : String)
    → (c.transition_fails ≡ true)
      ⊎ ((seq : ℕ) → (transition r.journal task_id from to detail c.now).1 ≢ moved seq)
    → (on_transition c reply r task_id from to detail) ≡ (r, false)
unfolding on_transition
on_transition-refused c reply r task_id from to detail (inl fails) = rw fails refl
on_transition-refused c reply r task_id from to detail (inr never) =
    elim (Bool-cases c.transition_fails) [
      | inl fails ↦ rw fails refl
      | inr works ↦ rw works (stays (transition r.journal task_id from to detail c.now) never)
    ]
  where
    stays :
        (o : Journal × Moved)
        → ((seq : ℕ) → o.1 ≢ moved seq)
        → after_write c reply r task_id from to detail o ≡ (r, false)
    stays (j, moved seq) k = absurd (k seq refl)
    stays (j, task_not_found) k = refl
    stays (j, terminal_state) k = refl
    stays (j, state_mismatch) k = refl

pub on_transition-made :
    (c : Turn) (reply : Reply) (r : Reporter) (task_id : String) (from to : State) (detail : String)
    (t : Task)
    → c.transition_fails ≡ false
    → find_task task_id r.journal.tasks ≡ some t
    → is_terminal t.state ≡ false
    → same_state t.state from ≡ true
    → (let seq = max_seq (events_of task_id r.journal.events) + 1 in
        let j = after_move r.journal task_id from to detail c.now seq in
        on_transition c reply r task_id from to detail
        ≡ (send_at_once c reply (record r { journal = j }) task_id seq from to detail, true))
unfolding on_transition
on_transition-made c reply r task_id from to detail t works found live same = rw works (
    ap (after_write c reply r task_id from to detail)
      (transition-made r.journal task_id from to detail c.now t found live same))

change-IsOrdered :
    (reply : Reply) (s : System) (c : Turn) (task_id : String) (from to : State) (detail : String)
    → c.pending_fails ≡ false
    → IsOrdered s
    → IsOrdered (act reply s (change c task_id from to detail))
unfolding act
change-IsOrdered reply s c task_id from to detail reads h = elim (Bool-cases c.transition_fails) [
  | inl fails ↦ rw (on_transition-refused c reply s.reporter task_id from to detail (inl fails)) h
  | inr works ↦ elim (transition-cases s.reporter.journal task_id from to detail c.now) [
    | inl (same, never) ↦
        rw (on_transition-refused c reply s.reporter task_id from to detail (inr never)) h
    | inr (t, found, live, same) ↦
        let j = s.reporter.journal in
        let seq = max_seq (events_of task_id j.events) + 1 in
        let e = new_event task_id seq from to detail c.now in
        let next = after_move j task_id from to detail c.now seq in
        let made = transition-made j task_id from to detail c.now t found live same in
        let history : IsHistory next =
          subst (λ r. IsHistory r.0) made
            (transition-IsHistory j task_id from to detail c.now h.history) in
        rw (on_transition-made c reply s.reporter task_id from to detail t works found live same) (
          send_at_once-IsOrdered (with_journal s next) c reply e
            (moved-IsOrdered s e next history refl refl h) reads (Memᴰ.head refl))
  ]
]

create_task-events : (j : Journal) (t : Task) (now : ℕ) → (create_task j t now).0.events ≡ j.events
unfolding create_task
create_task-events j t now = ground arith

-- The read of the waiting events in a call of OnTransition works.
abbrev pub reads_backlog : Act → Bool
reads_backlog (change c task_id from to detail) = not c.pending_fails
reads_backlog (create t now) = true
reads_backlog (confirm task_id) = true
reads_backlog reload = true
reads_backlog (proceed f) = true

proceed-IsOrdered :
    (reply : Reply) (f : Faults) (r : Reporter) (p : Progress) (q : List Event)
    → IsOrdered (record { reporter = r; queue = q; progress = p })
    → IsOrdered (proceeded reply f (record { reporter = r; queue = q; progress = p }) q)
proceed-IsOrdered reply f r p [] h = h
proceed-IsOrdered reply f r p (e ∷ es) h = drain_one-IsOrdered f reply r p e es h

act-IsOrdered :
    (reply : Reply) (s : System) (a : Act)
    → reads_backlog a ≡ true
    → IsOrdered s
    → IsOrdered (act reply s a)
unfolding act
act-IsOrdered reply s (create t now) reads h =
    same_events-IsOrdered s (create_task s.reporter.journal t now).0
      (create-IsHistory s.reporter.journal t now h.history)
      (create_task-events s.reporter.journal t now) h
act-IsOrdered reply s (confirm task_id) reads h =
    same_events-IsOrdered s (mark_result_recorded s.reporter.journal task_id).0
      (record_result-IsHistory s.reporter.journal task_id h.history)
      (unfold mark_result_recorded in refl) h
act-IsOrdered reply s (change c task_id from to detail) reads h =
    change-IsOrdered reply s c task_id from to detail (ground (arith, reads)) h
act-IsOrdered reply s reload reads h = reload-IsOrdered s h reply
act-IsOrdered reply s (proceed f) reads h =
    proceed-IsOrdered reply f s.reporter s.progress s.queue h

acts-IsOrdered :
    (reply : Reply) (s : System) (todo : List Act)
    → All (λ a. reads_backlog a ≡ true) todo
    → IsOrdered s
    → IsOrdered (acts reply s todo)
unfolding acts
acts-IsOrdered reply s [] reads h = h
acts-IsOrdered reply s (a ∷ more) (one, others) h =
    acts-IsOrdered reply (act reply s a) more others (act-IsOrdered reply s a one h)

abbrev pub at_rest : System
at_rest = record {
  reporter = record { journal = empty_journal; sent = [] };
  queue = [];
  progress = no_progress;
}

at_rest-IsOrdered : IsOrdered at_rest
unfolding find_task
at_rest-IsOrdered = record { history = λ id. refl; told = λ id m k. cc; ordered = tt; due = tt }

-- From an agent with an empty database on, whatever the tasks, the loop, Runtime and the database do,
-- except that the read of the waiting events in OnTransition does not fail: an event is sent only
-- after Runtime has accepted, or refused for good, all events of its task with a smaller number; and
-- an event that counts as reported has been accepted or refused for good.
pub acts-Ordered :
    (reply : Reply) (todo : List Act)
    → All (λ a. reads_backlog a ≡ true) todo
    → (let r = (acts reply at_rest todo).reporter in
        Ordered r.sent
        × ((task_id : String) (seq : ℕ)
            → any (is_reported task_id seq) r.journal.events ≡ true
            → settled task_id seq r.sent ≡ true))
acts-Ordered reply todo reads =
    let h = acts-IsOrdered reply at_rest todo reads at_rest-IsOrdered in (h.ordered, h.told)
