-- ===== src/Agent/Reporter/Told.antt =====
-- What is sent, marked and blocked keeps the order (agent/internal/reporter/events.go).
use hermes_ai_devops.Common.{
  ℕ, ◌≡◌, ◌⊎◌, refl, String, Bool, true, false, ◌||◌, Option, none, some, List, [], ◌∷◌, any,
  contains, nat_eq, string_eq, eq_iff, eq_refl, arith, inl, inr, Bool-cases,
}
use hermes_ai_devops.Agent.Journal.{Event, is_event, mark_events, mark_event_reported}
use hermes_ai_devops.Agent.Journal.History.{report_event-IsHistory}
use hermes_ai_devops.Agent.Reporter.{
  PostError, retryable, Sent, Reporter, Reply, report_event, mark_reported, Faults, Progress, block,
  again, settle,
}
use hermes_ai_devops.Agent.Reporter.Order.{
  System, is_settled, settled, Before, Due-mono, done_or_blocked, is_reported, IsOrdered,
}

any-mark_events :
    (task_id id : String) (seq m : ℕ) (es : List Event)
    → any (is_reported id m) (mark_events task_id seq es) ≡ true
    → (any (is_reported id m) es ≡ true) ⊎ ((id ≡ task_id) × (m ≡ seq))
unfolding mark_events
any-mark_events task_id id seq m [] h = cc
any-mark_events task_id id seq m (e ∷ es) h =
    ground
      (arith, h, any-mark_events task_id id seq m es, eq_iff e.task_id task_id, eq_iff e.task_id id)

-- An event that is settled may be marked.
pub mark_reported-IsOrdered :
    (s : System) (fails : Bool) (task_id : String) (seq : ℕ)
    → settled task_id seq s.reporter.sent ≡ true
    → IsOrdered s
    → IsOrdered (record s { reporter = mark_reported fails s.reporter task_id seq })
unfolding mark_reported mark_event_reported
mark_reported-IsOrdered s true task_id seq done h = h
mark_reported-IsOrdered s false task_id seq done h = record {
  history = report_event-IsHistory s.reporter.journal task_id seq h.history;
  told = λ id m k. elim (any-mark_events task_id id seq m s.reporter.journal.events k) [
    | inl before ↦ h.told id m before
    | inr (e, f) ↦ rw (e, f) done
  ];
  ordered = h.ordered;
  due = h.due;
}

settled-grows :
    (x : Sent) (sent : List Sent) (id : String) (m : ℕ)
    → settled id m sent ≡ true
    → settled id m (x ∷ sent) ≡ true
settled-grows x sent id m h = ground (arith, h)

-- What is sent after all earlier events of its task keeps the order.
pub send-IsOrdered :
    (s : System) (x : Sent)
    → Before (λ m. settled x.event.task_id m s.reporter.sent) x.event.seq
    → IsOrdered s
    → IsOrdered (let r = s.reporter in record s { reporter = record r { sent = x ∷ r.sent } })
send-IsOrdered s x before h = record {
  history = h.history;
  told = λ id m k. settled-grows x s.reporter.sent id m (h.told id m k);
  ordered = (before, h.ordered);
  due =
      Due-mono s.queue (done_or_blocked s.reporter.sent s.progress.blocked)
        (done_or_blocked (x ∷ s.reporter.sent) s.progress.blocked) (λ id m k. ground (arith, k))
        h.due;
}

-- The head of the queue is looked at.
pub drop-IsOrdered :
    (r : Reporter) (e : Event) (es : List Event) (p q : Progress)
    → ((m : ℕ) → done_or_blocked r.sent q.blocked e.task_id m ≡ true)
      ⊎ (settled e.task_id e.seq r.sent ≡ true)
    → ((id : String) → contains id p.blocked ≡ true → contains id q.blocked ≡ true)
    → IsOrdered (record { reporter = r; queue = e ∷ es; progress = p })
    → IsOrdered (record { reporter = r; queue = es; progress = q })
drop-IsOrdered r e es p q looked grows h = record {
  history = h.history;
  told = h.told;
  ordered = h.ordered;
  due =
      Due-mono es (λ id m. done_or_blocked r.sent p.blocked id m || is_event id m e)
        (done_or_blocked r.sent q.blocked) (λ id m k. now id m looked k) h.due.1;
}
  where
    now :
        (id : String) (m : ℕ)
        → ((m : ℕ) → done_or_blocked r.sent q.blocked e.task_id m ≡ true)
          ⊎ (settled e.task_id e.seq r.sent ≡ true)
        → done_or_blocked r.sent p.blocked id m || is_event id m e ≡ true
        → done_or_blocked r.sent q.blocked id m ≡ true
    now id m (inl all) k = ground (arith, k, all m, grows id, eq_iff e.task_id id)
    now id m (inr one) k = ground (arith, k, one, grows id, eq_iff e.task_id id)

abbrev pub ahead : Reporter → Progress → Event → List Event → System
ahead r p e es = record { reporter = r; queue = e ∷ es; progress = p }

abbrev pub looked : Reporter × Progress → List Event → System
looked (r, p) es = record { reporter = r; queue = es; progress = p }

pub block-IsOrdered :
    (r : Reporter) (p : Progress) (e : Event) (es : List Event)
    → IsOrdered (ahead r p e es)
    → IsOrdered (looked (r, block e.task_id p) es)
block-IsOrdered r p e es h =
    drop-IsOrdered r e es p (block e.task_id p) (inl (λ m. ground (arith, eq_refl e.task_id)))
      (λ id k. ground (arith, k)) h

settled_head :
    (x : Sent) (sent : List Sent)
    → is_settled x ≡ true
    → settled x.event.task_id x.event.seq (x ∷ sent) ≡ true
settled_head x sent h = ground (arith, h, eq_refl x.event.task_id)

pub settle-IsOrdered :
    (f : Faults) (reply : Reply) (r : Reporter) (p : Progress) (e : Event) (es : List Event)
    (key : String)
    → contains e.task_id p.blocked ≡ false
    → IsOrdered (ahead r p e es)
    → IsOrdered (looked (settle f p e (report_event reply r (again e key))) es)
unfolding report_event
settle-IsOrdered f reply r p e es key free h = finish (reply r.sent (again e key)) refl
  where
    before : Before (λ m. settled e.task_id m r.sent) e.seq
    before m pos lt = ground (arith, h.due.0 m pos lt, free)

    sent : Option PostError → Reporter
    sent error = record r { sent = record { event = again e key; error = error } ∷ r.sent }

    kept : (error : Option PostError) → IsOrdered (ahead (sent error) p e es)
    kept error =
        send-IsOrdered (ahead r p e es) (record { event = again e key; error = error }) before h

    marked :
        (error : Option PostError)
        → is_settled (record { event = again e key; error = error }) ≡ true
        → IsOrdered (looked (mark_reported (f.mark_fails e) (sent error) e.task_id e.seq, p) es)
    marked error good =
        let done = settled_head (record { event = again e key; error = error }) r.sent good in
        mark_reported-IsOrdered (looked (sent error, p) es) (f.mark_fails e) e.task_id e.seq done
          (drop-IsOrdered (sent error) e es p p (inr done) (λ id k. k) (kept error))

    finish :
        (error : Option PostError)
        → reply r.sent (again e key) ≡ error
        → IsOrdered (looked (settle f p e (sent error, error)) es)
    finish none h = marked none refl
    finish (some c) h = elim (Bool-cases (retryable c)) [
      | inl later ↦ rw later (block-IsOrdered (sent (some c)) p e es (kept (some c)))
      | inr never ↦ rw never (marked (some c) (rw never refl))
    ]
