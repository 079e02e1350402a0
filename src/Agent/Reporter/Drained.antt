-- ===== src/Agent/Reporter/Drained.antt =====
-- What a turn of the loop over the unreported events gets done (agent/internal/reporter/events.go,
-- drain).
use hermes_ai_devops.Common.{
  ℕ, ◌≡◌, refl, sym, ap, subst, ◌∙◌, String, Bool, true, false, not, ◌&&◌, Option, none, some, List,
  [], ◌∷◌, any, filter, All, Memᴰ, contains, ◌==◌, nat_eq, string_eq, eq_iff, eq_refl, arith, inl,
  inr, Option-cases,
}
use hermes_ai_devops.Common.Dict.{lookup, insert}
use hermes_ai_devops.Agent.Journal.{
  Task, Event, Journal, is_event, events_of, sort_events, unreported_events, find_task, get_task,
  mark_events, mark_event_reported,
}
use hermes_ai_devops.Agent.Journal.History.{Kept, IsHistory}
use hermes_ai_devops.Agent.Reporter.{
  PostError, TaskEvent, Sent, Reporter, Reply, report_event, mark_reported, Faults, Progress,
  no_progress, key_of, again, settle, drain_one, drain_from, drain,
}
use hermes_ai_devops.Agent.Reporter.Queue.{any-sort_events, any-filter}
use hermes_ai_devops.Agent.Reporter.Order.{is_settled}
use hermes_ai_devops.Agent.Reporter.Standing.{All-of_mem, All-filter, All-sort_events, mem-filter}

abbrev pub waits : String → ℕ → Event → Bool
waits id m e = not e.reported && is_event id m e

-- What waits stands in the queue.
abbrev Queued : List Event → List Event → Type 0
Queued q es = (id : String) (m : ℕ) → any (waits id m) es ≡ true → any (is_event id m) q ≡ true

any-waits-mark_events :
    (task_id id : String) (seq m : ℕ) (es : List Event)
    → any (waits id m) (mark_events task_id seq es)
      ≡ any (waits id m) es && not (task_id == id && seq == m)
unfolding mark_events
any-waits-mark_events task_id id seq m [] = refl
any-waits-mark_events task_id id seq m (e ∷ es) = ground (
  arith,
  any-waits-mark_events task_id id seq m es,
  eq_iff e.task_id task_id,
  eq_iff e.task_id id,
  eq_iff task_id id,
)

mark-Queued :
    (e : Event) (q es : List Event) → Queued (e ∷ q) es → Queued q (mark_events e.task_id e.seq es)
mark-Queued e q es h id m k =
    ground (arith, any-waits-mark_events e.task_id id e.seq m es, k, h id m)

Queued-nil : (es : List Event) → Queued [] es → filter (λ e. not e.reported) es ≡ []
Queued-nil [] h = refl
Queued-nil (e ∷ es) h = ground (
  arith,
  h e.task_id e.seq,
  eq_refl e.task_id,
  Queued-nil es (λ id m k. h id m (ground (arith, k))),
)

-- A turn in which nothing fails, and Runtime accepts or refuses for good what it gets.
pub record IsGood (f : Faults) (reply : Reply) : Type 0 where
  pub loads : f.load_fails ≡ false
  pub goes_on : (e : Event) → f.canceled e ≡ false
  pub reads : (e : Event) → f.key_fails e ≡ false
  pub marks : (e : Event) → f.mark_fails e ≡ false
  pub settles :
      (sent : List Sent) (ev : TaskEvent)
      → is_settled (record { event = ev; error = reply sent ev }) ≡ true

abbrev Known : List Task → Event → Type 0
Known ts e = (t : Task) × (find_task e.task_id ts ≡ some t)

module _ (f : Faults) (reply : Reply) (good : IsGood f reply) where
  settle_good :
      (r : Reporter) (p : Progress) (e : Event) (key : String)
      → (settle f p e (report_event reply r (again e key))).0.journal
          ≡ mark_event_reported r.journal e.task_id e.seq
        × ((settle f p e (report_event reply r (again e key))).1 ≡ p)
  unfolding report_event mark_reported
  settle_good r p e key = by_answer (reply r.sent (again e key)) (good.settles r.sent (again e key))
    where
      by_answer :
          (o : Option PostError)
          → is_settled (record { event = again e key; error = o }) ≡ true
          → (let r' : Reporter = record r {
            sent = record { event = again e key; error = o } ∷ r.sent;
          } in
              (settle f p e (r', o)).0.journal ≡ mark_event_reported r.journal e.task_id e.seq
              × ((settle f p e (r', o)).1 ≡ p))
      by_answer none h = rw (good.marks e) (refl, refl)
      by_answer (some c) h = ground (arith, h, good.marks e)

  key_of_good :
      (j : Journal) (p : Progress) (e : Event)
      → Known j.tasks e
      → (key : String) × (q : Progress) × (key_of f j p e ≡ some (key, q)) × (q.blocked ≡ p.blocked)
  unfolding get_task
  key_of_good j p e (t, known) = elim (Option-cases (lookup e.task_id p.keys)) [
    | inl new ↦ (
      t.idempotency_key,
      record p { keys = insert e.task_id t.idempotency_key p.keys },
      ground (arith, good.reads e),
      refl,
    )
    | inr (key, cached) ↦ (key, p, ground arith, refl)
  ]

  drain_one_good :
      (r : Reporter) (p : Progress) (e : Event)
      → p.blocked ≡ []
      → Known r.journal.tasks e
      → ((drain_one f reply r p e).0.journal ≡ mark_event_reported r.journal e.task_id e.seq)
        × ((drain_one f reply r p e).1.blocked ≡ [])
  unfolding drain_one
  drain_one_good r p e free known =
      let (key, q, found, same) = key_of_good r.journal p e known in
      let open_task : contains e.task_id p.blocked ≡ false = rw free refl in
      let (marked, kept) = settle_good r q e key in
      rw (open_task, found) (marked, ap (λ s. s.blocked) kept ∙ same ∙ free)

  drain_from_good :
      (q : List Event) (r : Reporter) (p : Progress)
      → p.blocked ≡ []
      → All (Known r.journal.tasks) q
      → Queued q r.journal.events
      → filter (λ e. not e.reported) (drain_from f reply r p q).journal.events ≡ []
  unfolding drain_from mark_event_reported
  drain_from_good [] r p free known h = Queued-nil r.journal.events h
  drain_from_good (e ∷ q) r p free known h =
      let (r', p') = drain_one f reply r p e in
      let (marked, free') = drain_one_good r p e free known.0 in
      rw (good.goes_on e) (
        drain_from_good q r' p' free' (subst (λ j. All (Known j.tasks) q) (sym marked) known.1)
          (subst (λ j. Queued q j.events) (sym marked) (mark-Queued e q r.journal.events h)))

Known-of_mem : (j : Journal) (e : Event) → IsHistory j → Memᴰ e j.events → Known j.tasks e
Known-of_mem j e h mem = find (find_task e.task_id j.tasks) refl (h e.task_id)
  where
    none_here : {es : List Event} → es ≡ [] → Memᴰ e es → Known j.tasks e
    none_here {es} p (Memᴰ.head q) = cc
    none_here {es} p (Memᴰ.tail q) = cc

    find :
        (o : Option Task)
        → find_task e.task_id j.tasks ≡ o
        → Kept o (events_of e.task_id j.events)
        → Known j.tasks e
    find none same k =
        none_here k (mem-filter (λ f. f.task_id == e.task_id) e j.events (eq_refl e.task_id) mem)
    find (some t) same k = (t, same)

-- A turn of the loop in which the database works and Runtime accepts, or refuses for good, whatever
-- it gets leaves no event unreported, whatever had piled up before.
pub drain-empties :
    (f : Faults) (reply : Reply) (r : Reporter)
    → IsGood f reply
    → IsHistory r.journal
    → unreported_events (drain f reply r).journal ≡ []
unfolding drain unreported_events
drain-empties f reply r good h =
    let j = r.journal in
    let waiting = filter (λ e. not e.reported) j.events in
    let known : All (Known j.tasks) (sort_events waiting) =
      All-sort_events (Known j.tasks) waiting (
        All-filter (Known j.tasks) (λ e. not e.reported) j.events
          (All-of_mem (Known j.tasks) j.events (λ e mem. Known-of_mem j e h mem))) in
    let queued : Queued (sort_events waiting) j.events = λ id m k.
      any-sort_events (is_event id m) waiting
      ∙ any-filter (is_event id m) (λ e. not e.reported) j.events
      ∙ k in
    rw good.loads (
      ap sort_events
        (drain_from_good f reply good (sort_events waiting) r no_progress refl known queued))
