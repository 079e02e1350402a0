-- ===== src/Agent/Reporter/Order.antt =====
-- The order in which Runtime gets the events of a task (agent/internal/reporter/events.go). The loop
-- over the unreported events runs beside the tasks: between any two of its rounds anything may happen.
use hermes_ai_devops.Common.{
  ℕ, ◌<◌, ◌≡◌, refl, String, Bool, true, false, not, ◌&&◌, ◌||◌, none, some, List, [], ◌∷◌, any,
  contains, All, ◌==◌, nat_eq, string_eq, arith,
}
use hermes_ai_devops.Agent.Journal.{
  State, Task, Event, Journal, is_event, unreported_events, create_task, mark_result_recorded,
}
use hermes_ai_devops.Agent.Journal.History.{IsHistory}
use hermes_ai_devops.Agent.Reporter.{
  retryable, Sent, Reporter, Reply, Turn, on_transition, Faults, Progress, no_progress, drain_one,
}
use hermes_ai_devops.Agent.Reporter.Queue.{Ascending, any-below}

-- The reporter, and the loop with the events that it has still to look at.
pub record System : Type 0 where
  pub reporter : Reporter
  pub queue : List Event
  pub progress : Progress

-- A task is created, its result is confirmed, it changes its state; the loop begins a turn, or looks
-- at the next event.
pub data Act : Type 0 where
  create : Task → ℕ → Act
  confirm : String → Act
  change : Turn → String → State → State → String → Act
  reload : Act
  proceed : Faults → Act

abbrev pub with_journal : System → Journal → System
with_journal s j = let r = s.reporter in record s { reporter = record r { journal = j } }

abbrev pub proceeded : Reply → Faults → System → List Event → System
proceeded reply f s [] = s
proceeded reply f s (e ∷ es) =
    let (r, p) = drain_one f reply s.reporter s.progress e in
    record { reporter = r; queue = es; progress = p }

unfoldable pub act : Reply → System → Act → System
act reply s (create t now) = with_journal s (create_task s.reporter.journal t now).0
act reply s (confirm task_id) = with_journal s (mark_result_recorded s.reporter.journal task_id).0
act reply s (change c task_id from to detail) = record s {
  reporter = (on_transition c reply s.reporter task_id from to detail).0;
}
act reply s reload = record s {
  queue = unreported_events s.reporter.journal;
  progress = no_progress;
}
act reply s (proceed f) = proceeded reply f s s.queue

unfoldable pub acts : Reply → System → List Act → System
acts reply s [] = s
acts reply s (a ∷ more) = acts reply (act reply s a) more

-- The event was accepted, or refused for good.
abbrev pub is_settled : Sent → Bool
is_settled s = elim s.error [ none ↦ true | some e ↦ not (retryable e) ]

abbrev pub settled : String → ℕ → List Sent → Bool
settled task_id seq sent =
    any (λ s. s.event.task_id == task_id && s.event.seq == seq && is_settled s) sent

abbrev pub Before : (ℕ → Bool) → ℕ → Type 0
Before p n = (m : ℕ) → 0 < m → m < n → p m ≡ true

-- What was sent, the last first: before an event, all earlier ones of its task were settled.
abbrev pub Ordered : List Sent → Type 0
Ordered [] = Unit
Ordered (s ∷ sent) = Before (λ m. settled s.event.task_id m sent) s.event.seq × Ordered sent

-- The queue may be sent in its order, where what is done holds already.
abbrev pub Due : List Event → (String → ℕ → Bool) → Type 0
Due [] done = Unit
Due (e ∷ es) done =
    Before (done e.task_id) e.seq × Due es (λ task_id m. done task_id m || is_event task_id m e)

pub Due-mono :
    (es : List Event) (p q : String → ℕ → Bool)
    → ((task_id : String) (m : ℕ) → p task_id m ≡ true → q task_id m ≡ true)
    → Due es p
    → Due es q
Due-mono [] p q h due = tt
Due-mono (e ∷ es) p q h due = (
  λ m pos lt. h e.task_id m (due.0 m pos lt),
  Due-mono es (λ t m. p t m || is_event t m e) (λ t m. q t m || is_event t m e)
      (λ t m. or-mono (p t m) (q t m) (is_event t m e) (h t m)) due.1,
)
  where
    or-mono : (a b c : Bool) → (a ≡ true → b ≡ true) → a || c ≡ true → b || c ≡ true
    or-mono true b c k l = ground (arith, k refl)
    or-mono false b c k l = ground (arith, l)

-- A sorted queue is due if each earlier number of one of its events is done or stands in it.
pub Ascending-Due :
    (es : List Event) (done : String → ℕ → Bool)
    → Ascending es
    → All (λ e. Before (λ m. done e.task_id m || any (is_event e.task_id m) es) e.seq) es
    → Due es done
Ascending-Due [] done up h = tt
Ascending-Due (e ∷ es) done up h = (
  λ m pos lt. ground (arith, h.0 m pos lt, any-below e es m up.0 lt),
  Ascending-Due es (λ t m. done t m || is_event t m e) up.1 (shift es h.1),
)
  where
    shift :
        (fs : List Event)
        → All (λ f. Before (λ m. done f.task_id m || any (is_event f.task_id m) (e ∷ es)) f.seq) fs
        → All
            (λ f.
              Before
                (λ m. (done f.task_id m || is_event f.task_id m e) || any (is_event f.task_id m) es)
                f.seq)
            fs
    shift [] k = tt
    shift (f ∷ fs) k = (λ m pos lt. ground (arith, k.0 m pos lt), shift fs k.1)

-- What is settled or waits for the next turn.
abbrev pub done_or_blocked : List Sent → List String → String → ℕ → Bool
done_or_blocked sent blocked task_id m = settled task_id m sent || contains task_id blocked

abbrev pub is_reported : String → ℕ → Event → Bool
is_reported task_id m e = is_event task_id m e && e.reported

pub record IsOrdered (s : System) : Type 0 where
  pub history : IsHistory s.reporter.journal
  pub told :
      (task_id : String) (m : ℕ)
      → any (is_reported task_id m) s.reporter.journal.events ≡ true
      → settled task_id m s.reporter.sent ≡ true
  pub ordered : Ordered s.reporter.sent
  pub due : Due s.queue (done_or_blocked s.reporter.sent s.progress.blocked)
