-- ===== src/Agent/Reporter/Queue.antt =====
-- The order in which the journal gives its unreported events (agent/internal/store/store.go,
-- UnreportedEvents).
use hermes_ai_devops.Common.{
  ℕ, ◌≤◌, ◌<◌, ◌≡◌, refl, ◌∙◌, Bool, true, false, ◌&&◌, ◌||◌, List, [], ◌∷◌, any, filter, length,
  All, ◌==◌, nat_eq, string_eq, eq_iff, arith, inl, inr, Bool-cases,
}
use hermes_ai_devops.Common.Text.Order.{text_le_total, text_le_trans, text_le_antisym}
use hermes_ai_devops.Agent.Journal.{State, Event, is_event, event_le, insert_event, sort_events}
use hermes_ai_devops.Agent.Journal.History.{Chain}

pub any-insert_event :
    (p : Event → Bool) (x : Event) (es : List Event) → any p (insert_event x es) ≡ p x || any p es
unfolding insert_event
any-insert_event p x [] = refl
any-insert_event p x (y ∷ ys) = ground (arith, any-insert_event p x ys)

pub any-sort_events : (p : Event → Bool) (es : List Event) → any p (sort_events es) ≡ any p es
unfolding sort_events
any-sort_events p [] = refl
any-sort_events p (e ∷ es) =
    any-insert_event p e (sort_events es) ∙ ground (arith, any-sort_events p es)

pub any-filter :
    (p q : Event → Bool) (es : List Event) → any p (filter q es) ≡ any (λ e. q e && p e) es
any-filter p q [] = refl
any-filter p q (e ∷ es) = ground (arith, any-filter p q es)

event_le_total : (a b : Event) → event_le a b ≡ false → event_le b a ≡ true
event_le_total a b h = ground (
  arith,
  h,
  eq_iff a.task_id b.task_id,
  eq_iff b.task_id a.task_id,
  text_le_total a.task_id b.task_id,
)

event_le_trans : (a b c : Event) → event_le a b ≡ true → event_le b c ≡ true → event_le a c ≡ true
event_le_trans a b c h k = ground (
  arith,
  h,
  k,
  eq_iff a.task_id b.task_id,
  eq_iff b.task_id c.task_id,
  eq_iff a.task_id c.task_id,
  text_le_trans a.task_id b.task_id c.task_id,
  text_le_antisym a.task_id b.task_id,
)

-- Each event is at most every later one.
abbrev pub Ascending : List Event → Type 0
Ascending [] = Unit
Ascending (e ∷ es) = All (λ f. event_le e f ≡ true) es × Ascending es

pub All-insert_event :
    (P : Event → Type 0) (x : Event) (es : List Event) → P x → All P es → All P (insert_event x es)
unfolding insert_event
All-insert_event P x [] px h = (px, tt)
All-insert_event P x (y ∷ ys) px h = elim (Bool-cases (event_le x y)) [
  | inl le ↦ rw le (px, h)
  | inr gt ↦ rw gt (h.0, All-insert_event P x ys px h.1)
]

below-All :
    (x y : Event) (es : List Event)
    → event_le x y ≡ true
    → All (λ f. event_le y f ≡ true) es
    → All (λ f. event_le x f ≡ true) es
below-All x y [] le h = tt
below-All x y (z ∷ zs) le h = (event_le_trans x y z le h.0, below-All x y zs le h.1)

insert_event-Ascending :
    (x : Event) (es : List Event) → Ascending es → Ascending (insert_event x es)
unfolding insert_event
insert_event-Ascending x [] h = (tt, tt)
insert_event-Ascending x (y ∷ ys) h = elim (Bool-cases (event_le x y)) [
  | inl le ↦ rw le ((le, below-All x y ys le h.0), h)
  | inr gt ↦ rw gt (
    All-insert_event (λ f. event_le y f ≡ true) x ys (event_le_total x y gt) h.0,
    insert_event-Ascending x ys h.1,
  )
]

pub sort_events-Ascending : (es : List Event) → Ascending (sort_events es)
unfolding sort_events
sort_events-Ascending [] = tt
sort_events-Ascending (e ∷ es) =
    insert_event-Ascending e (sort_events es) (sort_events-Ascending es)

-- In a chain every number up to the last one stands.
pub any-Chain :
    (s : State) (es : List Event) (m : ℕ)
    → Chain s es
    → 0 < m
    → m ≤ length es
    → any (λ e. e.seq == m) es ≡ true
any-Chain s [] m h pos le = absurd (omega arith)
any-Chain s (e ∷ es) m h pos le = grind (arith, any-Chain e.from_state es m h.3 pos)

-- What is set beside an event that comes later in the queue is not of an earlier number.
pub any-below :
    (e : Event) (es : List Event) (m : ℕ)
    → All (λ f. event_le e f ≡ true) es
    → m < e.seq
    → any (is_event e.task_id m) es ≡ false
any-below e [] m h lt = refl
any-below e (f ∷ fs) m h lt =
    ground (
      arith,
      h,
      lt,
      any-below e fs m h.1 lt,
      eq_iff f.task_id e.task_id,
      eq_iff e.task_id f.task_id,
    )
