-- ===== src/Agent/Reporter/Standing.antt =====
-- The events that stand in the journal before another one (agent/internal/store/store.go).
use hermes_ai_devops.Common.{
  ℕ, ◌≤◌, ◌≡◌, refl, sym, subst, ◌∙◌, Bool, true, Option, none, some, List, [], ◌∷◌, any, filter,
  length, All, Memᴰ, ◌==◌, nat_eq, string_eq, eq_refl, arith, inl, inr, Bool-cases,
}
use hermes_ai_devops.Agent.Journal.{
  State, Task, Event, Journal, events_of, is_event, sort_events, find_task,
}
use hermes_ai_devops.Agent.Journal.History.{Chain, Kept, IsHistory}
use hermes_ai_devops.Agent.Reporter.Queue.{any-filter, any-Chain, All-insert_event}
use hermes_ai_devops.Agent.Reporter.Order.{Before}

mem-All : (P : Event → Type 0) {e : Event} (es : List Event) → All P es → Memᴰ e es → P e
mem-All P [] h m = elim m [ ]
mem-All P (x ∷ es) h (Memᴰ.head same) = subst P (sym same) h.0
mem-All P (x ∷ es) h (Memᴰ.tail m) = mem-All P es h.1 m

pub All-of_mem : (P : Event → Type 0) (es : List Event) → ((e : Event) → Memᴰ e es → P e) → All P es
All-of_mem P [] h = tt
All-of_mem P (e ∷ es) h = (h e (Memᴰ.head refl), All-of_mem P es (λ f m. h f (Memᴰ.tail m)))

pub All-filter :
    (P : Event → Type 0) (q : Event → Bool) (es : List Event) → All P es → All P (filter q es)
All-filter P q [] h = tt
All-filter P q (e ∷ es) h = elim (Bool-cases (q e)) [
  | inl stays ↦ rw stays (h.0, All-filter P q es h.1)
  | inr goes ↦ rw goes (All-filter P q es h.1)
]

pub All-sort_events : (P : Event → Type 0) (es : List Event) → All P es → All P (sort_events es)
unfolding sort_events
All-sort_events P [] h = tt
All-sort_events P (e ∷ es) h = All-insert_event P e (sort_events es) h.0 (All-sort_events P es h.1)

pub mem-filter :
    (q : Event → Bool) (e : Event) (es : List Event) → q e ≡ true → Memᴰ e es → Memᴰ e (filter q es)
mem-filter q e [] h m = elim m [ ]
mem-filter q e (x ∷ es) h (Memᴰ.head same) = rw (subst (λ y. q y ≡ true) same h) (Memᴰ.head same)
mem-filter q e (x ∷ es) h (Memᴰ.tail m) = elim (Bool-cases (q x)) [
  | inl stays ↦ rw stays (Memᴰ.tail (mem-filter q e es h m))
  | inr goes ↦ rw goes (mem-filter q e es h m)
]

Chain-seq-le :
    (s : State) (es : List Event) (n : ℕ) → Chain s es → length es ≤ n → All (λ e. e.seq ≤ n) es
Chain-seq-le s [] n h le = tt
Chain-seq-le s (e ∷ es) n h le =
    (omega (arith, h.1), Chain-seq-le e.from_state es n h.3 (omega arith))

-- All earlier numbers of an event stand in the journal.
pub earlier_stand :
    (j : Journal) (e : Event)
    → IsHistory j
    → Memᴰ e j.events
    → Before (λ m. any (is_event e.task_id m) j.events) e.seq
earlier_stand j e h mem m pos lt = find (find_task e.task_id j.tasks) (h e.task_id)
  where
    here : Memᴰ e (events_of e.task_id j.events)
    here = mem-filter (λ f. f.task_id == e.task_id) e j.events (eq_refl e.task_id) mem

    none_here : {es : List Event} → es ≡ [] → Memᴰ e es → any (is_event e.task_id m) j.events ≡ true
    none_here {es} p (Memᴰ.head q) = cc
    none_here {es} p (Memᴰ.tail q) = cc

    find :
        (o : Option Task)
        → Kept o (events_of e.task_id j.events)
        → any (is_event e.task_id m) j.events ≡ true
    find none k = none_here k here
    find (some t) k =
        let es = events_of e.task_id j.events in
        let below : e.seq ≤ length es =
          mem-All (λ f. f.seq ≤ length es) es
            (Chain-seq-le t.state es (length es) k.0 (omega arith)) here in
        sym (any-filter (λ f. f.seq == m) (λ f. f.task_id == e.task_id) j.events)
        ∙ any-Chain t.state es m k.0 pos (omega arith)
