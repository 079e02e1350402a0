-- ===== src/Agent/Journal/History.antt =====
-- What the journal of an agent looks like after any calls (agent/internal/store/store.go).
use hermes_ai_devops.Common.{
  ℕ, suc, ◌+◌, ◌≡◌, refl, sym, ap, subst, ◌≢◌, ◌⊎◌, String, Bool, true, false, ◌||◌, Option, none,
  some, List, [], ◌∷◌, any, filter, length, if◌then◌else◌, ◌==◌, nat_eq, string_eq, eq_iff, arith,
  inl, inr, Bool-cases, Option-cases,
}
use hermes_ai_devops.Agent.Journal.{
  State, queued, is_terminal, same_state, eq_of_same_state, Task, Event, Journal, empty_journal,
  find_task, update_task, is_free, create_task, events_of, max_seq, moved, moved_task, new_event,
  transition, mark_events, mark_event_reported, mark_result_recorded,
}

-- A call that writes.
pub data Call : Type 0 where
  create : Task → ℕ → Call
  move : String → State → State → String → ℕ → Call
  report_event : String → ℕ → Call
  record_result : String → Call

unfoldable pub apply_call : Journal → Call → Journal
unfolding create_task transition mark_event_reported mark_result_recorded
apply_call j (create t now) = (create_task j t now).0
apply_call j (move task_id from to detail now) = (transition j task_id from to detail now).0
apply_call j (report_event task_id seq) = mark_event_reported j task_id seq
apply_call j (record_result task_id) = (mark_result_recorded j task_id).0

unfoldable pub apply_calls : Journal → List Call → Journal
apply_calls j [] = j
apply_calls j (c ∷ cs) = apply_calls (apply_call j c) cs

-- The events of one task, the last first, up to the state that it is in.
abbrev pub Chain : State → List Event → Type 0
Chain s [] = s ≡ queued
Chain s (e ∷ es) =
    (e.to_state ≡ s)
    × (e.seq ≡ length es + 1)
    × (is_terminal e.from_state ≡ false)
    × Chain e.from_state es

abbrev pub is_some : {A : Type 0} → Option A → Bool
is_some none = false
is_some (some x) = true

-- A task that is not there has no events; another one has a chain of them, and an end exactly if its
-- state is terminal.
abbrev pub Kept : Option Task → List Event → Type 0
Kept none es = es ≡ []
Kept (some t) es = Chain t.state es × (is_some t.ended_at ≡ is_terminal t.state)

abbrev pub IsHistory : Journal → Type 0
IsHistory j = (id : String) → Kept (find_task id j.tasks) (events_of id j.events)

pub max_seq-Chain : (s : State) (es : List Event) → Chain s es → max_seq es ≡ length es
unfolding max_seq
max_seq-Chain s [] h = refl
max_seq-Chain s (e ∷ es) h = grind (arith, max_seq-Chain e.from_state es h.3)

pub find_task-update_task :
    (key id : String) (f : Task → Task) (ts : List Task)
    → ((t : Task) → (f t).task_id ≡ t.task_id)
    → find_task id (update_task key f ts) ≡ (
        if key == id
        then elim (find_task id ts) as (λ _. Option Task) [ none ↦ none | some t ↦ some (f t) ]
        else find_task id ts)
unfolding find_task update_task
find_task-update_task key id f [] keeps = ground arith
find_task-update_task key id f (t ∷ ts) keeps = ground (
  arith,
  keeps t,
  find_task-update_task key id f ts keeps,
  eq_iff t.task_id key,
  eq_iff t.task_id id,
  eq_iff key id,
)

module _ (p : Event → Bool) (task_id : String) (seq : ℕ) where
  pub filter-mark_events :
      ((e : Event) → p (record e { reported = true }) ≡ p e)
      → (es : List Event)
      → filter p (mark_events task_id seq es) ≡ mark_events task_id seq (filter p es)
  unfolding mark_events
  filter-mark_events same [] = refl
  filter-mark_events same (e ∷ es) = ground (arith, same e, filter-mark_events same es)

length-mark_events :
    (task_id : String) (seq : ℕ) (es : List Event) → length (mark_events task_id seq es) ≡ length es
unfolding mark_events
length-mark_events task_id seq [] = refl
length-mark_events task_id seq (e ∷ es) = ap suc (length-mark_events task_id seq es)

mark_events-Chain :
    (task_id : String) (seq : ℕ) (s : State) (es : List Event)
    → Chain s es
    → Chain s (mark_events task_id seq es)
unfolding mark_events
mark_events-Chain task_id seq s [] h = h
mark_events-Chain task_id seq s (e ∷ es) h =
    ground (
      arith,
      h,
      length-mark_events task_id seq es,
      mark_events-Chain task_id seq e.from_state es h.3,
    )

mark_events-Kept :
    (task_id : String) (seq : ℕ) (o : Option Task) (es : List Event)
    → Kept o es
    → Kept o (mark_events task_id seq es)
unfolding mark_events
mark_events-Kept task_id seq none es h = rw h refl
mark_events-Kept task_id seq (some t) es (c, h) = (mark_events-Chain task_id seq t.state es c, h)

pub report_event-IsHistory :
    (j : Journal) (task_id : String) (seq : ℕ)
    → IsHistory j
    → IsHistory (mark_event_reported j task_id seq)
unfolding mark_event_reported
report_event-IsHistory j task_id seq h id =
    rw (filter-mark_events (λ e. e.task_id == id) task_id seq (λ e. refl) j.events)
      (mark_events-Kept task_id seq (find_task id j.tasks) (events_of id j.events) (h id))

record_result-Kept :
    (key id : String) (o : Option Task) (es : List Event)
    → Kept o es
    → Kept
        (if key == id
          then elim o as (λ _. Option Task) [
            | none ↦ none
            | some t ↦ some (record t { result_recorded = true })
          ]
          else o)
        es
record_result-Kept key id none es h = elim (Bool-cases (key == id)) [
  | inl e ↦ rw e h
  | inr e ↦ rw e h
]
record_result-Kept key id (some t) es h = elim (Bool-cases (key == id)) [
  | inl e ↦ rw e h
  | inr e ↦ rw e h
]

pub record_result-IsHistory :
    (j : Journal) (task_id : String) → IsHistory j → IsHistory (mark_result_recorded j task_id).0
unfolding mark_result_recorded
record_result-IsHistory j task_id h id =
    rw
      (find_task-update_task task_id id (λ t. record t { result_recorded = true }) j.tasks
        (λ t. refl))
      (record_result-Kept task_id id (find_task id j.tasks) (events_of id j.events) (h id))

find_task-any :
    (id : String) (p : Task → Bool) (ts : List Task)
    → ((t : Task) → t.task_id ≡ id → p t ≡ true)
    → any p ts ≡ false
    → find_task id ts ≡ none
unfolding find_task
find_task-any id p [] is h = refl
find_task-any id p (t ∷ ts) is h =
    ground (arith, is t, eq_iff t.task_id id, find_task-any id p ts is)

pub find_task-is_free :
    (j : Journal) (t : Task) → is_free j t ≡ true → find_task t.task_id j.tasks ≡ none
find_task-is_free j t h =
    find_task-any t.task_id (λ u. u.task_id == t.task_id || u.idempotency_key == t.idempotency_key)
      j.tasks (λ u e. ground (arith, eq_iff u.task_id t.task_id)) (ground (arith, h))

pub create-IsHistory :
    (j : Journal) (t : Task) (now : ℕ) → IsHistory j → IsHistory (create_task j t now).0
unfolding create_task find_task
create-IsHistory j t now h id = elim (Bool-cases (is_free j t)) [
  | inr taken ↦ rw taken (h id)
  | inl free ↦ rw free (elim (Bool-cases (t.task_id == id)) [
    | inl same ↦
        let e : t.task_id ≡ id = (eq_iff t.task_id id).0 same in
        let gone : find_task id j.tasks ≡ none = rw (← e) (find_task-is_free j t free) in
        let before : Kept (find_task id j.tasks) (events_of id j.events) = h id in
        let nothing : events_of id j.events ≡ [] = rw gone at before in
        rw (same, nothing) (refl, refl)
    | inr other ↦ rw other (h id)
  ])
]

-- What a transition that is made leaves behind.
abbrev pub after_move : Journal → String → State → State → String → ℕ → ℕ → Journal
after_move j task_id from to detail now seq = record {
  tasks = update_task task_id (moved_task to now) j.tasks;
  events = new_event task_id seq from to detail now ∷ j.events;
}

after_move-IsHistory :
    (j : Journal) (task_id : String) (to : State) (detail : String) (now : ℕ) (t : Task)
    → find_task task_id j.tasks ≡ some t
    → is_terminal t.state ≡ false
    → IsHistory j
    → IsHistory
        (after_move j task_id t.state to detail now (max_seq (events_of task_id j.events) + 1))
after_move-IsHistory j task_id to detail now t found live h id =
    let stays = find_task-update_task task_id id (moved_task to now) j.tasks (λ u. refl) in
    elim (Bool-cases (task_id == id)) [
      | inr other ↦ rw stays (rw other (h id))
      | inl same ↦
          let e : task_id ≡ id = (eq_iff task_id id).0 same in
          let here : find_task id j.tasks ≡ some t = rw (← e) found in
          let before : Kept (find_task id j.tasks) (events_of id j.events) = h id in
          let kept : Kept (some t) (events_of id j.events) = rw here at before in
          let count = max_seq-Chain t.state (events_of id j.events) kept.0 in
          rw (stays, same, here, e, count) ((refl, refl, live, kept.0), ended to (kept.1))
    ]
  where
    ended :
        (s : State)
        → is_some t.ended_at ≡ is_terminal t.state
        → is_some (if is_terminal s then some now else t.ended_at) ≡ is_terminal s
    ended s k = ground (arith, live, k)

pub transition-made :
    (j : Journal) (task_id : String) (from to : State) (detail : String) (now : ℕ) (t : Task)
    → find_task task_id j.tasks ≡ some t
    → is_terminal t.state ≡ false
    → same_state t.state from ≡ true
    → (let seq = max_seq (events_of task_id j.events) + 1 in
        transition j task_id from to detail now
        ≡ (after_move j task_id from to detail now seq, moved seq))
unfolding transition
transition-made j task_id from to detail now t found live same = ground arith

-- A transition is refused and changes nothing, or it is made.
pub transition-cases :
    (j : Journal) (task_id : String) (from to : State) (detail : String) (now : ℕ)
    → (((transition j task_id from to detail now).0 ≡ j)
        × ((seq : ℕ) → (transition j task_id from to detail now).1 ≢ moved seq))
      ⊎ ((t : Task) × (find_task task_id j.tasks ≡ some t)
          × (is_terminal t.state ≡ false)
          × (same_state t.state from ≡ true))
unfolding transition
transition-cases j task_id from to detail now = elim (Option-cases (find_task task_id j.tasks)) [
  | inl gone ↦ inl (ground arith, λ seq e. ground arith)
  | inr (t, found) ↦ elim (Bool-cases (is_terminal t.state)) [
    | inl over ↦ inl (ground arith, λ seq e. ground arith)
    | inr live ↦ elim (Bool-cases (same_state t.state from)) [
      | inr other ↦ inl (ground arith, λ seq e. ground arith)
      | inl same ↦ inr (t, found, live, same)
    ]
  ]
]

pub transition-IsHistory :
    (j : Journal) (task_id : String) (from to : State) (detail : String) (now : ℕ)
    → IsHistory j
    → IsHistory (transition j task_id from to detail now).0
transition-IsHistory j task_id from to detail now h =
    elim (transition-cases j task_id from to detail now) [
      | inl refused ↦ subst IsHistory (sym refused.0) h
      | inr (t, found, live, same) ↦
          subst IsHistory
            (sym (ap (λ r. r.0) (transition-made j task_id from to detail now t found live same)))
            (subst
              (λ s.
                IsHistory
                  (after_move j task_id s to detail now (max_seq (events_of task_id j.events) + 1)))
              (eq_of_same_state t.state from same)
              (after_move-IsHistory j task_id to detail now t found live h))
    ]

apply_call-IsHistory : (j : Journal) (c : Call) → IsHistory j → IsHistory (apply_call j c)
unfolding apply_call
apply_call-IsHistory j (create t now) h = create-IsHistory j t now h
apply_call-IsHistory j (move task_id from to detail now) h =
    transition-IsHistory j task_id from to detail now h
apply_call-IsHistory j (report_event task_id seq) h = report_event-IsHistory j task_id seq h
apply_call-IsHistory j (record_result task_id) h = record_result-IsHistory j task_id h

pub apply_calls-IsHistory :
    (j : Journal) (cs : List Call) → IsHistory j → IsHistory (apply_calls j cs)
unfolding apply_calls
apply_calls-IsHistory j [] h = h
apply_calls-IsHistory j (c ∷ cs) h =
    apply_calls-IsHistory (apply_call j c) cs (apply_call-IsHistory j c h)

-- After any calls of the store of an agent that begins empty, the events of every task are numbered
-- 1, 2, 3 and so on, the first leaves QUEUED, each other one leaves the state that the one before
-- enters, none leaves a terminal state, and the last enters the state of the task; a task has the
-- time of its end exactly if its state is terminal, and one that is not there has no events.
pub calls-IsHistory : (cs : List Call) → IsHistory (apply_calls empty_journal cs)
unfolding find_task
calls-IsHistory cs = apply_calls-IsHistory empty_journal cs (λ id. refl)
