-- ===== src/Agent/Journal.antt =====
-- The agent's own record of its tasks and of their changes of state (agent/internal/store/store.go),
-- a SQLite database behind one connection: a method is one function from a Journal to a Journal and
-- an answer. A time is a number of milliseconds, which is what the database keeps of one. A table is
-- the list of its rows, the last one inserted first; only ORDER BY gives a select an order.
pub mod History
use hermes_ai_devops.Common.{
  ℕ, ◌+◌, ◌≡◌, refl, ap, ◌∙◌, sym, String, Bool, true, false, not, ◌&&◌, ◌||◌, Option, none, some,
  List, [], ◌∷◌, max, ltb, leb, any, filter, if◌then◌else◌, ◌==◌, nat_eq, arith, string_eq,
}
use hermes_ai_devops.Common.Text.Order.{text_le}

pub data State : Type 0 where
  queued dispatching accepted preparing downloading deploying running collecting : State
  completed failed timeout canceled : State

abbrev pub is_terminal : State → Bool
is_terminal completed = true
is_terminal failed = true
is_terminal timeout = true
is_terminal canceled = true
is_terminal s = false

-- Two states are compared by their numbers here, by their names in the source.
abbrev state_number : State → ℕ
state_number queued = 0
state_number dispatching = 1
state_number accepted = 2
state_number preparing = 3
state_number downloading = 4
state_number deploying = 5
state_number running = 6
state_number collecting = 7
state_number completed = 8
state_number failed = 9
state_number timeout = 10
state_number canceled = 11

abbrev pub same_state : State → State → Bool
same_state s t = state_number s == state_number t

pub record Task : Type 0 where
  pub task_id : String
  pub idempotency_key : String
  pub state : State
  pub attempt : ℕ
  pub dispatch_json : String
  pub out_dir : String
  pub started_at : ℕ
  pub ended_at : Option ℕ
  pub result_recorded : Bool
  pub lease_id : String
  pub lease_generation : ℕ

pub record Event : Type 0 where
  pub task_id : String
  pub seq : ℕ
  pub from_state : State
  pub to_state : State
  pub ts : ℕ
  pub detail : String
  pub reported : Bool

pub record Journal : Type 0 where
  pub tasks : List Task
  pub events : List Event

abbrev pub empty_journal : Journal
empty_journal = record { tasks = []; events = [] }

unfoldable pub find_task : String → List Task → Option Task
find_task id [] = none
find_task id (t ∷ ts) = if t.task_id == id then some t else find_task id ts

unfoldable pub find_key : String → List Task → Option Task
find_key key [] = none
find_key key (t ∷ ts) = if t.idempotency_key == key then some t else find_key key ts

-- UPDATE tasks ... WHERE task_id = ?
unfoldable pub update_task : String → (Task → Task) → List Task → List Task
update_task id f [] = []
update_task id f (t ∷ ts) = (if t.task_id == id then f t else t) ∷ update_task id f ts

unfoldable pub get_task : Journal → String → Option Task
unfolding find_task
get_task j task_id = find_task task_id j.tasks

unfoldable pub lookup_by_idempotency_key : Journal → String → Option Task
unfolding find_key
lookup_by_idempotency_key j key = find_key key j.tasks

-- The row that is inserted: it is QUEUED whatever the caller says, and without a lease id the
-- generation is NULL, which is read as 0.
abbrev pub inserted_task : Task → ℕ → Task
inserted_task t now = record t {
  state = queued;
  started_at = if t.started_at == 0 then now else t.started_at;
  ended_at = none;
  result_recorded = false;
  lease_generation = if t.lease_id == "" then 0 else t.lease_generation;
}

abbrev pub is_free : Journal → Task → Bool
is_free j t =
    not (any (λ u. u.task_id == t.task_id || u.idempotency_key == t.idempotency_key) j.tasks)

-- False for a broken constraint of the table: its primary key, or a key that is not unique.
unfoldable pub create_task : Journal → Task → ℕ → Journal × Bool
create_task j t now =
    if is_free j t then (record j { tasks = inserted_task t now ∷ j.tasks }, true) else (j, false)

abbrev pub events_of : String → List Event → List Event
events_of id es = filter (λ e. e.task_id == id) es

-- COALESCE(MAX(seq), 0)
unfoldable pub max_seq : List Event → ℕ
max_seq [] = 0
max_seq (e ∷ es) = max e.seq (max_seq es)

pub data Moved : Type 0 where
  moved : ℕ → Moved
  task_not_found terminal_state state_mismatch : Moved

abbrev pub moved_task : State → ℕ → Task → Task
moved_task to now t = record t {
  state = to;
  ended_at = if is_terminal to then some now else t.ended_at;
}

abbrev pub new_event : String → ℕ → State → State → String → ℕ → Event
new_event task_id seq from to detail now = record {
  task_id = task_id;
  seq = seq;
  from_state = from;
  to_state = to;
  ts = now;
  detail = detail;
  reported = false;
}

unfoldable pub transition : Journal → String → State → State → String → ℕ → Journal × Moved
unfolding find_task update_task max_seq
transition j task_id from to detail now = elim (find_task task_id j.tasks) [
  | none ↦ (j, task_not_found)
  | some t ↦
      let seq = max_seq (events_of task_id j.events) + 1 in
      let next : Journal = record {
        tasks = update_task task_id (moved_task to now) j.tasks;
        events = new_event task_id seq from to detail now ∷ j.events;
      } in
      if is_terminal t.state
      then (j, terminal_state)
      else if not (same_state t.state from)
      then (j, state_mismatch)
      else (next, moved seq)
]

abbrev pub is_event : String → ℕ → Event → Bool
is_event task_id seq e = e.task_id == task_id && e.seq == seq

unfoldable pub mark_events : String → ℕ → List Event → List Event
mark_events task_id seq [] = []
mark_events task_id seq (e ∷ es) =
    (if is_event task_id seq e then record e { reported = true } else e)
    ∷ mark_events task_id seq es

unfoldable pub mark_event_reported : Journal → String → ℕ → Journal
unfolding mark_events
mark_event_reported j task_id seq = record j { events = mark_events task_id seq j.events }

-- ORDER BY task_id, seq
abbrev pub event_le : Event → Event → Bool
event_le a b = if a.task_id == b.task_id then leb a.seq b.seq else text_le a.task_id b.task_id

unfoldable pub insert_event : Event → List Event → List Event
insert_event x [] = x ∷ []
insert_event x (y ∷ ys) =
    let rest = insert_event x ys in if event_le x y then x ∷ y ∷ ys else y ∷ rest

unfoldable pub sort_events : List Event → List Event
unfolding insert_event
sort_events [] = []
sort_events (e ∷ es) = insert_event e (sort_events es)

unfoldable pub unreported_events : Journal → List Event
unfolding sort_events
unreported_events j = sort_events (filter (λ e. not e.reported) j.events)

abbrev later : Event → Option Event → Option Event
later e none = some e
later e (some f) = if ltb e.seq f.seq then some f else some e

-- ORDER BY seq DESC LIMIT 1
unfoldable pub last_of : List Event → Option Event
last_of [] = none
last_of (e ∷ es) = later e (last_of es)

unfoldable pub latest_event : Journal → String → Option Event
unfolding last_of
latest_event j task_id = last_of (events_of task_id j.events)

unfoldable pub result_recorded : Journal → String → Option Bool
unfolding get_task
result_recorded j task_id = elim (get_task j task_id) [
  | none ↦ none
  | some t ↦ some t.result_recorded
]

-- False for a task that is not there.
unfoldable pub mark_result_recorded : Journal → String → Journal × Bool
unfolding update_task
mark_result_recorded j task_id = (
  record j { tasks = update_task task_id (λ t. record t { result_recorded = true }) j.tasks },
  any (λ t. t.task_id == task_id) j.tasks,
)

-- ORDER BY started_at
unfoldable pub insert_task : Task → List Task → List Task
insert_task x [] = x ∷ []
insert_task x (y ∷ ys) =
    let rest = insert_task x ys in if leb x.started_at y.started_at then x ∷ y ∷ ys else y ∷ rest

unfoldable pub by_start : List Task → List Task
unfolding insert_task
by_start [] = []
by_start (t ∷ ts) = insert_task t (by_start ts)

pub record Inflight : Type 0 where
  pub tasks : List Task
  pub unreported_events : List Event
  pub pending_results : List Task

unfoldable pub load_inflight : Journal → Inflight
unfolding by_start unreported_events
load_inflight j = record {
  tasks = by_start (filter (λ t. not (is_terminal t.state)) j.tasks);
  unreported_events = unreported_events j;
  pending_results = by_start (filter (λ t. is_terminal t.state && not t.result_recorded) j.tasks);
}

abbrev pub ended_before : ℕ → Task → Bool
ended_before cutoff t = elim t.ended_at [ none ↦ false | some at ↦ ltb at cutoff ]

unfoldable pub list_recorded_terminal_before : Journal → ℕ → List Task
unfolding by_start
list_recorded_terminal_before j cutoff =
    by_start
      (filter (λ t. is_terminal t.state && t.result_recorded && ended_before cutoff t) j.tasks)

of_number : ℕ → State
of_number n =
    if n == 0
    then queued
    else if n == 1
    then dispatching
    else if n == 2
    then accepted
    else if n == 3
    then preparing
    else if n == 4
    then downloading
    else if n == 5
    then deploying
    else if n == 6
    then running
    else if n == 7
    then collecting
    else if n == 8
    then completed
    else if n == 9
    then failed
    else if n == 10
    then timeout
    else canceled

of_number-state_number : (s : State) → of_number (state_number s) ≡ s
unfolding of_number
of_number-state_number queued = refl
of_number-state_number dispatching = refl
of_number-state_number accepted = refl
of_number-state_number preparing = refl
of_number-state_number downloading = refl
of_number-state_number deploying = refl
of_number-state_number running = refl
of_number-state_number collecting = refl
of_number-state_number completed = refl
of_number-state_number failed = refl
of_number-state_number timeout = refl
of_number-state_number canceled = refl

pub eq_of_same_state : (s t : State) → same_state s t ≡ true → s ≡ t
eq_of_same_state s t h =
    let e : state_number s ≡ state_number t = ground (arith, h) in
    sym (of_number-state_number s) ∙ ap of_number e ∙ of_number-state_number t
