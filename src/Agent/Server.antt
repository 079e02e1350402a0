-- ===== src/Agent/Server.antt =====
-- The HTTP service of the agent (agent/internal/server/tasks.go, server.go): a task is admitted once,
-- asked for, and canceled. Decoding JSON and the schema, the digest of a name, and which calls of the
-- database fail are arguments. `launched` are the tasks whose execution was started, the last first,
-- and `canceled` those whose executor was told to stop.
pub mod Names
pub mod Keeping
pub mod Once
use hermes_ai_devops.Common.{
  ℕ, String, Bool, false, not, ◌||◌, Option, none, some, List, ◌∷◌, contains, filter, if◌then◌else◌,
  ◌==◌, string_eq,
}
use hermes_ai_devops.Common.Text.{codes}
use hermes_ai_devops.Agent.Text.{Text}
use hermes_ai_devops.Agent.Server.Names.{safe_out_dir_name}
use hermes_ai_devops.Agent.Journal.{
  State, queued, is_terminal, Task, Journal, get_task, lookup_by_idempotency_key, create_task,
  latest_event,
}

pub record Upload : Type 0 where
  pub object_key : String
  pub url : String
  pub expires_at : String

-- What the agent reads of a TaskDispatchRequest; `body` is the request itself.
pub record Dispatch : Type 0 where
  pub task_id : String
  pub idempotency_key : String
  pub attempt : ℕ
  pub package_url : String
  pub sha256 : String
  pub device_serial : String
  pub lease_id : String
  pub lease_generation : ℕ
  pub upload_request_url : String
  pub presigned_uploads : List Upload
  pub body : String

-- The body could not be read, it breaks the schema, it could not be decoded, or it was.
pub data Request : Type 0 where
  unreadable violation undecodable : Request
  decoded : Dispatch → Request

pub record TaskStatus : Type 0 where
  pub task_id : String
  pub idempotency_key : String
  pub attempt : ℕ
  pub state : State
  pub detail : String
  pub updated_at : ℕ

pub data Response : Type 0 where
  failed : ℕ → String → Response
  answered : ℕ → TaskStatus → Response

pub record Server : Type 0 where
  pub journal : Journal
  pub running : List String
  pub launched : List String
  pub canceled : List String

-- What befalls a request; `sum` is SHA-256, and `join_root` puts the root of the runs before a name.
pub record Turn : Type 0 where
  pub lookup_fails : Bool
  pub get_fails : Bool
  pub create_fails : Bool
  pub second_lookup_fails : Bool
  pub second_get_fails : Bool
  pub last_get_fails : Bool
  pub latest_event_fails : Bool
  pub now : ℕ
  pub sum : Text → List ℕ
  pub join_root : Text → String

abbrev plain_status : Task → TaskStatus
plain_status t = record {
  task_id = t.task_id;
  idempotency_key = t.idempotency_key;
  attempt = t.attempt;
  state = t.state;
  detail = "";
  updated_at = t.started_at;
}

unfoldable pub task_status : Bool → Journal → Task → TaskStatus
unfolding latest_event
task_status fails j t = if fails then plain_status t else elim (latest_event j t.task_id) [
  | none ↦ plain_status t
  | some ev ↦ record (plain_status t) { updated_at = ev.ts; detail = ev.detail }
]

abbrev pub answer : Turn → Journal → Task → Response
answer c j t = answered 202 (task_status c.latest_event_fails j t)

abbrev pub asked : {A : Type 0} → Bool → Option A → Option A
asked fails o = if fails then none else o

abbrev pub new_task : Turn → Dispatch → Task
new_task c d = record {
  task_id = d.task_id;
  idempotency_key = d.idempotency_key;
  state = queued;
  attempt = d.attempt;
  dispatch_json = d.body;
  out_dir = c.join_root (safe_out_dir_name c.sum (codes d.task_id));
  started_at = 0;
  ended_at = none;
  result_recorded = false;
  lease_id = d.lease_id;
  lease_generation = d.lease_generation;
}

-- startTask: the executor is registered, and its goroutine runs.
unfoldable pub start_task : Server → String → Server
start_task s task_id = record s { running = task_id ∷ s.running; launched = task_id ∷ s.launched }

-- The insertion failed: another request may have come first.
unfoldable pub after_failed_create : Turn → Server → Dispatch → Response
unfolding lookup_by_idempotency_key get_task task_status
after_failed_create c s d =
    elim (asked c.second_lookup_fails (lookup_by_idempotency_key s.journal d.idempotency_key)) [
      | some t ↦ answer c s.journal t
      | none ↦ elim (asked c.second_get_fails (get_task s.journal d.task_id)) [
        | some t ↦ failed 409 "task_conflict"
        | none ↦ failed 500 "store_error"
      ]
    ]

abbrev pub final_task : Turn → Server → Dispatch → Task
final_task c s d = elim (asked c.last_get_fails (get_task s.journal d.task_id)) [
  | some t ↦ t
  | none ↦ let t = new_task c d in record t { started_at = c.now }
]

-- From the insertion on. Requests run side by side, and others may come between the checks of a request
-- and its insertion: Once takes the insertion as an act of its own.
unfoldable pub insert_task : Turn → Server → Dispatch → Server × Response
unfolding create_task start_task after_failed_create
insert_task c s d =
    let (j, created) = create_task s.journal (new_task c d) c.now in
    let t = start_task (record s { journal = j }) d.task_id in
    if c.create_fails || not created
    then (s, after_failed_create c s d)
    else (t, answer c t.journal (final_task c t d))

-- A request that nobody comes between.
unfoldable pub admit : Turn → Server → Dispatch → Server × Response
unfolding lookup_by_idempotency_key get_task task_status insert_task
admit c s d = elim (asked c.lookup_fails (lookup_by_idempotency_key s.journal d.idempotency_key)) [
  | some t ↦ (s, answer c s.journal t)
  | none ↦
      if c.get_fails then (s, failed 500 "store_error") else elim (get_task s.journal d.task_id) [
        | some t ↦ (s, failed 409 "task_conflict")
        | none ↦ insert_task c s d
      ]
]

unfoldable pub dispatch_task : Turn → Server → Request → Server × Response
unfolding admit
dispatch_task c s unreadable = (s, failed 400 "bad_request")
dispatch_task c s violation = (s, failed 400 "schema_violation")
dispatch_task c s undecodable = (s, failed 400 "bad_request")
dispatch_task c s (decoded d) = admit c s d

unfoldable pub get_task_status : Turn → Server → String → Response
unfolding get_task task_status
get_task_status c s task_id =
    if c.get_fails then failed 500 "store_error" else elim (get_task s.journal task_id) [
      | none ↦ failed 404 "task_not_found"
      | some t ↦ answered 200 (task_status c.latest_event_fails s.journal t)
    ]

unfoldable pub cancel_running : Server → String → Server
cancel_running s task_id =
    if contains task_id s.running then record s { canceled = task_id ∷ s.canceled } else s

unfoldable pub cancel_task : Turn → Server → String → Server × Response
unfolding get_task task_status cancel_running
cancel_task c s task_id =
    if c.get_fails then (s, failed 500 "store_error") else elim (get_task s.journal task_id) [
      | none ↦ (s, failed 404 "task_not_found")
      | some t ↦
          let stopped = if is_terminal t.state then s else cancel_running s t.task_id in
          (stopped, answer c stopped.journal t)
    ]

-- The hook of the heartbeat for a task whose lease is lost.
unfoldable pub stop_task : Bool → Server → String → Server
unfolding get_task cancel_running
stop_task fails s task_id = if fails then s else elim (get_task s.journal task_id) [
  | none ↦ s
  | some t ↦ if is_terminal t.state then s else cancel_running s task_id
]

-- The end of runTask: the executor is taken off.
unfoldable pub end_task : Server → String → Server
end_task s task_id = record s { running = filter (λ id. not (id == task_id)) s.running }
