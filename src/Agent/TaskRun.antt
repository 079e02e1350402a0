-- ===== src/Agent/TaskRun.antt =====
-- The execution of a task in the agent (agent/internal/server/tasks.go, runTask): every change of the
-- executor's status goes through the event reporter into the journal. What befalls each of these
-- calls is an argument, by the number of the call.
pub mod Statuses
use hermes_ai_devops.Common.{ℕ, ◌+◌, String, Bool, none, some, List, [], ◌∷◌, length, if◌then◌else◌}
use hermes_ai_devops.Agent.Run.{Status, Options, Env}
use hermes_ai_devops.Agent.Run
use hermes_ai_devops.Agent.Quiet.{hist}
use hermes_ai_devops.Agent.Execute.{Executed, execute}
use hermes_ai_devops.Agent.Journal.{State, queued, accepted, Journal, get_task}
use hermes_ai_devops.Agent.Journal
use hermes_ai_devops.Agent.Reporter.{Reporter, Reply, Turn, on_transition}

-- store.State(s), by the names that both sides share.
abbrev pub of_status : Status → State
of_status Status.preparing = State.preparing
of_status Status.downloading = State.downloading
of_status Status.deploying = State.deploying
of_status Status.running = State.running
of_status Status.collecting = State.collecting
of_status Status.completed = State.completed
of_status Status.failed = State.failed
of_status Status.timeout = State.timeout
of_status Status.canceled = State.canceled

unfoldable pub current_status : Bool → Journal → String → State
unfolding get_task
current_status fails j task_id =
    if fails then accepted else elim (get_task j task_id) [ none ↦ accepted | some t ↦ t.state ]

pub record Surroundings : Type 0 where
  pub reply : Reply
  pub turn : ℕ → Turn
  pub current_fails : ℕ → Bool

-- The reporter after the statuses, of which the last one stands first.
unfoldable pub after_statuses : Surroundings → String → Reporter → List Status → Reporter
unfolding current_status on_transition
after_statuses w task_id r [] = (on_transition (w.turn 0) w.reply r task_id queued accepted "").0
after_statuses w task_id r (s ∷ ss) =
    let n = length ss + 1 in
    let before = after_statuses w task_id r ss in
    (on_transition (w.turn n) w.reply before task_id
      (current_status (w.current_fails n) before.journal task_id) (of_status s) "").0

-- The changes of the state of a task while it is executed, and the summary.
unfoldable pub execute_task : Surroundings → Env → Options → String → Reporter → Reporter × Executed
unfolding after_statuses execute
execute_task w env o task_id r =
    let done = execute env o in (after_statuses w task_id r (hist done.agent), done)
