-- ===== src/Agent/Results.antt =====
-- The result of a task, built and sent by the agent (agent/internal/reporter/result.go), and what a
-- restarted agent does with the tasks that it finds (agent/cmd/agent/main.go, abortInflight). The
-- files of the runs, JSON and the schema of results are arguments; durations are left out.
pub mod Outcome
use hermes_ai_devops.Common.{
  ℕ, zero, suc, ◌+◌, ◌-◌, ◌*◌, String, Bool, true, false, not, ◌&&◌, Option, none, some, List, [],
  ◌∷◌, ltb, if◌then◌else◌, ◌==◌, string_eq,
}
use hermes_ai_devops.Common.Int.{ℤ, pos}
use hermes_ai_devops.Common.Dict.{Dict}
use hermes_ai_devops.Agent.Text.{Text}
use hermes_ai_devops.Agent.Run.{Summary}
use hermes_ai_devops.Agent.Journal.{
  State, is_terminal, Task, Journal, get_task, mark_result_recorded, load_inflight,
}
use hermes_ai_devops.Agent.Reporter.{PostError, retryable}

pub record Attachment : Type 0 where
  pub name : String
  pub object_key : String
  pub sha256 : String
  pub size : ℕ

pub record CaseFailure : Type 0 where
  pub name : String
  pub message : String

pub record Cases : Type 0 where
  pub total : ℤ
  pub passed : ℤ
  pub failed : ℤ
  pub skipped : ℤ
  pub failures : List CaseFailure

pub record ArtifactInfo : Type 0 where
  pub commit : String
  pub pipeline_id : Option ℤ

-- A number of the metrics is its bit pattern.
pub record Result : Type 0 where
  pub result_version : ℕ
  pub task_id : String
  pub attempt : ℕ
  pub status : State
  pub exit_code : ℤ
  pub cases : Cases
  pub signatures_hit : List String
  pub metrics : Dict ℕ
  pub environment : List (Text × Text)
  pub artifact : Option ArtifactInfo
  pub attachments : List Attachment
  pub failure_scope : Text
  pub failure_stage : Text

-- A missing field or a null is a none; the failures of cases that are null are the empty list.
pub record DeviceResult : Type 0 where
  pub cases : Option Cases
  pub signatures_hit : Option (List String)
  pub metrics : Option (Dict ℕ)
  pub artifact : Option ArtifactInfo

-- The file result.json of the device: it is not there, or it cannot be read, or it was.
pub data DeviceFile : Type 0 where
  absent broken : DeviceFile
  present : DeviceResult → DeviceFile

-- The files under the directory of a run, and the artifact that a dispatch names, if it is JSON.
pub record Files : Type 0 where
  pub summary : String → Option Summary
  pub device : String → DeviceFile
  pub dispatched : String → Option ArtifactInfo
  pub conforms : Result → Bool

unfoldable pub synthesize_cases : Summary → Cases
synthesize_cases sum =
    if sum.success_criteria_met
    then record { total = pos 1; passed = pos 1; failed = pos 0; skipped = pos 0; failures = [] }
    else record { total = pos 1; passed = pos 0; failed = pos 1; skipped = pos 0; failures = [] }

abbrev is_empty_info : ArtifactInfo → Bool
is_empty_info a = a.commit == "" && (elim a.pipeline_id [ none ↦ true | some id ↦ false ])

abbrev unless_empty : Option ArtifactInfo → Option ArtifactInfo
unless_empty none = none
unless_empty (some a) = if is_empty_info a then none else some a

abbrev pub artifact_from_dispatch : Files → String → Option ArtifactInfo
artifact_from_dispatch files dispatch_json = unless_empty (files.dispatched dispatch_json)

abbrev pub or_else : {A : Type 0} → Option A → A → A
or_else none d = d
or_else (some x) d = x

abbrev device_cases : Summary → DeviceFile → Cases
device_cases sum absent = synthesize_cases sum
device_cases sum broken = synthesize_cases sum
device_cases sum (present dev) = or_else dev.cases (synthesize_cases sum)

abbrev device_signatures : DeviceFile → List String
device_signatures absent = []
device_signatures broken = []
device_signatures (present dev) = or_else dev.signatures_hit []

abbrev device_metrics : DeviceFile → Dict ℕ
device_metrics absent = []
device_metrics broken = []
device_metrics (present dev) = or_else dev.metrics []

abbrev device_artifact : DeviceFile → Option ArtifactInfo
device_artifact absent = none
device_artifact broken = none
device_artifact (present dev) = dev.artifact

-- The device's artifact, or else that of the dispatch; one that says nothing is not sent.
abbrev pub artifact_of : Files → Task → DeviceFile → Option ArtifactInfo
artifact_of files task file = elim (device_artifact file) [
  | some a ↦ unless_empty (some a)
  | none ↦ unless_empty (artifact_from_dispatch files task.dispatch_json)
]

abbrev assembled : Files → Task → List Attachment → Summary → DeviceFile → Result
assembled files task attachments sum file = record {
  result_version = 1;
  task_id = task.task_id;
  attempt = task.attempt;
  status = task.state;
  exit_code = sum.exit_code;
  cases = device_cases sum file;
  signatures_hit = device_signatures file;
  metrics = device_metrics file;
  environment = sum.environment;
  artifact = artifact_of files task file;
  attachments = attachments;
  failure_scope = sum.failure_scope;
  failure_stage = sum.failure_stage;
}

-- None without a summary, or if the result breaks the schema.
unfoldable pub build : Files → Task → List Attachment → Option Result
unfolding synthesize_cases
build files task attachments = elim (files.summary task.out_dir) [
  | none ↦ none
  | some sum ↦
      let res = assembled files task attachments sum (files.device task.out_dir) in
      if files.conforms res then some res else none
]

-- How Report ends: `rejected` for good, `exhausted` after the last attempt, `stopped` by the context.
pub data Verdict : Type 0 where
  recorded already_recorded unknown_task not_terminal not_built : Verdict
  rejected exhausted stopped mark_failed : Verdict

-- What befalls a report; the attempts are numbered from 1, and times are in milliseconds.
pub record Turn : Type 0 where
  pub get_fails : Bool
  pub mark_fails : Bool
  pub reply : ℕ → Result → Option PostError
  pub done : ℕ → Bool
  pub max_attempts : ℕ
  pub initial_backoff : ℕ
  pub max_backoff : ℕ

abbrev pub or_default : ℕ → ℕ → ℕ
or_default n d = if ltb 0 n then n else d

-- The end of the loop, the number of posts, and the pauses.
pub record Sending : Type 0 where
  pub verdict : Verdict
  pub posts : ℕ
  pub waits : List ℕ

abbrev pub doubled : ℕ → ℕ → ℕ
doubled backoff limit = if ltb limit (backoff * 2) then limit else backoff * 2

abbrev pub stop_at : Verdict → ℕ → Sending
stop_at verdict n = record { verdict = verdict; posts = n; waits = [] }

-- The loop from the attempt `n` on, with the number of those that may follow it.
unfoldable pub send_from : Turn → Result → ℕ → ℕ → ℕ → ℕ → Sending
send_from c res limit zero n backoff = elim (c.reply n res) [
  | none ↦ stop_at recorded n
  | some e ↦ if retryable e then stop_at exhausted n else stop_at rejected n
]
send_from c res limit (suc left) n backoff =
    let rest = send_from c res limit left (n + 1) (doubled backoff limit) in
    elim (c.reply n res) [
      | none ↦ stop_at recorded n
      | some e ↦
          if not (retryable e)
          then stop_at rejected n
          else if c.done n
          then record { verdict = stopped; posts = n; waits = backoff ∷ [] }
          else record rest { waits = backoff ∷ rest.waits }
    ]

-- The default is five attempts with pauses of a second and more, of thirty seconds at most.
unfoldable pub send : Turn → Result → Sending
unfolding send_from
send c res =
    send_from c res (or_default c.max_backoff 30000) (or_default c.max_attempts 5 - 1) 1
      (or_default c.initial_backoff 1000)

-- The journal, the end, and what was posted.
pub record Report : Type 0 where
  pub journal : Journal
  pub verdict : Verdict
  pub result : Option Result
  pub posts : ℕ

abbrev pub unsent : Journal → Verdict → Report
unsent j verdict = record { journal = j; verdict = verdict; result = none; posts = 0 }

abbrev pub is_recorded : Verdict → Bool
is_recorded recorded = true
is_recorded v = false

unfoldable pub conclude : Turn → Journal → String → Result → Sending → Report
unfolding mark_result_recorded
conclude c j task_id res s =
    if is_recorded s.verdict && not c.mark_fails
    then record {
      journal = (mark_result_recorded j task_id).0;
      verdict = recorded;
      result = some res;
      posts = s.posts;
    }
    else record {
      journal = j;
      verdict = if is_recorded s.verdict then mark_failed else s.verdict;
      result = some res;
      posts = s.posts;
    }

unfoldable pub report : Turn → Files → Journal → String → List Attachment → Report
unfolding get_task build send conclude
report c files j task_id attachments =
    if c.get_fails then unsent j unknown_task else elim (get_task j task_id) [
      | none ↦ unsent j unknown_task
      | some t ↦
          if not (is_terminal t.state)
          then unsent j not_terminal
          else if t.result_recorded
          then unsent j already_recorded
          else elim (build files t attachments) [
            | none ↦ unsent j not_built
            | some res ↦ conclude c j task_id res (send c res)
          ]
    ]

-- RecoverPending: each result that is not recorded, without attachments.
unfoldable pub report_all : (Task → Turn) → Files → Journal → List Task → Journal
unfolding report
report_all turns files j [] = j
report_all turns files j (t ∷ ts) =
    report_all turns files (report (turns t) files j t.task_id []).journal ts

unfoldable pub recover_pending : Bool → (Task → Turn) → Files → Journal → Journal
unfolding report_all load_inflight
recover_pending load_fails turns files j =
    if load_fails then j else report_all turns files j (load_inflight j).pending_results
