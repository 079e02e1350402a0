-- ===== src/Agent/TaskTests.antt =====
-- A task of the agent from its request to its result, and the theorems applied to it.
use hermes_ai_devops.Common.{
  ℕ, ◌≡◌, refl, ◌⊎◌, String, true, false, Option, none, some, if◌then◌else◌, ◌==◌, nat_eq, List, [],
  ◌∷◌, ◌++◌, map, any, arith,
}
use hermes_ai_devops.Common.Dict.{lookup, insert}
use hermes_ai_devops.Common.Int.{pos}
use hermes_ai_devops.Common.Text.{codes}
use hermes_ai_devops.Agent.Text.{Text}
use hermes_ai_devops.Agent.Run.{Status, Summary}
use hermes_ai_devops.Agent.Quiet.{hist}
use hermes_ai_devops.Agent.Tests.{env_of, sample_reply, sample_options}
use hermes_ai_devops.Agent.Journal.{
  queued, accepted, running, completed, is_terminal, Task, Journal, empty_journal, create_task,
  lookup_by_idempotency_key, unreported_events, find_task,
}
use hermes_ai_devops.Agent.Journal.History.{
  Call, create, move, apply_call, apply_calls, IsHistory, calls-IsHistory,
}
use hermes_ai_devops.Agent.Reporter
use hermes_ai_devops.Agent.Reporter.{
  PostError, status_error, no_answer, TaskEvent, Sent, Reporter, Reply, Faults, drain,
}
use hermes_ai_devops.Agent.Reporter.Order
use hermes_ai_devops.Agent.Reporter.Order.{Ordered, settled, is_reported, change, reload, proceed}
use hermes_ai_devops.Agent.Reporter.Safety.{at_rest, acts-Ordered}
use hermes_ai_devops.Agent.Reporter.Drained.{IsGood, drain-empties}
use hermes_ai_devops.Agent.Server
use hermes_ai_devops.Agent.Server.{Dispatch, decoded, Server, TaskStatus, answered, dispatch_task}
use hermes_ai_devops.Agent.Server.Names.{
  IsDigest, IsDirName, safe_out_dir_name, safe_out_dir_name-IsDirName,
}
use hermes_ai_devops.Agent.Server.Once
use hermes_ai_devops.Agent.Server.Once.{
  request, insertion, ended, new_server, NoRepeats, acts-NoRepeats, whole, IsStatusOf,
  dispatch_again,
}
use hermes_ai_devops.Agent.TaskRun.{of_status, Surroundings, execute_task}
use hermes_ai_devops.Agent.TaskRun.Statuses.{Is, IsWritable, execute_task-Is}
use hermes_ai_devops.Agent.Results
use hermes_ai_devops.Agent.Results.{Result, Files, absent, recorded, report}
use hermes_ai_devops.Agent.Results.Outcome.{Unsent, Posted, report_outcome}

abbrev digest : Text → List ℕ
digest t = 1 ∷ 35 ∷ 69 ∷ 103 ∷ 137 ∷ []

digest-IsDigest : IsDigest digest
digest-IsDigest = record { bytes = λ t. omega arith; four = λ t. omega arith }

makes_safe : safe_out_dir_name digest (codes "wf/1:case:a1") ≡ codes "wf_1_case_a1"
unfolding safe_out_dir_name
makes_safe = refl

long_id : Text
long_id =
    codes "0123456789012345678901234567890123456789012345678901234567890123456789/-:x012345678901"

shortens :
    safe_out_dir_name digest long_id
    ≡ codes "0123456789012345678901234567890123456789012345678901234567890123456789-01234567"
unfolding safe_out_dir_name long_id
shortens = refl

safe_out_dir_name-IsDirName_example : IsDirName (safe_out_dir_name digest (codes "../x"))
safe_out_dir_name-IsDirName_example =
    safe_out_dir_name-IsDirName digest (codes "../x") digest-IsDigest

abbrev dispatch : Dispatch
dispatch = record {
  task_id = "wf:case:a1";
  idempotency_key = "key";
  attempt = 1;
  package_url = "http://x";
  sha256 = "ab";
  device_serial = "S1";
  lease_id = "l";
  lease_generation = 2;
  upload_request_url = "";
  presigned_uploads = [];
  body = "";
}

abbrev calm : Server.Turn
calm = record {
  lookup_fails = false;
  get_fails = false;
  create_fails = false;
  second_lookup_fails = false;
  second_get_fails = false;
  last_get_fails = false;
  latest_event_fails = false;
  now = 7;
  sum = digest;
  join_root = λ n. "runs";
}

starts : (Once.act new_server (request calm (decoded dispatch))).launched ≡ "wf:case:a1" ∷ []
unfolding Once.act dispatch_task
starts = refl

dispatch_again_example :
    (let later : Server =
        Once.acts
          (Once.act new_server (request calm (decoded dispatch)))
          (ended "wf:case:a1" ∷ []) in
      (t : Task) × (lookup_by_idempotency_key later.journal "key" ≡ some t)
      × (t.task_id ≡ "wf:case:a1")
      × ((st : TaskStatus) × (dispatch_task calm later (decoded dispatch)
            ≡ (later, answered 202 st))
          × IsStatusOf t st))
dispatch_again_example =
    dispatch_again calm new_server dispatch (request calm (decoded dispatch))
      (ended "wf:case:a1" ∷ []) (whole calm) starts refl

-- Two requests that have both gone through the checks, and then a third.
acts-NoRepeats_example :
    NoRepeats
      (Once.acts new_server (
        insertion calm dispatch
        ∷ insertion calm dispatch
        ∷ request calm (decoded dispatch)
        ∷ [])).launched
acts-NoRepeats_example =
    acts-NoRepeats
      (insertion calm dispatch ∷ insertion calm dispatch ∷ request calm (decoded dispatch) ∷ [])

abbrev sample_task : Task
sample_task = record {
  task_id = "wf:case:a1";
  idempotency_key = "key";
  state = queued;
  attempt = 1;
  dispatch_json = "";
  out_dir = "runs";
  started_at = 7;
  ended_at = none;
  result_recorded = false;
  lease_id = "l";
  lease_generation = 2;
}

abbrev calls : List Call
calls =
    create sample_task 7
    ∷ move "wf:case:a1" queued accepted "" 8
    ∷ move "wf:case:a1" accepted completed "" 9
    ∷ move "wf:case:a1" completed running "" 10
    ∷ []

calls-IsHistory_example : IsHistory (apply_calls empty_journal calls)
calls-IsHistory_example = calls-IsHistory calls

keeps_end : map (λ t. t.state) (apply_calls empty_journal calls).tasks ≡ completed ∷ []
unfolding apply_calls apply_call
keeps_end = refl

abbrev accepting : Reply
accepting sent ev = none

abbrev turn : Reporter.Turn
turn = record {
  transition_fails = false;
  key_fails = false;
  pending_fails = false;
  mark_fails = false;
  now = 8;
  sent_at = 9;
}

abbrev faultless : Faults
faultless = record {
  load_fails = false;
  canceled = λ e. false;
  key_fails = λ e. false;
  mark_fails = λ e. false;
}

-- Runtime is away for the first event.
abbrev away_once : Reply
away_once [] ev = some no_answer
away_once (s ∷ sent) ev = none

abbrev todo : List Order.Act
todo =
    Order.create sample_task 7
    ∷ change turn "wf:case:a1" queued accepted ""
    ∷ change turn "wf:case:a1" accepted running ""
    ∷ reload
    ∷ proceed faultless
    ∷ proceed faultless
    ∷ []

sends_in_order :
    map (λ s. s.event.seq) (Order.acts away_once at_rest todo).reporter.sent ≡ 2 ∷ 1 ∷ 1 ∷ []
unfolding Order.acts Order.act Reporter.on_transition Reporter.drain_one create_task
    unreported_events lookup insert
sends_in_order = refl

acts-Ordered_example :
    (let r = (Order.acts away_once at_rest todo).reporter in
      Ordered r.sent
      × ((task_id : String) (seq : ℕ)
          → any (is_reported task_id seq) r.journal.events ≡ true
          → settled task_id seq r.sent ≡ true))
acts-Ordered_example =
    acts-Ordered away_once todo (refl, (refl, (refl, (refl, (refl, (refl, tt))))))

backlog : Journal
backlog = apply_calls empty_journal calls

abbrev with_backlog : Reporter
with_backlog = record { journal = backlog; sent = [] }

faultless-IsGood : IsGood faultless accepting
faultless-IsGood = record {
  loads = refl;
  goes_on = λ e. refl;
  reads = λ e. refl;
  marks = λ e. refl;
  settles = λ sent ev. refl;
}

backlog-IsHistory : IsHistory backlog
unfolding backlog
backlog-IsHistory = calls-IsHistory calls

waits_before : map (λ e. e.seq) (unreported_events backlog) ≡ 1 ∷ 2 ∷ []
unfolding backlog apply_calls apply_call unreported_events
waits_before = refl

drain-empties_example : unreported_events (drain faultless accepting with_backlog).journal ≡ []
drain-empties_example =
    drain-empties faultless accepting with_backlog faultless-IsGood backlog-IsHistory

abbrev new_journal : Journal
new_journal = record { tasks = sample_task ∷ []; events = [] }

abbrev new_reporter : Reporter
new_reporter = record { journal = new_journal; sent = [] }

abbrev around : Surroundings
around = record { reply = accepting; turn = λ n. turn; current_fails = λ n. false }

around-IsWritable : IsWritable around
around-IsWritable = record { writes = λ n. refl; reads = λ n. refl }

finds_task : find_task "wf:case:a1" new_journal.tasks ≡ some sample_task
unfolding find_task
finds_task = refl

execute_task-Is_example :
    (let ran = execute_task around (env_of sample_reply) sample_options "wf:case:a1" new_reporter in
      Is "wf:case:a1" ran.0.journal
        (of_status ran.1.summary.status)
        (map of_status (hist ran.1.agent) ++ accepted ∷ [])
      × (is_terminal (of_status ran.1.summary.status) ≡ true))
execute_task-Is_example =
    execute_task-Is around (env_of sample_reply) sample_options "wf:case:a1" new_reporter
      sample_task around-IsWritable finds_task refl refl

abbrev summary : Summary
summary = record {
  status = Status.completed;
  exit_code = pos 0;
  success_criteria_met = true;
  collected = [];
  environment = [];
  failure_scope = [];
  failure_stage = [];
}

abbrev files : Files
files = record {
  summary = λ dir. some summary;
  device = λ dir. absent;
  dispatched = λ d. none;
  conforms = λ r. true;
}

-- Runtime is away twice, and then takes the result.
abbrev third_time : ℕ → Result → Option PostError
third_time n r = if n == 3 then none else some (status_error 503)

abbrev report_turn : Results.Turn
report_turn = record {
  get_fails = false;
  mark_fails = false;
  reply = third_time;
  done = λ n. false;
  max_attempts = 0;
  initial_backoff = 0;
  max_backoff = 0;
}

abbrev over_journal : Journal
over_journal = record { tasks = record sample_task { state = completed } ∷ []; events = [] }

takes_third : (report report_turn files over_journal "wf:case:a1" []).posts ≡ 3
unfolding report
takes_third = refl

report_outcome_example :
    Unsent over_journal (report report_turn files over_journal "wf:case:a1" [])
    ⊎ Posted report_turn files over_journal "wf:case:a1" []
        (report report_turn files over_journal "wf:case:a1" [])
report_outcome_example = report_outcome report_turn files over_journal "wf:case:a1" []
