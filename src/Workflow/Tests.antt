-- ===== src/Workflow/Tests.antt =====
-- A test with one retry on one board: runs of the workflow, and its theorems at concrete inputs.
use hermes_ai_devops.Common.{
  ℕ, ◌≡◌, ◌≢◌, ◌↔◌, ◌⊎◌, refl, String, true, false, none, some, List, [], ◌∷◌, All, arith,
}
use hermes_ai_devops.Common.Int.{pos}
use hermes_ai_devops.Store.State.{Lease, TaskResultSignal, ResultRecord, scope_device}
use hermes_ai_devops.Rules.{version_v1, device, infra, decide, route, decide_v1}
use hermes_ai_devops.Rules.Priority.{IsClean}
use hermes_ai_devops.Workflow.Types.{TestSpec, PackageRef, DeviceTestInput, TaskSummary}
use hermes_ai_devops.Workflow.Ids.{workflow_id, task_id_of, shown_device}
use hermes_ai_devops.Workflow.Scope.{
  site_terminal, site_hard_deadline, IsSilent, fail_scope, fail_scope-device_iff,
}
use hermes_ai_devops.Workflow.Await.{Turn, lease_until, no_lease, matched, gave_up, await_result}
use hermes_ai_devops.Workflow.Await.Ends.{Renewed}
use hermes_ai_devops.Workflow.Attempt.{
  Answers, Job, leased, none_free, loaded, no_row, got, acquire_loop, task, run_attempt,
  result_input,
}
use hermes_ai_devops.Workflow.Attempt.Release.{Accounts, run_attempt-releases}
use hermes_ai_devops.Workflow.Attempt.Ends.{run_attempt_ends}
use hermes_ai_devops.Workflow.Attempt.Verdicts.{run_attempt-passed}
use hermes_ai_devops.Workflow.Retry.{run_test, LastOf, run_test-last, IsEnough, run_test_ends}

abbrev package_a : PackageRef
package_a = record {
  variant = "a";
  package_file = "a.tgz";
  url = "http://a";
  sha256 = "00";
  size = 1;
  manifest_digest = "01";
  requirements = none;
  failure_signatures = [];
}

abbrev input : DeviceTestInput
input = record {
  project = "ocr";
  commit = "abc";
  pipeline_id = 7;
  version = "1.0.0";
  packages = package_a ∷ [];
  scope = "a";
  rule_version = "";
  attempt = 2;
  source_workflow_id = "";
  submitter = "";
}

abbrev spec : TestSpec
spec = record {
  test_id = "a";
  variant = "a";
  pkg = package_a;
  selector = record { os = ""; soc = []; capabilities = [] };
  signature_category = [];
  max_infra_retries = 1;
  lease_seconds = 1;
  hard_timeout_sec = 3;
  device_wait_rounds = 1;
  device_wait_seconds = 1;
}

abbrev job : Job
job = record { wf_id = "w"; input = input; spec = spec; rule_version = version_v1; attempt = 1 }

abbrev lease : Lease
lease = record {
  device_id = "d";
  serial = "s";
  device_name = "n";
  soc = "QCM6125";
  abi = "arm64-v8a";
  os = "android";
  client_id = "win1";
  client_base_url = "http://win1";
  lease_id = "x";
  generation = 1;
}

abbrev result : TaskResultSignal
result = record {
  task_id = "w:a:a1";
  status = "COMPLETED";
  exit_code = pos 0;
  duration_sec = 0;
  cases_total = pos 3;
  cases_failed = pos 0;
  signatures_hit = [];
  metrics = [];
  attachments = [];
  failure_scope = "";
  failure_stage = "";
}

abbrev foreign_signal : Turn
foreign_signal = record { now = 0; check = no_lease; signal = some "w:a:a0"; canceled = false }

abbrev renewed_turn : Turn
renewed_turn = record {
  now = 1500000000;
  check = lease_until 2500000000;
  signal = none;
  canceled = false;
}

abbrev own_signal : Turn
own_signal = record { now = 2000000000; check = no_lease; signal = some "w:a:a1"; canceled = false }

abbrev deadline_turn : Turn
deadline_turn = record { now = 3000000000; check = no_lease; signal = none; canceled = false }

abbrev turns : List Turn
turns = foreign_signal ∷ renewed_turn ∷ own_signal ∷ deadline_turn ∷ []

abbrev silent_turns : List Turn
silent_turns = renewed_turn ∷ record deadline_turn { check = lease_until 4000000000 } ∷ []

abbrev answers : Answers
answers = record {
  rounds =
      record { answer = none_free; woke = true }
      ∷ record { answer = leased lease; woke = true }
      ∷ [];
  explanation = none;
  create_error = none;
  dispatch_error = none;
  started = 0;
  turns = turns;
  result = loaded (record { task_id = "w:a:a1"; result = result });
  evidence = none;
  analysis = none;
  gate = none;
  confident = false;
}

abbrev lost : Answers
lost = record answers { result = no_row }

names_the_retry : workflow_id input ≡ "device-test-ocr-gabc-p7-a-r2"
unfolding workflow_id
names_the_retry = refl

abbrev summary : TaskSummary
summary = record {
  test_id = "a";
  variant = "a";
  task_id = "w:a:a1";
  attempt = 1;
  device_name = "QCM6125-arm64-v8a-android · n";
  verdict = "PASSED";
  category = "";
  reason = "all criteria met";
  duration_sec = 0;
  cases_total = pos 3;
  cases_failed = pos 0;
  attachments = [];
  metrics = [];
  analysis = none;
  retryable = false;
}

-- The second acquire round finds the board; a foreign signal and a renewed lease do not end the wait.
passes : (run_attempt job answers).summary ≡ some summary
unfolding run_attempt acquire_loop await_result decide route decide_v1 task_id_of shown_device
passes = refl

passes_first : (run_test job (λ k. answers)).summary ≡ some summary
unfolding run_test run_attempt acquire_loop await_result decide route decide_v1 task_id_of
    shown_device
passes_first = refl

fail_scope-device_iff_example :
    (fail_scope site_terminal infra "FAILED" "INFRA_ERROR" "device" ≡ scope_device) ↔ (
      (site_terminal ≡ site_terminal)
      × (◌≢◌ {A = String} "INFRA_ERROR" "PASSED")
      × ((◌≡◌ {A = String} "device" "device")
          ⊎ (IsSilent "device" × (◌≢◌ {A = String} "FAILED" "CANCELED") × (infra ≡ device))))
fail_scope-device_iff_example =
    fail_scope-device_iff site_terminal infra "FAILED" "INFRA_ERROR" "device"

is_matched : await_result "w:a:a1" 3000000000 1000000000 turns ≡ some matched
unfolding await_result
is_matched = refl

silent_turns-Renewed : All Renewed silent_turns
silent_turns-Renewed = ((2500000000, refl, omega arith), ((4000000000, refl, omega arith), tt))

times_out :
    await_result "w:a:a1" 3000000000 1000000000 silent_turns
    ≡ some (gave_up site_hard_deadline "hard deadline exceeded")
unfolding await_result
times_out = refl

run_attempt-releases_example :
    (((l : Lease) → acquire_loop spec none 0 lost.rounds ≢ got l)
      × ((run_attempt job lost).calls ≡ []))
    ⊎ ((l : Lease) × (acquire_loop spec none 0 lost.rounds ≡ got l)
        × Accounts l.device_id (task job lost) (run_attempt job lost))
run_attempt-releases_example = run_attempt-releases job lost

run_attempt_ends_example : (s : TaskSummary) × ((run_attempt job lost).summary ≡ some s)
run_attempt_ends_example = run_attempt_ends job lost (omega arith) refl

run_attempt-passed_example :
    (rec : ResultRecord) × (answers.result ≡ loaded rec)
    × IsClean (result_input spec rec.result rec.result.signatures_hit)
run_attempt-passed_example = run_attempt-passed job answers summary passes refl

run_test-last_example : LastOf job (λ k. answers) 1 1 summary
run_test-last_example = run_test-last job (λ k. answers) summary passes_first

answers-IsEnough : (k : ℕ) → IsEnough job answers
answers-IsEnough k = record { waited = omega arith; late = refl }

run_test_ends_example : (s : TaskSummary) × ((run_test job (λ k. answers)).summary ≡ some s)
run_test_ends_example = run_test_ends job (λ k. answers) answers-IsEnough
