-- ===== src/Workflow/Attempt/Named.antt =====
-- The summary of an attempt names the test of its spec.
use hermes_ai_devops.Common.{◌≡◌, some, arith}
use hermes_ai_devops.Workflow.Types.{TaskSummary}
use hermes_ai_devops.Workflow.Attempt.{
  Answers, Job, conclude, judge, after_signal, after_dispatch, after_create, after_acquire,
  run_attempt,
}

pub run_attempt-test_id :
    (j : Job) (env : Answers) (s : TaskSummary)
    → (run_attempt j env).summary ≡ some s
    → s.test_id ≡ j.spec.test_id
unfolding run_attempt after_acquire after_create after_dispatch after_signal judge conclude
run_attempt-test_id j env s h = ground (arith, h)
