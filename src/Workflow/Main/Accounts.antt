-- ===== src/Workflow/Main/Accounts.antt =====
-- Every package of a trigger is accounted for in the output (runtime/internal/workflow/devicetest.go,
-- DeviceTestWorkflow, runParallelSpecs).
use hermes_ai_devops.Common.{
  ◌≡◌, String, true, Option, none, some, List, ◌∷◌, ◌++◌, map, ◌==◌, string_eq,
}
use hermes_ai_devops.Rules.{validate_version}
use hermes_ai_devops.Workflow.Types.{DeviceTestInput, TaskSummary}
use hermes_ai_devops.Workflow.Ids.{workflow_id}
use hermes_ai_devops.Activity.Specs.{SpecSelection}
use hermes_ai_devops.Workflow.Main.{
  Surroundings, record_workflow_run, select_specs, new_record_workflow_run_request, closing_calls,
  rule_version_of, device_test_workflow,
}

-- The texts that name the tests of a selection.
abbrev selected_ids : SpecSelection → List String
selected_ids sel = map (λ k. k.variant) sel.skipped ++ map (λ s. s.test_id) sel.specs

-- What a run that finished has called, and on what it rests.
pub record Accounted (e : Surroundings) (i : DeviceTestInput) (tasks : List TaskSummary)
    : Type 0 where
  pub known_version : validate_version (rule_version_of i) ≡ true
  pub own_id : (e.actual_id == workflow_id i) ≡ true
  pub called :
      (device_test_workflow e i).calls
      ≡ record_workflow_run (new_record_workflow_run_request e.actual_id i (rule_version_of i))
        ∷ select_specs i
        ∷ closing_calls e i tasks

abbrev get_or_sel : SpecSelection → Option SpecSelection → SpecSelection
get_or_sel d none = d
get_or_sel d (some x) = x
