-- ===== src/Workflow/Main.antt =====
-- The trunk of the workflow (runtime/internal/workflow/devicetest.go, DeviceTestWorkflow,
-- newRecordWorkflowRunRequest, runParallelSpecs, demuxSignalLoop). The answers of the activities are
-- arguments; what a card shows is left out, so a notification is what it is made of.
pub mod Accounts
pub mod Canonical
pub mod Routing
mod Tests
use Prim.Native.Char.{code}
use Prim.Native.String.{◌++◌ as str_append}
use hermes_ai_devops.Common.Text.Order.{text_le}
use hermes_ai_devops.Common.{
  ℕ, ◌+◌, String, Bool, true, false, not, ◌&&◌, ◌||◌, Option, none, some, List, [], ◌∷◌, ◌++◌, map,
  filter, ltb, if◌then◌else◌, ◌==◌, string_eq, nat_eq,
}
use hermes_ai_devops.Common.Int.{pos}
use hermes_ai_devops.Rules.{default_version, validate_version}
use hermes_ai_devops.Activity.Specs.{SkippedSpec, SpecSelection}
use hermes_ai_devops.Workflow.Types.{PackageRef, DeviceTestInput, TestSpec, TaskSummary}
use hermes_ai_devops.Workflow.Ids.{workflow_id}
use hermes_ai_devops.Workflow.Attempt.{Answers, Job}
use hermes_ai_devops.Workflow.Retry.{run_test}

pub record RecordWorkflowRunRequest : Type 0 where
  pub workflow_id : String
  pub project : String
  pub commit_sha : String
  pub pipeline_id : ℕ
  pub version : String
  pub rule_version : String
  pub scope : String
  pub attempt : ℕ
  pub variants : List String
  pub source_workflow_id : String

unfoldable pub insert_text : String → List String → List String
insert_text x [] = x ∷ []
insert_text x (y ∷ ys) = let rest = insert_text x ys in if text_le x y then x ∷ y ∷ ys else y ∷ rest

unfoldable pub sort_texts : List String → List String
unfolding insert_text
sort_texts [] = []
sort_texts (x ∷ xs) = insert_text x (sort_texts xs)

-- A text that is the same as the one behind it is left out.
unfoldable pub drop_repeats : List String → List String
drop_repeats [] = []
drop_repeats (x ∷ xs) =
    let rest = drop_repeats xs in
    elim xs [ [] ↦ x ∷ [] | y ∷ ys ↦ if x == y then rest else x ∷ rest ]

unfoldable pub canonical_variants : List PackageRef → List String
unfolding sort_texts drop_repeats
canonical_variants packages =
    drop_repeats (sort_texts (filter (λ v. not (v == "")) (map (λ p. p.variant) packages)))

unfoldable pub new_record_workflow_run_request :
    String → DeviceTestInput → String → RecordWorkflowRunRequest
unfolding canonical_variants
new_record_workflow_run_request id i rule_version = record {
  workflow_id = id;
  project = i.project;
  commit_sha = i.commit;
  pipeline_id = i.pipeline_id;
  version = i.version;
  rule_version = rule_version;
  scope = i.scope;
  attempt = i.attempt;
  variants = canonical_variants i.packages;
  source_workflow_id = i.source_workflow_id;
}

unfoldable pub has_prefix : String → String → Bool
has_prefix String.[] s = true
has_prefix (String.◌∷◌ p ps) String.[] = false
has_prefix (String.◌∷◌ p ps) (String.◌∷◌ c s) =
    let rest = has_prefix ps s in code p == code c && rest

-- prefixes[i] of a test
abbrev pub prefix_of : String → String → String
prefix_of wf_id test_id = str_append wf_id (str_append ":" (str_append test_id ":"))

-- The place of the spec whose channel a signal is sent to; a signal that no spec takes is dropped.
unfoldable pub demux : String → List TestSpec → String → Option ℕ
unfolding has_prefix
demux wf_id [] task_id = none
demux wf_id (spec ∷ specs) task_id =
    let rest = demux wf_id specs task_id in
    if has_prefix (prefix_of wf_id spec.test_id) task_id
    then some 0
    else elim rest [ none ↦ none | some i ↦ some (i + 1) ]

abbrev empty_summary : TaskSummary
empty_summary = record {
  test_id = "";
  variant = "";
  task_id = "";
  attempt = 0;
  device_name = "";
  verdict = "";
  category = "";
  reason = "";
  duration_sec = 0;
  cases_total = pos 0;
  cases_failed = pos 0;
  attachments = [];
  metrics = [];
  analysis = none;
  retryable = false;
}

unfoldable pub skipped_summary : SkippedSpec → TaskSummary
skipped_summary sk = record empty_summary {
  test_id = sk.variant;
  variant = sk.variant;
  verdict = "SKIPPED";
  reason = sk.reason;
}

unfoldable pub canceled_summary : TestSpec → TaskSummary
canceled_summary spec = record empty_summary {
  test_id = spec.test_id;
  variant = spec.variant;
  verdict = "INCONCLUSIVE";
  reason = "workflow canceled";
}

-- What the environment of a run answers. `canceled` tells for which specs the wait for the summary
-- ends in an error.
pub record Surroundings : Type 0 where
  pub actual_id : String
  pub record_fails : Bool
  pub selection : Option SpecSelection
  pub answers : TestSpec → ℕ → Answers
  pub canceled : TestSpec → Bool

-- The goroutine of one spec.
abbrev pub spec_job : Surroundings → DeviceTestInput → String → TestSpec → Job
spec_job e i rule_version spec = record {
  wf_id = e.actual_id;
  input = i;
  spec = spec;
  rule_version = rule_version;
  attempt = 1;
}

-- `none` where an attempt of the spec has not ended.
unfoldable pub spec_summary :
    Surroundings → DeviceTestInput → String → TestSpec → Option TaskSummary
spec_summary e i rule_version spec =
    if e.canceled spec
    then some (canceled_summary spec)
    else (run_test (spec_job e i rule_version spec) (e.answers spec)).summary

-- The summaries in the order of the specs, once there are all of them.
unfoldable pub spec_summaries :
    Surroundings → DeviceTestInput → String → List TestSpec → Option (List TaskSummary)
unfolding spec_summary
spec_summaries e i rule_version [] = some []
spec_summaries e i rule_version (spec ∷ specs) =
    let rest = spec_summaries e i rule_version specs in
    elim (spec_summary e i rule_version spec) [
      | none ↦ none
      | some sum ↦ elim rest [ none ↦ none | some sums ↦ some (sum ∷ sums) ]
    ]

unfoldable pub run_parallel_specs :
    Surroundings → SpecSelection → DeviceTestInput → String → Option (List TaskSummary)
unfolding skipped_summary spec_summaries
run_parallel_specs e sel i rule_version = elim (spec_summaries e i rule_version sel.specs) [
  | none ↦ none
  | some sums ↦ some (map skipped_summary sel.skipped ++ sums)
]

pub data TrunkCall : Type 0 where
  record_workflow_run : RecordWorkflowRunRequest → TrunkCall
  select_specs : DeviceTestInput → TrunkCall
  notify_card : DeviceTestInput → List TaskSummary → String → TrunkCall
  sync_workflow_runs : String → String → List TaskSummary → TrunkCall

-- An error, a run that has not ended, or the summaries.
pub data Conclusion : Type 0 where
  rejected unfinished : Conclusion
  finished : List TaskSummary → Conclusion

-- How the run ended, and the activities that were called.
pub record Trunk : Type 0 where
  pub conclusion : Conclusion
  pub calls : List TrunkCall

abbrev pub rule_version_of : DeviceTestInput → String
rule_version_of i = if i.rule_version == "" then default_version else i.rule_version

-- Only a run of one variant notifies; the failures of both activities are only logged.
abbrev pub closing_calls : Surroundings → DeviceTestInput → List TaskSummary → List TrunkCall
closing_calls e i tasks =
    (if not (i.scope == "") then notify_card i tasks e.actual_id ∷ [] else [])
    ++ sync_workflow_runs e.actual_id i.project tasks ∷ []

unfoldable pub device_test_workflow : Surroundings → DeviceTestInput → Trunk
unfolding validate_version workflow_id new_record_workflow_run_request run_parallel_specs
device_test_workflow e i =
    let version = rule_version_of i in
    let recorded = record_workflow_run (new_record_workflow_run_request e.actual_id i version) in
    if not (validate_version version) || not (e.actual_id == workflow_id i)
    then record { conclusion = rejected; calls = [] }
    else if e.record_fails
    then record { conclusion = rejected; calls = recorded ∷ [] }
    else elim e.selection [
      | none ↦ record { conclusion = rejected; calls = recorded ∷ select_specs i ∷ [] }
      | some sel ↦ elim (run_parallel_specs e sel i version) [
        | none ↦ record { conclusion = unfinished; calls = recorded ∷ select_specs i ∷ [] }
        | some tasks ↦ record {
          conclusion = finished tasks;
          calls = recorded ∷ select_specs i ∷ closing_calls e i tasks;
        }
      ]
    ]
