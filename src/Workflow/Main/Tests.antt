-- ===== src/Workflow/Main/Tests.antt =====
-- A trigger of two packages, of which one is skipped, and the theorems on the trunk applied to it.
use hermes_ai_devops.Common.{
  ◌≡◌, refl, String, true, false, Option, none, some, List, [], ◌∷◌, ◌==◌, string_eq, any,
}
use hermes_ai_devops.Common.Int.{pos}
use hermes_ai_devops.Common.Text.{equal_fold}
use hermes_ai_devops.Common.Dict.{lookup}
use hermes_ai_devops.Common.Text.Ascii.{has_char}
use hermes_ai_devops.Store.State.{new_mem_store, VariantRequirements}
use hermes_ai_devops.Workflow.Types.{PackageRef, DeviceTestInput, TestSpec, TaskSummary}
use hermes_ai_devops.Workflow.Ids.{task_id_of}
use hermes_ai_devops.Workflow.Attempt.{Answers, none_free, no_row}
use hermes_ai_devops.Activity.Specs.{
  Acts, SpecConfig, select_test_specs, spec_of, requirements_of, soc_in_name, validate_variants,
}
use hermes_ai_devops.Activity.Specs.Selection.{all_specs, brings_own, select_test_specs_panics}
use hermes_ai_devops.Workflow.Main.{Surroundings, skipped_summary, demux}
use hermes_ai_devops.Workflow.Main.Routing.{place_of, demux_routes}

abbrev needs : VariantRequirements
needs = record {
  os = "linux";
  abi = "arm64-v8a";
  soc = "QCS6125" ∷ [];
  capabilities = [];
  min_free_storage_mb = 0;
}

abbrev package_of : String → Option VariantRequirements → PackageRef
package_of variant requirements = record {
  variant = variant;
  package_file = "p.tgz";
  url = "http://p";
  sha256 = "00";
  size = 1;
  manifest_digest = "01";
  requirements = requirements;
  failure_signatures = [];
}

abbrev input : DeviceTestInput
input = record {
  project = "ocr";
  commit = "abc";
  pipeline_id = 7;
  version = "1.0.0";
  packages =
      package_of "b" (some needs) ∷ package_of "Linux_QCS6125" none ∷ package_of "x" none ∷ [];
  scope = "b";
  rule_version = "";
  attempt = 0;
  source_workflow_id = "";
  submitter = "";
}

abbrev config : SpecConfig
config = record {
  timeout_sec = 600;
  signatures_common_android = [];
  signatures_common_linux = [];
  variants =
      ("Linux_QCS6125", record { requirements = needs; timeout_sec = 0; signatures = [] }) ∷ [];
  defaults = record {
    max_infra_retries = 2;
    lease_seconds = 120;
    hard_timeout_margin = 300;
    device_wait_rounds = 0;
    device_wait_seconds = 10;
  };
}

abbrev acts : Acts
acts = record {
  config = some config;
  store = some new_mem_store;
  check_fails = λ variant. variant == "b";
  skip_reason = λ spec. "no device";
}

abbrev bare_acts : Acts
bare_acts = record acts { config = none }

abbrev answers : Answers
answers = record {
  rounds = record { answer = none_free; woke = true } ∷ [];
  explanation = none;
  create_error = none;
  dispatch_error = none;
  started = 0;
  turns = [];
  result = no_row;
  evidence = none;
  analysis = none;
  gate = none;
  confident = false;
}

abbrev surroundings : Surroundings
surroundings = record {
  actual_id = "device-test-ocr-gabc-p7-b";
  record_fails = false;
  selection = select_test_specs acts input.packages;
  answers = λ spec attempt. answers;
  canceled = λ spec. false;
}

abbrev summary : TaskSummary
summary = record {
  test_id = "b";
  variant = "b";
  task_id = "device-test-ocr-gabc-p7-b:b:a1";
  attempt = 1;
  device_name = "";
  verdict = "INFRA_ERROR";
  category = "INFRA";
  reason = "infra: no device available";
  duration_sec = 0;
  cases_total = pos 0;
  cases_failed = pos 0;
  attachments = [];
  metrics = [];
  analysis = none;
  retryable = false;
}

abbrev tasks : List TaskSummary
tasks = skipped_summary (record { variant = "Linux_QCS6125"; reason = "no device" }) ∷ summary ∷ []

select_test_specs_panics_example :
    (any brings_own input.packages ≡ true → select_test_specs bare_acts input.packages ≡ none)
    × (any brings_own input.packages ≡ false
        → select_test_specs bare_acts input.packages ≡ some (record { specs = []; skipped = [] }))
select_test_specs_panics_example = select_test_specs_panics bare_acts input.packages refl

is_validated : validate_variants config.variants ≡ true
unfolding validate_variants equal_fold
is_validated = refl

names_soc : soc_in_name "Linux_QCS6125" ≡ some "QCS6125"
unfolding soc_in_name
names_soc = refl

is_required : requirements_of acts (package_of "Linux_QCS6125" none) ≡ some needs
unfolding requirements_of lookup
is_required = refl

abbrev specs : List TestSpec
specs = all_specs acts config input.packages

has_no_colon : any (λ s. has_char b':' s.test_id) specs ≡ false
unfolding all_specs has_char requirements_of lookup spec_of
has_no_colon = refl

is_plain : has_char b':' "b" ≡ false
unfolding has_char
is_plain = refl

demux_routes_example : demux "w" specs (task_id_of "w" "b" 2) ≡ place_of "b" specs
demux_routes_example = demux_routes "w" "b" 2 specs is_plain has_no_colon
