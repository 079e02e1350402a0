-- ===== src/Store/Artifacts/Tests.antt =====
-- A registered artifact and its retries.
use hermes_ai_devops.Common.{◌≡◌, refl, none, some, [], ◌∷◌}
use hermes_ai_devops.Common.Dict.{lookup}
use hermes_ai_devops.Common.Text.{itoa}
use hermes_ai_devops.Store.State.{MemStore, new_mem_store, Artifact}
use hermes_ai_devops.Store.Artifacts.{current_workflow_attempt, artifact_key}

abbrev build : Artifact
build = record {
  project = "ocr";
  commit_sha = "abc";
  pipeline_id = 7;
  variant = "a";
  build_type = "release";
  version = "1.0.0";
  url = "http://a";
  sha256 = "00";
  size = 1;
  manifest_digest = "01";
  workflow_attempt = 1;
  variant_requirements = none;
  variant_signatures = [];
}

abbrev registered : MemStore
registered = record new_mem_store { rows = ("ocr|abc|7|a", build) ∷ [] }

registered_current : current_workflow_attempt registered "ocr" "abc" 7 "a" ≡ some 1
unfolding current_workflow_attempt artifact_key lookup itoa
registered_current = refl
