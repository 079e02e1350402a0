-- ===== src/Rules/Tests.antt =====
-- Runs of the rule engine, and its theorems at concrete inputs.
use hermes_ai_devops.Common.{◌≡◌, refl, ◌↔◌, true, [], ◌∷◌}
use hermes_ai_devops.Common.Int.{pos}
use hermes_ai_devops.Rules.{Input, passed, delegate, decide_v1}
use hermes_ai_devops.Rules.Priority.{IsClean, decide_v1-passed_iff}
use hermes_ai_devops.Common.Dict.{lookup}

abbrev clean_run : Input
clean_run = record {
  status = "COMPLETED";
  infra_reason = "";
  exit_code = pos 0;
  cases_failed = pos 0;
  signatures_hit = [];
  signature_category = ("snpe_init", delegate) ∷ [];
}

abbrev timed_out : Input
timed_out = record clean_run { status = "TIMEOUT" }

clean_run_passes : (decide_v1 clean_run).verdict ≡ passed
unfolding decide_v1
clean_run_passes = refl

timed_out_retries : (decide_v1 timed_out).retry ≡ true
unfolding decide_v1
timed_out_retries = refl

-- A signature is more specific than the timeout.
signature_beats_timeout :
    (decide_v1 (record timed_out { signatures_hit = "snpe_init" ∷ [] })).category ≡ delegate
unfolding decide_v1 lookup
signature_beats_timeout = refl

decide_v1-passed_iff_example : ((decide_v1 clean_run).verdict ≡ passed) ↔ IsClean clean_run
decide_v1-passed_iff_example = decide_v1-passed_iff clean_run
