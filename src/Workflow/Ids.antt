-- ===== src/Workflow/Ids.antt =====
-- Workflow ids, task ids and the short description of a leased device
-- (runtime/internal/workflow/types.go, devicetest.go).
use Prim.Native.String.{◌++◌}
use hermes_ai_devops.Common.{
  ℕ, String, not, List, [], ◌∷◌, ltb, if◌then◌else◌, ◌==◌, string_eq, filter,
}
use hermes_ai_devops.Common.Text.{itoa}
use hermes_ai_devops.Store.State.{Lease}
use hermes_ai_devops.Workflow.Types.{DeviceTestInput}

unfoldable pub base_workflow_id : String → String → ℕ → String
unfolding itoa
base_workflow_id project commit pipeline_id =
    "device-test-" ++ project ++ "-g" ++ commit ++ "-p" ++ itoa pipeline_id

unfoldable pub workflow_id : DeviceTestInput → String
unfolding base_workflow_id itoa
workflow_id i =
    let id = base_workflow_id i.project i.commit i.pipeline_id in
    let scoped = if not (i.scope == "") then id ++ "-" ++ i.scope else id in
    if ltb 0 i.attempt then scoped ++ "-r" ++ itoa i.attempt else scoped

-- fmt.Sprintf("%s:%s:a%d", wfID, spec.TestID, attempt)
unfoldable pub task_id_of : String → String → ℕ → String
unfolding itoa
task_id_of wf_id test_id attempt = wf_id ++ ":" ++ test_id ++ ":a" ++ itoa attempt

-- strings.Join
abbrev join : String → List String → String
join sep [] = ""
join sep (x ∷ []) = x
join sep (x ∷ y ∷ xs) = x ++ sep ++ join sep (y ∷ xs)

unfoldable pub device_info : Lease → String
device_info l = elim (filter (λ v. not (v == "")) (l.soc ∷ l.abi ∷ l.os ∷ [])) [
  | [] ↦ l.device_name
  | v ∷ vs ↦ join "-" (v ∷ vs)
]

-- What the summary shows for the device.
unfoldable pub shown_device : Lease → String
unfolding device_info
shown_device l =
    if not (device_info l == l.device_name)
    then device_info l ++ " · " ++ l.device_name
    else device_info l
