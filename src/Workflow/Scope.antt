-- ===== src/Workflow/Scope.antt =====
-- On whom a release is charged (runtime/internal/workflow/devicetest.go, failScope).
use hermes_ai_devops.Common.{
  ◌≡◌, ◌≢◌, ◌⊎◌, ◌↔◌, String, arith, if◌then◌else◌, ◌==◌, string_eq, eq_iff,
}
use hermes_ai_devops.Store.State.{FailScope, scope_ok, scope_device, scope_client, scope_none}
use hermes_ai_devops.Rules.{Category, infra, device}

pub data ReleaseSite : Type 0 where
  site_create_task_failed site_dispatch_failed site_lease_expired site_check_lease_failed :
      ReleaseSite
  site_hard_deadline site_canceled site_load_result_failed site_terminal : ReleaseSite

-- The last switch: by the category of the decision.
abbrev scope_by_category : Category → String → FailScope
scope_by_category category result_status =
    if result_status == "CANCELED" then scope_none else elim category [
      | device ↦ scope_device
      | infra ↦ if result_status == "FAILED" then scope_client else scope_none
      | _ ↦ scope_ok
    ]

-- Site terminal: a passed task charges nobody, then what the agent reports, then the category.
abbrev scope_terminal : Category → String → String → String → FailScope
scope_terminal category result_status verdict reported_scope =
    if verdict == "PASSED"
    then scope_ok
    else if reported_scope == "device"
    then scope_device
    else if reported_scope == "client"
    then scope_client
    else if reported_scope == "none"
    then scope_none
    else scope_by_category category result_status

unfoldable pub fail_scope : ReleaseSite → Category → String → String → String → FailScope
fail_scope site_dispatch_failed category result_status verdict reported_scope = scope_client
fail_scope site_lease_expired category result_status verdict reported_scope = scope_client
fail_scope site_terminal category result_status verdict reported_scope =
    scope_terminal category result_status verdict reported_scope
fail_scope _ category result_status verdict reported_scope = scope_none

-- The agent reports no scope that is known.
pub record IsSilent (reported_scope : String) : Type 0 where
  pub no_device : reported_scope ≢ "device"
  pub no_client : reported_scope ≢ "client"
  pub no_none : reported_scope ≢ "none"

-- A release counts against the device exactly if its task has reached a terminal state without
-- having passed, and the agent blames the device, or blames nobody that is known while the task was
-- not canceled and its category is DEVICE.
pub fail_scope-device_iff :
    (site : ReleaseSite) (category : Category) (result_status verdict reported_scope : String)
    → (fail_scope site category result_status verdict reported_scope ≡ scope_device) ↔ (
        (site ≡ site_terminal)
        × (verdict ≢ "PASSED")
        × ((reported_scope ≡ "device")
            ⊎ (IsSilent reported_scope × (result_status ≢ "CANCELED") × (category ≡ device))))
unfolding fail_scope
fail_scope-device_iff site category result_status verdict reported_scope = ground (
  arith,
  eq_iff verdict "PASSED",
  eq_iff reported_scope "device",
  eq_iff reported_scope "client",
  eq_iff reported_scope "none",
  eq_iff result_status "CANCELED",
  eq_iff result_status "FAILED",
)
