-- ===== src/Workflow/Await.antt =====
-- The wait for a result (runtime/internal/workflow/devicetest.go, awaitResult). A `Turn` is one pass
-- of the loop: the time at its head, what CheckLease would answer, and what the selector would see.
-- Where the turns end the workflow still waits.
pub mod Ends
use Prim.Native.String.{◌++◌ as str_append}
use hermes_ai_devops.Common.{
  ℕ, ◌≡◌, ◌≤◌, ◌<◌, refl, String, Bool, true, false, Option, none, some, List, [], ◌∷◌, leb, ltb,
  if◌then◌else◌, ◌==◌, string_eq, min,
}
use hermes_ai_devops.Workflow.Scope.{
  ReleaseSite, site_lease_expired, site_check_lease_failed, site_hard_deadline, site_canceled,
}

pub data LeaseCheck : Type 0 where
  check_error : String → LeaseCheck
  no_lease : LeaseCheck
  lease_until : ℕ → LeaseCheck

-- `signal` is the task id of the signal that woke the loop, if it was not the timer.
pub record Turn : Type 0 where
  pub now : ℕ
  pub check : LeaseCheck
  pub signal : Option String
  pub canceled : Bool

pub data Awaited : Type 0 where
  matched : Awaited
  gave_up : ReleaseSite → String → Awaited

abbrev pub is_signal : String → Turn → Bool
is_signal task_id t = elim t.signal [ none ↦ false | some id ↦ id == task_id ]

unfoldable pub await_result : String → ℕ → ℕ → List Turn → Option Awaited
await_result task_id hard_deadline lease_expiry [] = none
await_result task_id hard_deadline lease_expiry (t ∷ ts) =
    let wait_on = await_result task_id hard_deadline lease_expiry ts in
    if leb hard_deadline t.now
    then some (gave_up site_hard_deadline "hard deadline exceeded")
    else if leb lease_expiry t.now
    then elim t.check [
      | check_error e ↦ some (gave_up site_check_lease_failed (str_append "check lease: " e))
      | no_lease ↦ some (gave_up site_lease_expired "lease expired (no heartbeat)")
      | lease_until expiry ↦
          let renewed = await_result task_id hard_deadline expiry ts in
          if ltb t.now expiry
          then renewed
          else some (gave_up site_lease_expired "lease expired (no heartbeat)")
    ]
    else if is_signal task_id t
    then some matched
    else if t.canceled
    then some (gave_up site_canceled "workflow canceled")
    else wait_on
