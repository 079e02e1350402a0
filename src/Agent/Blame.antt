-- ===== src/Agent/Blame.antt =====
-- On whom a failure is blamed (agent/internal/executor/executor.go, classifyFailure, livenessScope).
-- `adb.String` of a target is only logged.
pub mod Evidence
use hermes_ai_devops.Common.{
  ℕ, ◌≡◌, Bool, true, false, not, ◌&&◌, ◌||◌, Option, none, some, List, [], ◌∷◌, if◌then◌else◌,
  ◌==◌,
}
use hermes_ai_devops.Common.Int.{ℤ, pos, is_zero, int_eq}
use hermes_ai_devops.Common.Text.{codes}
use hermes_ai_devops.Agent.Text.{Text, text_eq, trim_space}
use hermes_ai_devops.Agent.Adb.{
  Target, ListedDevice, parse_device_list, is_online, get_state, devices,
}
use hermes_ai_devops.Agent.Run.{
  Sentinel, context_canceled, deadline_exceeded, launch_error, adb_server, no_space, soc_mismatch,
  abi_mismatch, no_match, remote_exit, plain, Failure, Ran, Env, Act, pure, invoke, ◌>>=◌, ◌>>◌,
}

abbrev same_sentinel : Sentinel → Sentinel → Bool
same_sentinel context_canceled context_canceled = true
same_sentinel deadline_exceeded deadline_exceeded = true
same_sentinel launch_error launch_error = true
same_sentinel adb_server adb_server = true
same_sentinel no_space no_space = true
same_sentinel soc_mismatch soc_mismatch = true
same_sentinel abi_mismatch abi_mismatch = true
same_sentinel no_match no_match = true
same_sentinel remote_exit remote_exit = true
same_sentinel plain plain = true
same_sentinel _ _ = false

-- errors.Is
abbrev pub is_error : Failure → Sentinel → Bool
is_error [] s = false
is_error (x ∷ xs) s = same_sentinel x s || is_error xs s

-- The call went through with exit code 0.
abbrev pub went_well : Ran → Bool
went_well r = elim r.error [ some e ↦ false | none ↦ is_zero r.exit_code ]

-- The entry of the list that is the target, in state "device".
abbrev pub lists_target : Target → ListedDevice → Bool
lists_target t d =
    (int_eq d.transport_id t.transport_id && is_online d)
    || (not (d.serial == codes "?") && d.serial == t.serial && is_online d)

unfoldable pub any_target : Target → List ListedDevice → Bool
any_target t [] = false
any_target t (d ∷ ds) = lists_target t d || any_target t ds

abbrev pub scope_of_list : Target → Ran → Text
scope_of_list t r =
    if not (went_well r)
    then codes "none"
    else if not (any_target t (parse_device_list r.stdout))
    then codes "device"
    else codes "none"

abbrev pub is_alive : Ran → Bool
is_alive r = went_well r && trim_space r.stdout == codes "device"

unfoldable pub liveness_scope : {E : Type 0} → Env → Target → Act E Text
unfolding invoke any_target
liveness_scope env t = invoke env (get_state t) >>= λ state.
    if is_alive state
    then pure (codes "none")
    else (invoke env devices >>= λ list. pure (scope_of_list t list))

-- The cases that need no look at the device.
unfoldable pub known_scope : Text → Failure → Option Text
known_scope stage e =
    if is_error e context_canceled || is_error e deadline_exceeded
    then some (codes "none")
    else if is_error e launch_error || is_error e adb_server
    then some (codes "client")
    else if is_error e no_space
    then some (codes "device")
    else if is_error e soc_mismatch || is_error e abi_mismatch
    then some (codes "none")
    else if is_error e no_match
    then some (codes "none")
    else if stage == codes "download"
    then some (codes "client")
    else if stage == codes "unpack"
    then some (codes "none")
    else if stage == codes "resolve"
    then some (codes "none")
    else none

unfoldable pub classify_failure : {E : Type 0} → Env → Target → Text → Failure → Act E Text
unfolding known_scope liveness_scope
classify_failure env t stage e = elim (known_scope stage e) [
  | some scope ↦ pure scope
  | none ↦ liveness_scope env t
]
