-- ===== src/Agent/Locate.antt =====
-- From a logical serial to an addressable target (agent/internal/executor/executor.go,
-- resolveTransport).
use hermes_ai_devops.Common.{
  Bool, true, false, not, ◌&&◌, Option, none, some, List, [], ◌∷◌, if◌then◌else◌, ◌==◌,
}
use hermes_ai_devops.Common.Int.{is_zero}
use hermes_ai_devops.Common.Text.{codes}
use hermes_ai_devops.Agent.Text.{Text, text_eq, trim_space, before_cut}
use hermes_ai_devops.Agent.Adb.{
  Target, target_for, ListedDevice, parse_device_list, is_online, devices, get_prop,
  device_tree_serial_number, machine_id,
}
use hermes_ai_devops.Agent.Run.{
  adb_server, no_match, Failure, Ran, Env, Act, pure, raise, invoke, ◌>>=◌,
}
use hermes_ai_devops.Agent.Blame.{went_well}

-- The fast path: an online entry of that very serial.
unfoldable pub listed : Text → List ListedDevice → Option Target
listed logical [] = none
listed logical (d ∷ ds) =
    if is_online d && d.serial == logical
    then some (target_for d.serial d.transport_id)
    else listed logical ds

-- getprop's exit code is not looked at.
abbrev pub answers_prop : Text → Ran → Bool
answers_prop logical r = elim r.error [ some e ↦ false | none ↦ trim_space r.stdout == logical ]

abbrev pub answers_tree : Text → Ran → Bool
answers_tree logical r = went_well r && trim_space (before_cut 0 r.stdout) == logical

abbrev pub answers_machine : Text → Ran → Bool
answers_machine logical r = went_well r && trim_space r.stdout == logical

-- Does the device at the target bear the serial?
unfoldable pub bears : Env → Text → Target → Act Failure Bool
unfolding invoke
bears env logical t = invoke env (get_prop t (codes "ro.serialno")) >>= λ r.
    if answers_prop logical r
    then pure true
    else (invoke env (device_tree_serial_number t) >>= λ q.
        if answers_tree logical q
        then pure true
        else (invoke env (machine_id t) >>= λ p. pure (answers_machine logical p)))

-- The slow path: every online entry is asked.
unfoldable pub probe_all : Env → Text → List ListedDevice → Act Failure Target
unfolding bears
probe_all env logical [] = raise (no_match ∷ [])
probe_all env logical (d ∷ ds) =
    let rest = probe_all env logical ds in
    let t = target_for d.serial d.transport_id in
    if not (is_online d) then rest else (bears env logical t >>= λ b. if b then pure t else rest)

-- An error of the call keeps what it wraps.
abbrev pub server_error : Ran → Option Failure
server_error r = elim r.error [
  | some e ↦ some (adb_server ∷ e)
  | none ↦ if is_zero r.exit_code then none else some (adb_server ∷ [])
]

unfoldable pub resolve_transport : Env → Text → Act Failure Target
unfolding invoke listed probe_all
resolve_transport env logical = invoke env devices >>= λ r. elim (server_error r) [
  | some e ↦ raise e
  | none ↦ elim (listed logical (parse_device_list r.stdout)) [
    | some t ↦ pure t
    | none ↦ probe_all env logical (parse_device_list r.stdout)
  ]
]
