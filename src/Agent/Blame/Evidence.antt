-- ===== src/Agent/Blame/Evidence.antt =====
-- When a device is blamed.
use hermes_ai_devops.Common.{
  ◌≡◌, ◌≢◌, ◌⊎◌, inl, inr, true, false, none, some, ◌∷◌, arith, Bool-cases, Option-cases, ◌==◌,
}
use hermes_ai_devops.Common.Text.{codes}
use hermes_ai_devops.Agent.Text.{Text, text_eq}
use hermes_ai_devops.Agent.Adb.{Target, get_state, devices, parse_device_list}
use hermes_ai_devops.Agent.Run.{
  no_space, Failure, called, Ran, Env, Agent, ok, invoke, deadline_exceeded, context_canceled,
  launch_error, adb_server, soc_mismatch, abi_mismatch, no_match,
}
use hermes_ai_devops.Agent.Blame.{
  is_error, went_well, is_alive, any_target, liveness_scope, known_scope, classify_failure,
}

-- What adb answers when it is asked after the device, and then for the list of devices.
abbrev pub asked_state : Env → Target → Agent → Ran
asked_state env t a = env.reply a.events (get_state t)

abbrev pub asked_list : Env → Target → Agent → Ran
asked_list env t a = env.reply (called (get_state t) ∷ a.events) devices

-- The device does not answer, while the list of devices can be read and does not have it online.
pub record IsGone (env : Env) (t : Target) (a : Agent) : Type 0 where
  pub silent : is_alive (asked_state env t a) ≡ false
  pub server_works : went_well (asked_list env t a) ≡ true
  pub unlisted : any_target t (parse_device_list (asked_list env t a).stdout) ≡ false

alive_or_gone : ◌≢◌ {A = Text} (codes "none") (codes "device")
alive_or_gone h = absurd (ground (arith, h))

liveness_scope_device :
    (env : Env) (t : Target) (a : Agent)
    → (liveness_scope {E = Failure} env t a).0 ≡ ok (codes "device")
    → IsGone env t a
unfolding liveness_scope invoke
liveness_scope_device env t a h = elim (Bool-cases (is_alive (asked_state env t a))) [
  | inl alive ↦ absurd (ground (arith, h, alive))
  | inr silent ↦ record {
    silent = silent;
    server_works = ground (arith, h, silent);
    unlisted = ground (arith, h, silent);
  }
]

-- What the error and the stage already rule out.
abbrev pub IsOpen : Text → Failure → Type 0
IsOpen stage e =
    (is_error e soc_mismatch ≡ false)
    × (is_error e abi_mismatch ≡ false)
    × (is_error e no_match ≡ false)
    × (stage == codes "download" ≡ false)
    × (stage == codes "unpack" ≡ false)
    × (stage == codes "resolve" ≡ false)

-- Neither did a context end nor did adb itself fail.
abbrev pub IsClean : Failure → Type 0
IsClean e =
    (is_error e context_canceled ≡ false)
    × (is_error e deadline_exceeded ≡ false)
    × (is_error e launch_error ≡ false)
    × (is_error e adb_server ≡ false)

known_scope_device :
    (stage : Text) (e : Failure)
    → known_scope stage e ≡ some (codes "device")
    → (is_error e no_space ≡ true) × IsClean e
unfolding known_scope
known_scope_device stage e h = (
  ground (arith, h),
  (ground (arith, h), ground (arith, h), ground (arith, h), ground (arith, h)),
)

known_scope-IsOpen :
    (stage : Text) (e : Failure) → known_scope stage e ≡ none → IsOpen stage e × IsClean e
unfolding known_scope
known_scope-IsOpen stage e h = (
  (
    ground (arith, h),
    ground (arith, h),
    ground (arith, h),
    ground (arith, h),
    ground (arith, h),
    ground (arith, h),
  ),
  (ground (arith, h), ground (arith, h), ground (arith, h), ground (arith, h)),
)

-- A failure is blamed on the device only if the error says that its storage is short, or if the device
-- does not answer while adb's server lists its devices without it; in the second case the error is no
-- mismatch of the device with the package and no pattern that matched no file, and the stage is none
-- of download, unpack and resolve. In both no context has ended and adb itself has not failed.
pub classify_failure-device :
    (env : Env) (t : Target) (stage : Text) (e : Failure) (a : Agent)
    → (classify_failure {E = Failure} env t stage e a).0 ≡ ok (codes "device")
    → ((is_error e no_space ≡ true) ⊎ (IsGone env t a × IsOpen stage e)) × IsClean e
unfolding classify_failure
classify_failure-device env t stage e a h = elim (Option-cases (known_scope stage e)) [
  | inl unknown ↦
      let gone : IsGone env t a = liveness_scope_device env t a (ground (arith, h, unknown)) in
      let (open_still, clean) = known_scope-IsOpen stage e unknown in
      (inr (gone, open_still), clean)
  | inr (s, found) ↦
      let same : known_scope stage e ≡ some (codes "device") = ground (arith, h, found) in
      let (short, clean) = known_scope_device stage e same in (inl short, clean)
]
