-- ===== src/Agent/Execute/LostSerial.antt =====
-- A device that adb knows by a transport id only (agent/internal/executor/executor.go, the closure fail
-- and livenessScope).
use hermes_ai_devops.Common.{
  ℕ, suc, ◌≡◌, refl, true, false, none, List, [], ◌∷◌, any, ◌∙◌, ap, arith, ◌==◌, Bool-cases, inl,
  inr,
}
use hermes_ai_devops.Common.Int.{pos}
use hermes_ai_devops.Common.Text.{codes}
use hermes_ai_devops.Agent.Text.{Text, same_text, text_eq}
use hermes_ai_devops.Agent.Adb.{
  get_state, devices, parse_device_list, ListedDevice, target_for, is_online,
}
use hermes_ai_devops.Agent.Run.{Failure, Event, called, Options, Env, Agent, err, ok, invoke}
use hermes_ai_devops.Agent.Blame.{
  went_well, is_alive, any_target, liveness_scope, known_scope, classify_failure,
}
use hermes_ai_devops.Agent.Execute.{Staged, pipeline, start, fail, conclude, execute}

-- adb answers for a serial with "device" only if the list of devices, asked for next, has an entry
-- with that serial.
abbrev pub KnowsListed : Env → Type 0
KnowsListed env =
    (log : List Event) (serial : Text)
    → is_alive (env.reply log (get_state (target_for serial (pos 0)))) ≡ true
    → any (λ d. d.serial == serial)
        (parse_device_list
          (env.reply (called (get_state (target_for serial (pos 0))) ∷ log) devices).stdout)
      ≡ true

-- The list of devices can be read at all times, and has this one entry.
abbrev pub StaysListed : Env → ListedDevice → Type 0
StaysListed env d =
    (log : List Event)
    → (went_well (env.reply log devices) ≡ true)
      × (parse_device_list (env.reply log devices).stdout ≡ d ∷ [])

-- Online, with a transport id and "?" for its serial.
abbrev pub IsNameless : ListedDevice → ℕ → Type 0
IsNameless d n = (d.serial ≡ codes "?") × (d.transport_id ≡ pos (suc n)) × (is_online d ≡ true)

same_text_comm : (s t : Text) → same_text s t ≡ same_text t s
same_text_comm [] [] = refl
same_text_comm [] (y ∷ ys) = refl
same_text_comm (x ∷ xs) [] = refl
same_text_comm (x ∷ xs) (y ∷ ys) = ground (arith, same_text_comm xs ys)

module _ (env : Env) (o : Options) (d : ListedDevice) (n : ℕ) (stage : Text) (e : Failure)
    (a : Agent) where
  silent :
      KnowsListed env
      → StaysListed env d
      → IsNameless d n
      → o.serial == codes "?" ≡ false
      → is_alive (env.reply a.events (get_state (target_for o.serial (pos 0)))) ≡ false
  silent knows lists (serial, id, online) named =
      elim (Bool-cases (is_alive (env.reply a.events (get_state (target_for o.serial (pos 0)))))) [
        | inr mute ↦ mute
        | inl alive ↦
            let list = (lists (called (get_state (target_for o.serial (pos 0))) ∷ a.events)).1 in
            let there : any (λ x. x.serial == o.serial) (d ∷ []) ≡ true =
              rw list at (knows a.events o.serial alive) in
            absurd (ground (arith, there, serial, named, same_text_comm o.serial (codes "?")))
      ]

  blamed :
      KnowsListed env
      → StaysListed env d
      → IsNameless d n
      → (o.serial == [] ≡ false) × (o.serial == codes "?" ≡ false)
      → known_scope stage e ≡ none
      → (classify_failure {E = Failure} env (target_for o.serial (pos 0)) stage e a).0
        ≡ ok (codes "device")
  unfolding classify_failure liveness_scope invoke any_target target_for
  blamed knows lists nameless (some_text, named) unknown =
      let (works, list) = lists (called (get_state (target_for o.serial (pos 0))) ∷ a.events) in
      let (serial, id, online) = nameless in ground (arith, silent knows lists nameless named)

  spared :
      StaysListed env d
      → IsNameless d n
      → known_scope stage e ≡ none
      → (classify_failure {E = Failure} env (target_for d.serial d.transport_id) stage e a).0
        ≡ ok (codes "none")
  unfolding classify_failure liveness_scope invoke any_target target_for
  spared lists (serial, id, online) unknown =
      let (works, list) =
        lists (called (get_state (target_for d.serial d.transport_id)) ∷ a.events) in
      ground arith

fail-scope :
    (env : Env) (o : Options) (stage scope : Text) (e : Failure) (a : Agent)
    → (classify_failure {E = Failure} env (target_for o.serial (pos 0)) stage e a).0 ≡ ok scope
    → (fail env o (stage, e) a).0.failure_scope ≡ scope
unfolding fail
fail-scope env o stage scope e a h = ap (λ r. elim r [ ok s ↦ s | err x ↦ [] ]) h

conclude-scope :
    (env : Env) (o : Options) (f : Staged) (a : Agent)
    → (conclude env o (err f) a).summary ≡ (fail env o f a).0
unfolding conclude
conclude-scope env o f a = refl

-- A device that adb lists alone, with a transport id and "?" for its serial, and that stays online in
-- the list, is blamed for a run that fails with an error and at a stage that settle no blame, if adb
-- answers for a serial only where the list has it, and the run's serial is neither empty nor "?": the
-- summary says "device", since the failure is classified by the logical serial with the transport id 0.
-- By the target of the device's entry in the list the same failure would be blamed on nobody.
pub execute-lost_serial :
    (env : Env) (o : Options) (d : ListedDevice) (n : ℕ) (stage : Text) (e : Failure) (a : Agent)
    → KnowsListed env
    → StaysListed env d
    → IsNameless d n
    → (o.serial == [] ≡ false) × (o.serial == codes "?" ≡ false)
    → pipeline env o (start o) ≡ (err (stage, e), a)
    → known_scope stage e ≡ none
    → ((execute env o).summary.failure_scope ≡ codes "device")
      × ((classify_failure {E = Failure} env (target_for d.serial d.transport_id) stage e a).0
          ≡ ok (codes "none"))
unfolding execute
execute-lost_serial env o d n stage e a knows lists nameless named failed unknown =
    let blame = blamed env o d n stage e a knows lists nameless named unknown in
    let charged = ap (λ s. s.failure_scope) (conclude-scope env o (stage, e) a) in
    (
      rw failed (charged ∙ fail-scope env o stage (codes "device") e a blame),
      spared env o d n stage e a lists nameless unknown,
    )
