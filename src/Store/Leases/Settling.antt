-- ===== src/Store/Leases/Settling.antt =====
-- What a release writes besides the lease: the status, the count of failures, the devices.
use hermes_ai_devops.Common.{
  ℕ, ◌+◌, ◌≡◌, refl, ◌≢◌, inl, inr, String, arith, string_eq, Bool-cases, leb, if◌then◌else◌,
}
use hermes_ai_devops.Common.Dict.{insert}
use hermes_ai_devops.Store.State.{
  MemStore, DeviceStatus, idle, busy, quarantined, DeviceRow, OutboxEvent, FailScope, scope_ok,
  scope_device, scope_client, scope_none,
}
use hermes_ai_devops.Store.Outbox.{enqueue}
use hermes_ai_devops.Store.Leases.{release_scoped, emit_quarantine_event}

-- The status and the count of failures that a release leaves.
abbrev pub settled_status : FailScope → ℕ → ℕ → DeviceStatus
settled_status scope_device after streak = if leb after (streak + 1) then quarantined else idle
settled_status scope_ok after streak = idle
settled_status scope_client after streak = idle
settled_status scope_none after streak = idle

abbrev pub settled_streak : FailScope → ℕ → ℕ
settled_streak scope_device streak = streak + 1
settled_streak scope_ok streak = 0
settled_streak scope_client streak = streak
settled_streak scope_none streak = streak

pub settled_status-ne-busy :
    (scope : FailScope) (after streak : ℕ) → settled_status scope after streak ≢ busy
settled_status-ne-busy scope_device after streak = ground arith
settled_status-ne-busy scope_ok after streak = ground arith
settled_status-ne-busy scope_client after streak = ground arith
settled_status-ne-busy scope_none after streak = ground arith

pub enqueue-devices :
    (s : MemStore) (ev : OutboxEvent) (now : ℕ) → (enqueue s ev now).devices ≡ s.devices
unfolding enqueue
enqueue-devices s ev now = ground arith

emit_quarantine_event-devices :
    (s : MemStore) (row : DeviceRow) (task : String) (now : ℕ)
    → (emit_quarantine_event s row task now).devices ≡ s.devices
unfolding emit_quarantine_event
emit_quarantine_event-devices s row task now = enqueue-devices s _ now

pub release_scoped-devices :
    (scope : FailScope) (s : MemStore) (id : String) (row : DeviceRow) (task : String)
    (after now : ℕ)
    → (release_scoped s id row task scope after now).devices
      ≡ insert id
          (record row {
            status = settled_status scope after row.fail_streak;
            fail_streak = settled_streak scope row.fail_streak;
          })
          s.devices
unfolding release_scoped
release_scoped-devices scope_ok s id row task after now = refl
release_scoped-devices scope_client s id row task after now = refl
release_scoped-devices scope_none s id row task after now = refl
release_scoped-devices scope_device s id row task after now =
    let out = record row { fail_streak = row.fail_streak + 1; status = quarantined } in
    elim (Bool-cases (leb after (row.fail_streak + 1))) [
      | inl third ↦ rw third (
          emit_quarantine_event-devices (record s { devices = insert id out s.devices }) out task
            now)
      | inr few ↦ rw few
    ]
