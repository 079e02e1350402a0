-- ===== src/Store/Leases.antt =====
-- Device leases (runtime/internal/store/devices.go): who holds a device, until when, and who may
-- still speak for it. Go visits a map in an order of its own choice: where the order shows in the
-- result it is an argument, the list of the keys as they are visited. The clock is read once in a
-- call, and the bytes of crypto/rand are an argument, `none` where the read fails. Counters do not
-- wrap.
pub mod Steps
pub mod Settling
pub mod Evolution
pub mod Keyed
pub mod Fencing
pub mod Granted
pub mod Exclusive
pub mod Release
mod Tests
use Prim.Native.String.{◌++◌ as str_append}
use mathlib.Core.List.{◌++◌}
use hermes_ai_devops.Common.{
  ℕ, ◌+◌, ◌*◌, String, Bool, true, false, not, ◌&&◌, ◌||◌, Option, none, some, List, [], ◌∷◌, leb,
  ltb, if◌then◌else◌, ◌==◌, string_eq, nat_eq,
}
use hermes_ai_devops.Common.Dict.{Dict, lookup, insert, get_or}
use hermes_ai_devops.Common.Int.{ℤ, int_eq}
use hermes_ai_devops.Common.Text.{codes, atoi, after_last, hex}
use hermes_ai_devops.Store.State.{
  MemStore, Client, DeviceStatus, idle, busy, quarantined, DeviceRow, LeaseCredential,
  DeviceSelector, Lease, FailScope, scope_ok, scope_device, scope_client, scope_none,
  QuarantineEventPayload, json_quarantine, OutboxEvent, AuditEntry, ResultRecord, second, zero_time,
}
use hermes_ai_devops.Store.Outbox.{enqueue, event_device_quarantined}
use hermes_ai_devops.Store.Devices.{is_busy, match_selector}

-- "{task_id}:{32 hexadecimal digits}"
unfoldable pub new_lease_id : String → Option (List ℕ) → Option String
unfolding hex
new_lease_id task_id none = none
new_lease_id task_id (some bytes) = some (str_append task_id (str_append ":" (hex bytes)))

-- Does the number behind the last ":a" of the task id equal the attempt?
unfoldable pub attempt_matches : String → ℤ → Bool
unfolding after_last atoi
attempt_matches task_id attempt = elim (after_last (codes task_id)) [
  | none ↦ false
  | some suffix ↦ elim (atoi suffix) [ none ↦ false | some n ↦ int_eq n attempt ]
]

unfoldable pub leasable : DeviceRow → ℕ → Bool
leasable row now = elim row.status [ idle ↦ true | busy ↦ ltb row.lease_expires_at now | _ ↦ false ]

pub data Acquired : Type 0 where
  granted : Lease → Acquired
  no_device : Acquired
  entropy_failed : Acquired

-- s.clients[id].BaseURL, "" for a client that is not there.
base_url : MemStore → String → String
base_url s client_id = elim (lookup client_id s.clients) [ none ↦ "" | some c ↦ c.base_url ]

-- A row that AcquireDevice does not pass over.
unfoldable pub candidate : MemStore → DeviceSelector → ℕ → String → Option DeviceRow
candidate s sel now id = elim (lookup id s.devices) [
  | none ↦ none
  | some row ↦
      if not (leasable row now) || not (match_selector row.device sel) then none else some row
]

-- What AcquireDevice writes into the row before it draws the lease id, and after.
abbrev pub claimed_row : String → DeviceRow → DeviceRow
claimed_row task_id row = record row { status = busy; lease_task_id = task_id }

abbrev pub leased_row : String → String → ℕ → DeviceRow → DeviceRow
leased_row task_id lease_id expires_at row = record row {
  status = busy;
  lease_task_id = task_id;
  lease_id = lease_id;
  lease_generation = row.lease_generation + 1;
  released = false;
  lease_expires_at = expires_at;
}

unfoldable pub lease_of : MemStore → DeviceRow → Lease
unfolding base_url
lease_of s row = record {
  device_id = row.device.device_id;
  serial = row.device.serial;
  device_name = row.device.display_name;
  soc = row.device.soc;
  abi = row.device.abi;
  os = row.device.os;
  client_id = row.device.client_id;
  client_base_url = base_url s row.device.client_id;
  lease_id = row.lease_id;
  generation = row.lease_generation;
}

-- The body of the loop for the row that is picked, under the key `id`. A failure of the random
-- source leaves the row claimed.
unfoldable pub grant :
    MemStore → String → DeviceRow → String → ℕ → ℕ → Option (List ℕ) → MemStore × Acquired
grant s id row task_id lease_seconds now bytes = elim (new_lease_id task_id bytes) [
  | none ↦ (record s { devices = insert id (claimed_row task_id row) s.devices }, entropy_failed)
  | some lease_id ↦
      let leased = leased_row task_id lease_id (now + lease_seconds * second) row in
      (record s { devices = insert id leased s.devices }, granted (lease_of s leased))
]

-- The loop of AcquireDevice over the keys in the order of iteration.
unfoldable pub acquire_device :
    MemStore → DeviceSelector → String → ℕ → ℕ → Option (List ℕ) → List String → MemStore × Acquired
acquire_device s sel task_id lease_seconds now bytes [] = (s, no_device)
acquire_device s sel task_id lease_seconds now bytes (id ∷ ids) = elim (candidate s sel now id) [
  | some row ↦ grant s id row task_id lease_seconds now bytes
  | none ↦ acquire_device s sel task_id lease_seconds now bytes ids
]

abbrev audit_quarantine : String → AuditEntry
audit_quarantine device_id = record {
  actor = "activity:release_device";
  action = "device_quarantined";
  target = device_id;
  payload_digest = "";
}

-- The failure stage of the task's result, "" where there is none.
failure_stage : MemStore → String → String
failure_stage s task_id = elim (lookup task_id s.results) [
  | none ↦ ""
  | some rec ↦ rec.result.failure_stage
]

abbrev pub quarantine_key : String → String → String
quarantine_key device_id task_id = str_append device_id (str_append ":quarantined:" task_id)

quarantine_event : MemStore → DeviceRow → String → OutboxEvent
unfolding failure_stage
quarantine_event s row task_id = record {
  id = 0;
  aggregate_type = "device";
  aggregate_id = row.device.device_id;
  event_type = event_device_quarantined;
  event_key = quarantine_key row.device.device_id task_id;
  payload = json_quarantine (record {
    device_id = row.device.device_id;
    client_id = row.device.client_id;
    serial = row.device.serial;
    display_name = row.device.display_name;
    fail_streak = row.fail_streak;
    task_id = task_id;
    failure_stage = failure_stage s task_id;
  });
  attempts = 0;
  last_error = "";
}

unfoldable pub emit_quarantine_event : MemStore → DeviceRow → String → ℕ → MemStore
unfolding quarantine_event
emit_quarantine_event s row task_id now =
    let queued = enqueue s (quarantine_event s row task_id) now in
    record queued { audit_log = queued.audit_log ++ audit_quarantine row.device.device_id ∷ [] }

-- Released, lease_task_id = "", no expiry.
abbrev pub returned_row : DeviceRow → DeviceRow
returned_row row = record row { released = true; lease_task_id = ""; lease_expires_at = zero_time }

abbrev put_row : MemStore → String → DeviceRow → MemStore
put_row s id row = record s { devices = insert id row s.devices }

-- The switch over the attribution, on the returned row.
pub release_scoped : MemStore → String → DeviceRow → String → FailScope → ℕ → ℕ → MemStore
unfolding emit_quarantine_event
release_scoped s id row task_id scope_device quarantine_after now =
    let struck = record row { fail_streak = row.fail_streak + 1 } in
    if leb quarantine_after struck.fail_streak
    then (let out = record struck { status = quarantined } in
        emit_quarantine_event (put_row s id out) out task_id now)
    else put_row s id (record struck { status = idle })
release_scoped s id row task_id scope_client quarantine_after now =
    let streak = get_or row.device.client_id s.client_fail_streak 0 in
    put_row
      (record s {
        client_fail_streak = insert row.device.client_id (streak + 1) s.client_fail_streak;
      })
      id (record row { status = idle })
release_scoped s id row task_id scope_ok quarantine_after now =
    put_row (record s { client_fail_streak = insert row.device.client_id 0 s.client_fail_streak })
      id (record row { status = idle; fail_streak = 0 })
release_scoped s id row task_id scope_none quarantine_after now =
    put_row s id (record row { status = idle })

-- Only the task that holds the lease may release it, and once.
abbrev pub may_release : DeviceRow → String → Bool
may_release row task_id = row.lease_task_id == task_id && not row.released

unfoldable pub release_device : MemStore → String → String → FailScope → ℕ → ℕ → MemStore
unfolding release_scoped
release_device s device_id task_id scope quarantine_after now = elim (lookup device_id s.devices) [
  | none ↦ s
  | some row ↦
      if may_release row task_id
      then release_scoped s device_id (returned_row row) task_id scope quarantine_after now
      else s
]

-- The checks that RenewLease and VerifyLease share.
unfoldable pub owns_lease : DeviceRow → LeaseCredential → Bool
unfolding attempt_matches
owns_lease row cred =
    is_busy row.status
    && not row.released
    && row.device.client_id == cred.client_id
    && row.lease_task_id == cred.task_id
    && row.lease_id == cred.lease_id
    && row.lease_generation == cred.generation
    && attempt_matches cred.task_id cred.attempt

unfoldable pub renew_lease : MemStore → LeaseCredential → ℕ → ℕ → MemStore × Bool
renew_lease s cred lease_seconds now = elim (lookup cred.device_id s.devices) [
  | none ↦ (s, false)
  | some row ↦
      if owns_lease row cred
      then (let renewed = record row { lease_expires_at = now + lease_seconds * second } in
          (record s { devices = insert cred.device_id renewed s.devices }, true))
      else (s, false)
]

unfoldable pub verify_lease : MemStore → LeaseCredential → Bool
verify_lease s cred = elim (lookup cred.device_id s.devices) [
  | none ↦ false
  | some row ↦ owns_lease row cred
]

-- The expiry of the first row, in the order of iteration, that the task holds.
unfoldable pub get_lease_expiry : MemStore → String → List String → Option ℕ
get_lease_expiry s task_id [] = none
get_lease_expiry s task_id (id ∷ ids) =
    let rest = get_lease_expiry s task_id ids in
    elim (lookup id s.devices) [
      | none ↦ rest
      | some row ↦ if may_release row task_id then some row.lease_expires_at else rest
    ]
