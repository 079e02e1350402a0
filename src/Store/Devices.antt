-- ===== src/Store/Devices.antt =====
-- The registration of devices by heartbeats, the operator's quarantine commands and the matching of
-- selectors (runtime/internal/store/devices.go and fleet.go).
pub mod Selectors
use Prim.Native.String.{◌++◌ as str_append}
use mathlib.Core.Option
use mathlib.Core.List.{◌++◌}
use hermes_ai_devops.Common.{
  ℕ, ◌+◌, ◌*◌, String, Bool, true, false, not, ◌&&◌, ◌||◌, Option, none, some, List, [], ◌∷◌, map,
  any, leb, ltb, contains, if◌then◌else◌, ◌==◌, string_eq, nat_eq,
}
use hermes_ai_devops.Common.Dict.{Dict, lookup, insert, get_or, map_entries}
use hermes_ai_devops.Common.Int.{ℤ, int_eq}
use hermes_ai_devops.Common.Text.{codes, atoi, after_last, hex, equal_fold}
use hermes_ai_devops.Store.State.{
  MemStore, Client, Device, DeviceStatus, idle, busy, offline, quarantined, DeviceRow,
  LeaseCredential, DeviceSelector, Lease, FailScope, scope_ok, scope_device, scope_client,
  scope_none, QuarantineEventPayload, json_quarantine, OutboxEvent, AuditEntry, ResultRecord,
  second, zero_time,
}
use hermes_ai_devops.Store.Outbox.{enqueue, event_device_quarantined}

unfoldable pub available_state : String → DeviceStatus
available_state reported = if reported == "" || reported == "IDLE" then idle else offline

abbrev pub is_idle : DeviceStatus → Bool
is_idle idle = true
is_idle _ = false

abbrev pub is_busy : DeviceStatus → Bool
is_busy busy = true
is_busy _ = false

-- A status that a heartbeat may change.
abbrev pub is_unowned : DeviceStatus → Bool
is_unowned idle = true
is_unowned offline = true
is_unowned _ = false

-- &deviceRow{Device: d, Status: …}, all else zero.
abbrev pub new_row : Device → DeviceRow
new_row d = record {
  device = d;
  status = available_state d.reported_state;
  fail_streak = 0;
  lease_task_id = "";
  lease_id = "";
  lease_generation = 0;
  lease_expires_at = zero_time;
  released = false;
}

abbrev pub refresh_row : Device → DeviceRow → DeviceRow
refresh_row d row = record row {
  device = d;
  status = if is_unowned row.status then available_state d.reported_state else row.status;
}

unfoldable pub upsert_device : Dict DeviceRow → Device → Dict DeviceRow
upsert_device m d = elim (lookup d.device_id m) [
  | some row ↦ insert d.device_id (refresh_row d row) m
  | none ↦ insert d.device_id (new_row d) m
]

unfoldable pub upsert_devices : Dict DeviceRow → List Device → Dict DeviceRow
unfolding upsert_device
upsert_devices m [] = m
upsert_devices m (d ∷ ds) = upsert_devices (upsert_device m d) ds

-- An idle device of the client that the heartbeat does not name goes offline.
abbrev pub drop_absent : Client → List Device → String → DeviceRow → DeviceRow
drop_absent c devs device_id row =
    if row.device.client_id == c.client_id
      && is_idle row.status
      && not (contains device_id (map (λ d. d.device_id) devs))
    then record row { status = offline }
    else row

unfoldable pub upsert_client_devices : MemStore → Client → List Device → MemStore
unfolding upsert_devices
upsert_client_devices s c devs = record s {
  clients = insert c.client_id c s.clients;
  devices = map_entries (drop_absent c devs) (upsert_devices s.devices devs);
}

abbrev pub os_misses : Device → DeviceSelector → List String
os_misses d sel =
    if not (sel.os == "") && not (equal_fold sel.os d.os) then str_append "os=" d.os ∷ [] else []

abbrev pub soc_misses : Device → List String → List String
soc_misses d [] = []
soc_misses d (soc ∷ socs) =
    if any (λ want. equal_fold want d.soc) (soc ∷ socs) then [] else str_append "soc=" d.soc ∷ []

abbrev pub capability_misses : Device → List String → List String
capability_misses d [] = []
capability_misses d (want ∷ wants) =
    if any (equal_fold want) d.capabilities
    then capability_misses d wants
    else str_append "缺 " want ∷ capability_misses d wants

-- The constraints of the selector that the device does not meet.
unfoldable pub selector_mismatch : Device → DeviceSelector → List String
selector_mismatch d sel =
    os_misses d sel ++ (soc_misses d sel.soc ++ capability_misses d sel.capabilities)

abbrev pub is_empty {ℓ} : {A : Type ℓ} → List A → Bool
is_empty [] = true
is_empty (x ∷ xs) = false

unfoldable pub match_selector : Device → DeviceSelector → Bool
unfolding selector_mismatch
match_selector d sel = is_empty (selector_mismatch d sel)

-- `true` if some device, in whatever state, matches.
unfoldable pub has_capable_device : MemStore → DeviceSelector → Bool
unfolding match_selector
has_capable_device s sel = any (λ e. match_selector e.1.device sel) s.devices

-- status = IDLE and fail_streak = 0, whatever the status was.
unfoldable pub unquarantine_device : MemStore → String → MemStore × Bool
unquarantine_device s device_id = elim (lookup device_id s.devices) [
  | none ↦ (s, false)
  | some row ↦ (
    record s {
      devices = insert device_id (record row { status = idle; fail_streak = 0 }) s.devices;
    },
    true,
  )
]

-- A busy device is not quarantined.
unfoldable pub quarantine_device : MemStore → String → MemStore × Bool
quarantine_device s device_id = elim (lookup device_id s.devices) [
  | none ↦ (s, false)
  | some row ↦ if is_busy row.status then (s, false) else (
    record s { devices = insert device_id (record row { status = quarantined }) s.devices },
    true,
  )
]
