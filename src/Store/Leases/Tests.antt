-- ===== src/Store/Leases/Tests.antt =====
-- A fleet of two devices: runs of the lease methods, and their theorems at concrete inputs.
use Prim.Native.String.{◌++◌ as str_append}
use hermes_ai_devops.Common.{
  ◌+◌, ◌*◌, ◌≡◌, refl, ◌≢◌, String, false, none, some, List, [], ◌∷◌, arith, eq_iff, string_eq,
}
use hermes_ai_devops.Common.Int.{pos}
use hermes_ai_devops.Common.Text.{equal_fold}
use hermes_ai_devops.Common.Dict.{lookup, insert}
use hermes_ai_devops.Store.State.{
  MemStore, new_mem_store, Client, Device, DeviceRow, idle, quarantined, LeaseCredential,
  DeviceSelector, Lease, scope_ok, scope_device, scope_client, second,
}
use hermes_ai_devops.Store.Devices.{match_selector}
use hermes_ai_devops.Store.Leases.{
  granted, entropy_failed, candidate, grant, leasable, new_lease_id, leased_row, lease_of,
  acquire_device, release_device, returned_row, renew_lease, verify_lease,
}
use hermes_ai_devops.Store.Leases.Steps.{Op, heartbeat, acquire, release, quarantine, step, run}
use hermes_ai_devops.Store.Leases.Evolution.{Has}
use hermes_ai_devops.Store.Leases.Keyed.{IsKeyed}
use hermes_ai_devops.Store.Leases.Granted.{IsLeased, acquire_device-IsLeased}
use hermes_ai_devops.Store.Leases.Fencing.{superseded_refused}
use hermes_ai_devops.Store.Leases.Exclusive.{IsHeld, IsOut, lease_exclusive, quarantined_not_leased}
use hermes_ai_devops.Store.Leases.Release.{release_charges, release_once}

abbrev board : String → String → Device
board id soc = record {
  device_id = id;
  serial = id;
  display_name = str_append soc id;
  client_id = "win1";
  reported_state = "IDLE";
  os = "android";
  soc = soc;
  abi = "arm64-v8a";
  capabilities = "hexagon" ∷ [];
  mem_total_mb = none;
  disk_total_mb = none;
  disk_free_mb = none;
}

abbrev win1 : Client
win1 = record { client_id = "win1"; host = "h"; version = "1.0.0"; base_url = "http://win1" }

abbrev row_a : DeviceRow
row_a = record {
  device = board "a" "QCM6125";
  status = idle;
  fail_streak = 0;
  lease_task_id = "";
  lease_id = "";
  lease_generation = 0;
  lease_expires_at = 0;
  released = false;
}

abbrev fleet : MemStore
fleet = record new_mem_store { devices = ("a", row_a) ∷ [] }

abbrev android : DeviceSelector
android = record { os = "Android"; soc = "qcm6125" ∷ []; capabilities = "HEXAGON" ∷ [] }

abbrev task1 : String
task1 = "w:t:a1"

abbrev leased_a : DeviceRow
leased_a = leased_row task1 "w:t:a1:ff" (10 + 120 * second) row_a

abbrev leased_fleet : MemStore
leased_fleet = record fleet { devices = ("a", leased_a) ∷ [] }

abbrev lease_a : Lease
lease_a = record {
  device_id = "a";
  serial = "a";
  device_name = "QCM6125a";
  soc = "QCM6125";
  abi = "arm64-v8a";
  os = "android";
  client_id = "win1";
  client_base_url = "";
  lease_id = "w:t:a1:ff";
  generation = 1;
}

fleet-IsKeyed : IsKeyed fleet.devices
unfolding lookup
fleet-IsKeyed d r e = ground (arith, eq_iff "a" d)

leased_fleet-IsKeyed : IsKeyed leased_fleet.devices
unfolding lookup
leased_fleet-IsKeyed d r e = ground (arith, eq_iff "a" d)

acquires_a :
    acquire_device fleet android task1 120 10 (some (255 ∷ [])) ("a" ∷ [])
    ≡ (leased_fleet, granted lease_a)
unfolding acquire_device candidate grant leasable match_selector equal_fold new_lease_id lease_of
    lookup insert
acquires_a = refl

-- The same row under a failing random source is left claimed, and the caller sees an error.
entropy_failure : (acquire_device fleet android task1 120 10 none ("a" ∷ [])).1 ≡ entropy_failed
unfolding acquire_device candidate grant leasable match_selector equal_fold new_lease_id lookup
entropy_failure = refl

acquire_device-IsLeased_example : IsLeased fleet android task1 120 10 leased_fleet lease_a
acquire_device-IsLeased_example =
    acquire_device-IsLeased android task1 120 10 (some (255 ∷ [])) fleet ("a" ∷ []) leased_fleet
      lease_a fleet-IsKeyed acquires_a

abbrev stale : LeaseCredential
stale = record {
  device_id = "a";
  client_id = "win1";
  task_id = "w:t:a0";
  attempt = pos 0;
  lease_id = "";
  generation = 0;
}

superseded_refused_example :
    let t = run leased_fleet (release "a" task1 scope_ok 3 20 ∷ []) in
    (verify_lease t stale ≡ false) × (renew_lease t stale 120 30 ≡ (t, false))
superseded_refused_example =
    superseded_refused fleet android task1 120 10 (some (255 ∷ [])) ("a" ∷ []) leased_fleet lease_a
      (release "a" task1 scope_ok 3 20 ∷ []) stale 120 30 fleet-IsKeyed acquires_a refl
      (omega arith)

abbrev busy_hour : List Op
busy_hour =
    heartbeat win1 [] ∷ acquire android "w:u:a1" 120 50 none ("a" ∷ []) ∷ quarantine "a" ∷ []

lease_exclusive_example :
    Has "a" (IsHeld task1 "w:t:a1:ff" 1 (10 + 120 * second)) (run leased_fleet busy_hour)
lease_exclusive_example =
    lease_exclusive fleet android task1 120 10 (some (255 ∷ [])) ("a" ∷ []) leased_fleet lease_a
      busy_hour fleet-IsKeyed acquires_a (omega arith)

leased_a-IsHeld : Has "a" (IsHeld task1 "w:t:a1:ff" 1 (10 + 120 * second)) leased_fleet
unfolding lookup
leased_a-IsHeld = (
  leased_a,
  refl,
  record {
    running = refl;
    holder = refl;
    lease = refl;
    generation = refl;
    live = refl;
    lasting = omega arith;
  },
)

-- A second board, which is free.
abbrev row_b : DeviceRow
row_b = record row_a { device = board "b" "RK3576" }

abbrev two : MemStore
two = record fleet { devices = ("a", leased_a) ∷ ("b", row_b) ∷ [] }

two-IsKeyed : IsKeyed two.devices
unfolding lookup
two-IsKeyed d r e = ground (arith, eq_iff "a" d, eq_iff "b" d)

two-IsHeld : Has "a" (IsHeld task1 "w:t:a1:ff" 1 (10 + 120 * second)) two
unfolding lookup
two-IsHeld = (
  leased_a,
  refl,
  record {
    running = refl;
    holder = refl;
    lease = refl;
    generation = refl;
    live = refl;
    lasting = omega arith;
  },
)

abbrev anything : DeviceSelector
anything = record { os = ""; soc = []; capabilities = [] }

abbrev leased_b : DeviceRow
leased_b = leased_row "w:u:a1" "w:u:a1:" (50 + 120 * second) row_b

abbrev lease_b : Lease
unfolding lease_of
lease_b = lease_of two leased_b

abbrev two_leased : MemStore
two_leased = record two { devices = ("a", leased_a) ∷ ("b", leased_b) ∷ [] }

acquires_b :
    acquire_device two anything "w:u:a1" 120 50 (some []) ("a" ∷ "b" ∷ [])
    ≡ (two_leased, granted lease_b)
unfolding acquire_device candidate grant leasable match_selector new_lease_id lease_of lookup insert
acquires_b = refl

abbrev out_of_service : MemStore
out_of_service = record fleet {
  devices = ("a", record row_a { status = quarantined }) ∷ ("b", row_b) ∷ [];
}

out_of_service-IsKeyed : IsKeyed out_of_service.devices
unfolding lookup
out_of_service-IsKeyed d r e = ground (arith, eq_iff "a" d, eq_iff "b" d)

abbrev then_leased : MemStore
then_leased = record out_of_service {
  devices = ("a", record row_a { status = quarantined }) ∷ ("b", leased_b) ∷ [];
}

takes_b :
    acquire_device
      (run out_of_service (release "a" "w:t:a1" scope_ok 3 5 ∷ []))
      anything
      "w:u:a1"
      120
      50
      (some [])
      ("a" ∷ "b" ∷ [])
    ≡ (then_leased, granted lease_b)
unfolding acquire_device candidate grant leasable match_selector new_lease_id lease_of lookup insert
    run step release_device
takes_b = refl

quarantined_not_leased_example :
    Has "a" IsOut (run out_of_service (release "a" "w:t:a1" scope_ok 3 5 ∷ []))
    × (lease_b.device_id ≢ "a")
unfolding lookup
quarantined_not_leased_example =
    quarantined_not_leased "a" out_of_service (release "a" "w:t:a1" scope_ok 3 5 ∷ []) anything
      "w:u:a1" 120 50 (some []) ("a" ∷ "b" ∷ []) then_leased lease_b out_of_service-IsKeyed
      (record row_a { status = quarantined }, refl, (refl, refl))
      ((λ e. ground (arith, eq_iff task1 "")), tt) takes_b

release_charges_example :
    let t = release_device leased_fleet "a" task1 scope_device 1 30 in
    (lookup "a" t.devices
      ≡ some (record (returned_row leased_a) { status = quarantined; fail_streak = 1 }))
    × (t.client_fail_streak ≡ [])
    × (lookup "b" t.devices ≡ lookup "b" leased_fleet.devices)
unfolding lookup
release_charges_example =
    release_charges leased_fleet "a" task1 scope_device 1 30 leased_a "b" refl refl
      (λ e. ground (arith, eq_iff "a" "b"))

release_once_example :
    release_device
      (release_device leased_fleet "a" task1 scope_device 3 30)
      "a"
      task1
      scope_client
      3
      31
    ≡ release_device leased_fleet "a" task1 scope_device 3 30
release_once_example =
    release_once leased_fleet "a" task1 scope_device scope_client 3 3 30 31
      (λ e. ground (arith, eq_iff task1 ""))
