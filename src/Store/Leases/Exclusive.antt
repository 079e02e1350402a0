-- ===== src/Store/Leases/Exclusive.antt =====
-- While a lease runs nobody else obtains its device, and a quarantined device is never leased.
use hermes_ai_devops.Common.{
  ℕ, ◌+◌, ◌*◌, ◌≤◌, ◌≡◌, refl, ◌≢◌, ◌⊎◌, String, false, Option, List, All, arith, eq_iff, sym, ap,
  string_eq, nat_eq,
}
use Prim.Native.String.{◌++◌ as str_append}
use hermes_ai_devops.Store.State.{
  MemStore, DeviceRow, busy, quarantined, DeviceSelector, Lease, second,
}
use hermes_ai_devops.Store.Leases.{granted, leasable, acquire_device, grant}
use hermes_ai_devops.Store.Leases.Steps.{
  Op, heartbeat, acquire, release, renew, quarantine, unquarantine, Move, refreshed, dropped,
  claimed, leased, returned, renewed, isolated, restored, run,
}
use hermes_ai_devops.Store.Leases.Evolution.{Has, run-Has}
use hermes_ai_devops.Store.Leases.Keyed.{IsKeyed, run-IsKeyed, acquire_device-IsGrant}

-- The row is leased to the task, under this lease id and generation, until `until` at least.
pub record IsHeld (task id : String) (g until : ℕ) (r : DeviceRow) : Type 0 where
  pub running : r.status ≡ busy
  pub holder : r.lease_task_id ≡ task
  pub lease : r.lease_id ≡ id
  pub generation : r.lease_generation ≡ g
  pub live : r.released ≡ false
  pub lasting : until ≤ r.lease_expires_at

-- What does not end the lease of device `d` to the task before `until`: no attempt to lease after
-- that time, no release by the holder, no renewal to an earlier end, no operator's unquarantine of
-- that device.
abbrev pub Spares : String → String → ℕ → Op → Type 0
Spares d task until (heartbeat c devs) = Unit
Spares d task until (acquire sel other secs now bytes order) = now ≤ until
Spares d task until (release id other scope after now) = (id ≢ d) ⊎ (other ≢ task)
Spares d task until (renew cred secs now) = (cred.device_id ≢ d) ⊎ (until ≤ now + secs * second)
Spares d task until (quarantine id) = Unit
Spares d task until (unquarantine id) = id ≢ d

module _ (d task lease_id : String) (g until : ℕ) where
  not_leasable :
      (r : DeviceRow) (now : ℕ)
      → IsHeld task lease_id g until r
      → now ≤ until
      → leasable r now ≡ false
  unfolding leasable
  not_leasable r now h early = ground arith

  Move-IsHeld :
      (op : Op) (q r : DeviceRow)
      → Spares d task until op
      → Move d op q r
      → IsHeld task lease_id g until q
      → IsHeld task lease_id g until r
  Move-IsHeld _ _ _ ok (refreshed c devs dev r) h = ground arith
  Move-IsHeld _ _ _ ok (dropped c devs r e) h = ground arith
  Move-IsHeld _ _ _ ok (claimed sel other secs now bytes order r free) h =
      ground (arith, not_leasable r now h ok)
  Move-IsHeld _ _ _ ok (leased sel other secs now bytes order r id free fits drawn) h =
      ground (arith, not_leasable r now h ok)
  Move-IsHeld _ _ _ ok (returned id other scope after now r st n same may settled) h =
      ground (arith, eq_iff r.lease_task_id other)
  Move-IsHeld _ _ _ ok (renewed cred secs now r same owns) h = ground arith
  Move-IsHeld _ _ _ ok (isolated id r same free) h = ground arith
  Move-IsHeld _ _ _ ok (restored id r same) h = absurd (ok same)

-- After a lease is granted, and through any calls that spare it, the device's row stays the holder's:
-- busy, under the same task, lease id and generation, not released and not expired.
pub lease_exclusive :
    (s : MemStore) (sel : DeviceSelector) (task : String) (secs now : ℕ) (bytes : Option (List ℕ))
    (order : List String) (s' : MemStore) (l : Lease) (ops : List Op)
    → IsKeyed s.devices
    → acquire_device s sel task secs now bytes order ≡ (s', granted l)
    → All (Spares l.device_id task (now + secs * second)) ops
    → Has l.device_id (IsHeld task l.lease_id l.generation (now + secs * second)) (run s' ops)
lease_exclusive s sel task secs now bytes order s' l ops k e spared =
    let g = acquire_device-IsGrant sel task secs now bytes s order k e in
    run-Has l.device_id _ (Spares l.device_id task (now + secs * second))
      (Move-IsHeld l.device_id task l.lease_id l.generation (now + secs * second)) ops s' spared
      (
        _,
        g.stored,
        record {
          running = refl;
          holder = refl;
          lease = sym g.id;
          generation = sym g.generation;
          live = refl;
          lasting = omega arith;
        },
      )

-- While the row of a device is held and not expired, a lease that is granted is of another device.
pub lease_elsewhere :
    (s : MemStore) (d task id : String) (g until : ℕ) (sel : DeviceSelector) (other : String)
    (secs now : ℕ) (bytes : Option (List ℕ)) (order : List String) (s' : MemStore) (l : Lease)
    → IsKeyed s.devices
    → Has d (IsHeld task id g until) s
    → now ≤ until
    → acquire_device s sel other secs now bytes order ≡ (s', granted l)
    → l.device_id ≢ d
lease_elsewhere s d task id g until sel other secs now bytes order s' l k (row, found, held) early e
      same =
    let grant = acquire_device-IsGrant sel other secs now bytes s order k e in
    let one : grant.row ≡ row = cc (grant.found, same, found) in
    cc (ap (λ r. leasable r now) one, grant.free, not_leasable d task id g until row now held early)

-- Out of service, and leased to nobody.
abbrev pub IsOut : DeviceRow → Type 0
IsOut r = (r.status ≡ quarantined) × (r.lease_task_id ≡ "")

-- A release names a task, and the operator does not unquarantine this device.
abbrev pub KeepsOut : String → Op → Type 0
KeepsOut d (heartbeat c devs) = Unit
KeepsOut d (acquire sel task secs now bytes order) = Unit
KeepsOut d (release id task scope after now) = task ≢ ""
KeepsOut d (renew cred secs now) = Unit
KeepsOut d (quarantine id) = Unit
KeepsOut d (unquarantine id) = id ≢ d

module _ (d : String) where
  Move-IsOut : (op : Op) (q r : DeviceRow) → KeepsOut d op → Move d op q r → IsOut q → IsOut r
  unfolding leasable
  Move-IsOut _ _ _ ok (refreshed c devs dev r) h = ground arith
  Move-IsOut _ _ _ ok (dropped c devs r e) h = ground arith
  Move-IsOut _ _ _ ok (claimed sel task secs now bytes order r free) h = ground arith
  Move-IsOut _ _ _ ok (leased sel task secs now bytes order r id free fits drawn) h = ground arith
  Move-IsOut _ _ _ ok (returned id task scope after now r st n same may settled) h =
      ground (arith, eq_iff r.lease_task_id task)
  Move-IsOut _ _ _ ok (renewed cred secs now r same owns) h = h
  Move-IsOut _ _ _ ok (isolated id r same free) h = ground arith
  Move-IsOut _ _ _ ok (restored id r same) h = absurd (ok same)

  -- A quarantined device with no lease stays so, and no lease of it is granted, whatever heartbeats,
  -- leases and renewals follow, and whatever releases that name a task, until an operator
  -- unquarantines that very device. A release with an empty task id is excluded, and the rows stand
  -- under their own devices' ids.
  pub quarantined_not_leased :
      (s : MemStore) (ops : List Op) (sel : DeviceSelector) (task : String) (secs now : ℕ)
      (bytes : Option (List ℕ)) (order : List String) (s' : MemStore) (l : Lease)
      → IsKeyed s.devices
      → Has d IsOut s
      → All (KeepsOut d) ops
      → acquire_device (run s ops) sel task secs now bytes order ≡ (s', granted l)
      → Has d IsOut (run s ops) × (l.device_id ≢ d)
  unfolding leasable
  quarantined_not_leased s ops sel task secs now bytes order s' l k out kept e =
      let after = run-Has d IsOut (KeepsOut d) Move-IsOut ops s kept out in
      let grant =
        acquire_device-IsGrant sel task secs now bytes (run s ops) order (run-IsKeyed ops s k) e in
      (
        after,
        λ same.
            let one : grant.row ≡ after.0 = cc (grant.found, same, after.1) in
            ground (arith, grant.free, one, after.2.0),
      )
