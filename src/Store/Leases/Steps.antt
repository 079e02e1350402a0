-- ===== src/Store/Leases/Steps.antt =====
-- The methods that write a device row, as operations of a trace, and the life of one row under them
-- as a step relation that the methods refine.
use hermes_ai_devops.Common.{
  ℕ, ◌+◌, ◌*◌, ◌≡◌, ◌≢◌, String, true, false, Option, some, List, [], ◌∷◌, string_eq,
}
use hermes_ai_devops.Common.Dict.{Dict, lookup}
use hermes_ai_devops.Store.State.{
  MemStore, Client, Device, DeviceStatus, idle, busy, offline, quarantined, DeviceRow,
  LeaseCredential, DeviceSelector, FailScope, second,
}
use hermes_ai_devops.Store.Devices.{
  is_busy, refresh_row, upsert_client_devices, match_selector, quarantine_device,
  unquarantine_device,
}
use hermes_ai_devops.Store.Leases.{
  leasable, claimed_row, leased_row, acquire_device, returned_row, may_release, release_device,
  owns_lease, renew_lease, new_lease_id,
}

-- A call of a method. The time, the random bytes and the order of iteration are the environment's.
pub data Op : Type 0 where
  heartbeat : Client → List Device → Op
  acquire : DeviceSelector → String → ℕ → ℕ → Option (List ℕ) → List String → Op
  release : String → String → FailScope → ℕ → ℕ → Op
  renew : LeaseCredential → ℕ → ℕ → Op
  quarantine : String → Op
  unquarantine : String → Op

unfoldable pub step : MemStore → Op → MemStore
step s (heartbeat c devs) = upsert_client_devices s c devs
step s (acquire sel task secs now bytes order) = (acquire_device s sel task secs now bytes order).0
step s (release d task scope after now) = release_device s d task scope after now
step s (renew cred secs now) = (renew_lease s cred secs now).0
step s (quarantine d) = (quarantine_device s d).0
step s (unquarantine d) = (unquarantine_device s d).0

unfoldable pub run : MemStore → List Op → MemStore
run s [] = s
run s (op ∷ ops) = run (step s op) ops

-- What one call may do to the row of device `d`.
pub data Move (d : String) : Op → DeviceRow → DeviceRow → Type 0 where
  refreshed :
      (c : Client) (devs : List Device) (dev : Device) (r : DeviceRow)
      → Move d (heartbeat c devs) r (refresh_row dev r)
  dropped :
      (c : Client) (devs : List Device) (r : DeviceRow)
      → r.status ≡ idle
      → Move d (heartbeat c devs) r (record r { status = offline })
  claimed :
      (sel : DeviceSelector) (task : String) (secs now : ℕ) (bytes : Option (List ℕ))
      (order : List String) (r : DeviceRow)
      → leasable r now ≡ true
      → Move d (acquire sel task secs now bytes order) r (claimed_row task r)
  leased :
      (sel : DeviceSelector) (task : String) (secs now : ℕ) (bytes : Option (List ℕ))
      (order : List String) (r : DeviceRow) (id : String)
      → leasable r now ≡ true
      → match_selector r.device sel ≡ true
      → new_lease_id task bytes ≡ some id
      → Move d
          (acquire sel task secs now bytes order)
          r
          (leased_row task id (now + secs * second) r)
  returned :
      (id task : String) (scope : FailScope) (after now : ℕ) (r : DeviceRow) (status : DeviceStatus)
      (streak : ℕ)
      → id ≡ d
      → may_release r task ≡ true
      → status ≢ busy
      → Move d
          (release id task scope after now)
          r
          (record (returned_row r) { status = status; fail_streak = streak })
  renewed :
      (cred : LeaseCredential) (secs now : ℕ) (r : DeviceRow)
      → cred.device_id ≡ d
      → owns_lease r cred ≡ true
      → Move d (renew cred secs now) r (record r { lease_expires_at = now + secs * second })
  isolated :
      (id : String) (r : DeviceRow)
      → id ≡ d
      → is_busy r.status ≡ false
      → Move d (quarantine id) r (record r { status = quarantined })
  restored :
      (id : String) (r : DeviceRow)
      → id ≡ d
      → Move d (unquarantine id) r (record r { status = idle; fail_streak = 0 })

pub data Moves (d : String) (op : Op) : DeviceRow → DeviceRow → Type 0 where
  still : {r : DeviceRow} → Moves d op r r
  next : {q r t : DeviceRow} → Move d op q r → Moves d op r t → Moves d op q t

pub Moves-trans :
    {d : String} {op : Op} {q r t : DeviceRow} → Moves d op q r → Moves d op r t → Moves d op q t
Moves-trans still n = n
Moves-trans (next m ms) n = next m (Moves-trans ms n)

-- The row of `d` in `m` becomes a row in `m'` by moves of `op`.
abbrev pub Evolves : String → Op → Dict DeviceRow → DeviceRow → Type 0
Evolves d op m' r = (r' : DeviceRow) × (lookup d m' ≡ some r') × Moves d op r r'
