-- ===== src/Store/Leases/Keyed.antt =====
-- The device map is keyed by the devices' own ids, and what a granted lease says of its row.
use hermes_ai_devops.Common.{
  ℕ, ◌+◌, ◌*◌, ◌≡◌, refl, inl, inr, String, true, Option, some, List, [], ◌∷◌, arith, eq_iff, ◌==◌,
  string_eq, Bool-cases, Option-cases, sym, ap, subst,
}
use mathlib.Core.Option
use hermes_ai_devops.Common.Dict.{
  Dict, lookup, insert, map_entries, lookup-insert, lookup-insert_self, lookup-map_entries,
}
use hermes_ai_devops.Store.State.{
  MemStore, Device, DeviceRow, LeaseCredential, DeviceSelector, Lease, FailScope, second,
}
use hermes_ai_devops.Store.Devices.{
  is_busy, new_row, refresh_row, drop_absent, upsert_device, upsert_devices, upsert_client_devices,
  match_selector, quarantine_device, unquarantine_device,
}
use hermes_ai_devops.Store.Leases.{
  granted, leasable, leased_row, lease_of, candidate, grant, acquire_device, returned_row,
  may_release, release_device, owns_lease, renew_lease, new_lease_id,
}
use hermes_ai_devops.Store.Leases.Steps.{
  Op, heartbeat, acquire, release, renew, quarantine, unquarantine, step, run,
}
use hermes_ai_devops.Store.Leases.Evolution.{candidate-some}
use hermes_ai_devops.Store.Leases.Settling.{release_scoped-devices}

abbrev pub IsKeyed : Dict DeviceRow → Type 0
IsKeyed m = (d : String) (r : DeviceRow) → lookup d m ≡ some r → r.device.device_id ≡ d

insert-IsKeyed :
    (m : Dict DeviceRow) (id : String) (row : DeviceRow)
    → row.device.device_id ≡ id
    → IsKeyed m
    → IsKeyed (insert id row m)
insert-IsKeyed m id row same k d r e = elim (Bool-cases (id == d)) [
  | inl hit ↦ cc (same, (eq_iff id d).0 hit, rw (lookup-insert id d row m, hit) at e)
  | inr miss ↦ k d r (rw (lookup-insert id d row m, miss) at e)
]

upsert_device-IsKeyed :
    (m : Dict DeviceRow) (dev : Device) → IsKeyed m → IsKeyed (upsert_device m dev)
unfolding upsert_device
upsert_device-IsKeyed m dev k = elim (Option-cases (lookup dev.device_id m)) [
  | inl missing ↦ rw (missing, upsert_device) (insert-IsKeyed m dev.device_id (new_row dev) refl k)
  | inr (row, there) ↦
      rw (there, upsert_device) (insert-IsKeyed m dev.device_id (refresh_row dev row) refl k)
]

upsert_devices-IsKeyed :
    (ds : List Device) (m : Dict DeviceRow) → IsKeyed m → IsKeyed (upsert_devices m ds)
unfolding upsert_devices
upsert_devices-IsKeyed [] m k = k
upsert_devices-IsKeyed (dev ∷ ds) m k =
    upsert_devices-IsKeyed ds (upsert_device m dev) (upsert_device-IsKeyed m dev k)

map_entries-IsKeyed :
    (f : String → DeviceRow → DeviceRow) (m : Dict DeviceRow)
    → ((d : String) (r : DeviceRow) → (f d r).device.device_id ≡ r.device.device_id)
    → IsKeyed m
    → IsKeyed (map_entries f m)
map_entries-IsKeyed f m same k d r e = elim (Option-cases (lookup d m)) [
  | inl missing ↦ cc (lookup-map_entries f d m, ap (Option.map (f d)) missing, e)
  | inr (q, there) ↦
      cc (lookup-map_entries f d m, ap (Option.map (f d)) there, e, same d q, k d q there)
]

acquire-IsKeyed :
    (s : MemStore) (sel : DeviceSelector) (task : String) (secs now : ℕ) (bytes : Option (List ℕ))
    (ids : List String)
    → IsKeyed s.devices
    → IsKeyed (acquire_device s sel task secs now bytes ids).0.devices
unfolding acquire_device grant
acquire-IsKeyed s sel task secs now bytes [] k = k
acquire-IsKeyed s sel task secs now bytes (id ∷ ids) k =
    elim (Option-cases (candidate s sel now id)) [
      | inl passed ↦ rw (passed, acquire_device) (acquire-IsKeyed s sel task secs now bytes ids k)
      | inr (row, picked) ↦
          let same = k id row (candidate-some s sel now id row picked).0 in
          elim (Option-cases (new_lease_id task bytes)) [
            | inl failed ↦
                rw (picked, acquire_device)
                  (rw (failed, grant) (insert-IsKeyed s.devices id _ same k))
            | inr (lease_id, drawn) ↦
                rw (picked, acquire_device)
                  (rw (drawn, grant) (insert-IsKeyed s.devices id _ same k))
          ]
    ]

release-IsKeyed :
    (s : MemStore) (id task : String) (scope : FailScope) (after now : ℕ)
    → IsKeyed s.devices
    → IsKeyed (release_device s id task scope after now).devices
unfolding release_device
release-IsKeyed s id task scope after now k = elim (Option-cases (lookup id s.devices)) [
  | inl missing ↦ rw (missing, release_device) k
  | inr (row, there) ↦ elim (Bool-cases (may_release row task)) [
    | inl may ↦
        rw (there, release_device)
          (rw (may, release_scoped-devices scope s id (returned_row row) task after now)
            (insert-IsKeyed s.devices id _ (k id row there) k))
    | inr held ↦ rw (there, release_device) (rw held k)
  ]
]

renew-IsKeyed :
    (s : MemStore) (cred : LeaseCredential) (secs now : ℕ)
    → IsKeyed s.devices
    → IsKeyed (renew_lease s cred secs now).0.devices
unfolding renew_lease
renew-IsKeyed s cred secs now k = elim (Option-cases (lookup cred.device_id s.devices)) [
  | inl missing ↦ rw (missing, renew_lease) k
  | inr (row, there) ↦ elim (Bool-cases (owns_lease row cred)) [
    | inl owns ↦
        rw (there, renew_lease)
          (rw owns (insert-IsKeyed s.devices cred.device_id _ (k cred.device_id row there) k))
    | inr not_owner ↦ rw (there, renew_lease) (rw not_owner k)
  ]
]

quarantine-IsKeyed :
    (s : MemStore) (id : String) → IsKeyed s.devices → IsKeyed (quarantine_device s id).0.devices
unfolding quarantine_device
quarantine-IsKeyed s id k = elim (Option-cases (lookup id s.devices)) [
  | inl missing ↦ rw (missing, quarantine_device) k
  | inr (row, there) ↦ elim (Bool-cases (is_busy row.status)) [
    | inl running ↦ rw (there, quarantine_device) (rw running k)
    | inr free ↦
        rw (there, quarantine_device) (rw free (insert-IsKeyed s.devices id _ (k id row there) k))
  ]
]

unquarantine-IsKeyed :
    (s : MemStore) (id : String) → IsKeyed s.devices → IsKeyed (unquarantine_device s id).0.devices
unfolding unquarantine_device
unquarantine-IsKeyed s id k = elim (Option-cases (lookup id s.devices)) [
  | inl missing ↦ rw (missing, unquarantine_device) k
  | inr (row, there) ↦
      rw (there, unquarantine_device) (insert-IsKeyed s.devices id _ (k id row there) k)
]

-- Every call keeps the device map keyed by the devices' ids.
pub step-IsKeyed : (s : MemStore) (op : Op) → IsKeyed s.devices → IsKeyed (step s op).devices
unfolding step upsert_client_devices
step-IsKeyed s (heartbeat c devs) k =
    map_entries-IsKeyed (drop_absent c devs) (upsert_devices s.devices devs) (λ d r. ground arith)
      (upsert_devices-IsKeyed devs s.devices k)
step-IsKeyed s (acquire sel task secs now bytes order) k =
    acquire-IsKeyed s sel task secs now bytes order k
step-IsKeyed s (release id task scope after now) k = release-IsKeyed s id task scope after now k
step-IsKeyed s (renew cred secs now) k = renew-IsKeyed s cred secs now k
step-IsKeyed s (quarantine id) k = quarantine-IsKeyed s id k
step-IsKeyed s (unquarantine id) k = unquarantine-IsKeyed s id k

pub run-IsKeyed : (ops : List Op) (s : MemStore) → IsKeyed s.devices → IsKeyed (run s ops).devices
unfolding run
run-IsKeyed [] s k = k
run-IsKeyed (op ∷ ops) s k = run-IsKeyed ops (step s op) (step-IsKeyed s op k)

-- Where a granted lease comes from: a row that could be leased and met the selector, whose renewed
-- form is in the store and is what the lease says.
pub record IsGrant (s : MemStore) (sel : DeviceSelector) (task : String) (secs now : ℕ)
    (s' : MemStore) (l : Lease) : Type 0 where
  pub row : DeviceRow
  pub lease_id : String
  pub found : lookup l.device_id s.devices ≡ some row
  pub free : leasable row now ≡ true
  pub fits : match_selector row.device sel ≡ true
  pub stored :
      lookup l.device_id s'.devices ≡ some (leased_row task lease_id (now + secs * second) row)
  pub id : l.lease_id ≡ lease_id
  pub generation : l.generation ≡ row.lease_generation + 1
  pub serial : l.serial ≡ row.device.serial
  pub client : l.client_id ≡ row.device.client_id

module _ (sel : DeviceSelector) (task : String) (secs now : ℕ) (bytes : Option (List ℕ)) where
  granted_lease-IsGrant :
      (s : MemStore) (id : String) (row : DeviceRow) (lease_id : String)
      → IsKeyed s.devices
      → candidate s sel now id ≡ some row
      → let new = leased_row task lease_id (now + secs * second) row in
        IsGrant s sel task secs now
          (record s { devices = insert id new s.devices })
          (lease_of s new)
  unfolding lease_of
  granted_lease-IsGrant s id row lease_id k picked =
      let (there, free, fits) = candidate-some s sel now id row picked in
      let new = leased_row task lease_id (now + secs * second) row in
      let same = sym (k id row there) in
      record {
        row = row;
        lease_id = lease_id;
        found = subst (λ i. lookup i s.devices ≡ some row) same there;
        free = free;
        fits = fits;
        stored =
            subst (λ i. lookup i (insert id new s.devices) ≡ some new) same
              (lookup-insert_self id new s.devices);
        id = refl;
        generation = refl;
        serial = refl;
        client = refl;
      }

  grant-IsGrant :
      (s : MemStore) (id : String) (row : DeviceRow) {s' : MemStore} {l : Lease}
      → IsKeyed s.devices
      → candidate s sel now id ≡ some row
      → grant s id row task secs now bytes ≡ (s', granted l)
      → IsGrant s sel task secs now s' l
  unfolding grant
  grant-IsGrant s id row {s'} {l} k picked e = elim (Option-cases (new_lease_id task bytes)) [
    | inl failed ↦ ground (arith, ap (λ p. p.1) e)
    | inr (lease_id, drawn) ↦
        let new = leased_row task lease_id (now + secs * second) row in
        let left : record s { devices = insert id new s.devices } ≡ s' =
          ground (arith, ap (λ p. p.0) e) in
        let right : lease_of s new ≡ l = ground (arith, ap (λ p. p.1) e) in
        subst (λ t. IsGrant s sel task secs now t l) left
          (subst (IsGrant s sel task secs now _) right
            (granted_lease-IsGrant s id row lease_id k picked))
  ]

  pub acquire_device-IsGrant :
      (s : MemStore) (ids : List String) {s' : MemStore} {l : Lease}
      → IsKeyed s.devices
      → acquire_device s sel task secs now bytes ids ≡ (s', granted l)
      → IsGrant s sel task secs now s' l
  unfolding acquire_device
  acquire_device-IsGrant s [] k e = ground (arith, ap (λ p. p.1) e)
  acquire_device-IsGrant s (id ∷ ids) k e = elim (Option-cases (candidate s sel now id)) [
    | inl passed ↦ acquire_device-IsGrant s ids k (rw (passed, acquire_device) at e)
    | inr (row, picked) ↦ grant-IsGrant s id row k picked (rw (picked, acquire_device) at e)
  ]
