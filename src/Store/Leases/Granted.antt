-- ===== src/Store/Leases/Granted.antt =====
-- What AcquireDevice leaves in the store when it grants a lease (runtime/internal/store/devices.go).
use hermes_ai_devops.Common.{
  ℕ, ◌+◌, ◌*◌, ◌<◌, ◌≡◌, refl, ◌⊎◌, inl, inr, String, true, false, Option, some, List, [], ◌∷◌,
  arith, eq_iff, ◌==◌, string_eq, Bool-cases, Option-cases, sym, ap, ◌∙◌,
}
use hermes_ai_devops.Common.Dict.{lookup, insert, lookup-insert}
use hermes_ai_devops.Store.State.{MemStore, DeviceRow, idle, busy, DeviceSelector, Lease, second}
use hermes_ai_devops.Store.Devices.{match_selector}
use hermes_ai_devops.Store.Leases.{
  granted, leasable, leased_row, lease_of, candidate, grant, acquire_device, new_lease_id,
}
use hermes_ai_devops.Store.Leases.Evolution.{candidate-some}
use hermes_ai_devops.Store.Leases.Keyed.{IsKeyed, acquire_device-IsGrant}

-- The device was free and fits; its row is busy, for the task, under the lease's id and the next
-- generation, until the asked seconds have passed; of another device nothing is changed.
pub record IsLeased (s : MemStore) (sel : DeviceSelector) (task : String) (secs now : ℕ)
    (s' : MemStore) (l : Lease) : Type 0 where
  pub before : DeviceRow
  pub after : DeviceRow
  pub found : lookup l.device_id s.devices ≡ some before
  pub free : (before.status ≡ idle) ⊎ ((before.status ≡ busy) × (before.lease_expires_at < now))
  pub fits : match_selector before.device sel ≡ true
  pub stored : lookup l.device_id s'.devices ≡ some after
  pub running : after.status ≡ busy
  pub holder : after.lease_task_id ≡ task
  pub named : after.lease_id ≡ l.lease_id
  pub next : after.lease_generation ≡ before.lease_generation + 1
  pub generation : l.generation ≡ after.lease_generation
  pub live : after.released ≡ false
  pub expires : after.lease_expires_at ≡ now + secs * second
  pub device : after.device ≡ before.device
  pub streak : after.fail_streak ≡ before.fail_streak
  pub serial : l.serial ≡ before.device.serial
  pub client : l.client_id ≡ before.device.client_id
  pub others : (d : String) → (l.device_id ≡ d) ⊎ (lookup d s'.devices ≡ lookup d s.devices)

leasable-free :
    (r : DeviceRow) (now : ℕ)
    → leasable r now ≡ true
    → (r.status ≡ idle) ⊎ ((r.status ≡ busy) × (r.lease_expires_at < now))
unfolding leasable
leasable-free r now h = ground (arith, h)

module _ (sel : DeviceSelector) (task : String) (secs now : ℕ) (bytes : Option (List ℕ)) where
  grant-others :
      (s : MemStore) (id : String) (row : DeviceRow) {s' : MemStore} {l : Lease} (d : String)
      → row.device.device_id ≡ id
      → grant s id row task secs now bytes ≡ (s', granted l)
      → (l.device_id ≡ d) ⊎ (lookup d s'.devices ≡ lookup d s.devices)
  unfolding grant lease_of
  grant-others s id row {s'} {l} d same e = elim (Option-cases (new_lease_id task bytes)) [
    | inl failed ↦ absurd (ground (arith, ap (λ p. p.1) e))
    | inr (lease_id, drawn) ↦
        let new = leased_row task lease_id (now + secs * second) row in
        let left : record s { devices = insert id new s.devices } ≡ s' =
          ground (arith, ap (λ p. p.0) e) in
        let right : lease_of s new ≡ l = ground (arith, ap (λ p. p.1) e) in
        elim (Bool-cases (id == d)) [
          | inl hit ↦ inl (sym (ap (λ x. x.device_id) right) ∙ same ∙ (eq_iff id d).0 hit)
          | inr miss ↦ inr (
              sym (ap (λ t. lookup d t.devices) left)
              ∙ lookup-insert id d new s.devices
              ∙ rw miss refl)
        ]
  ]

  acquire_device-others :
      (s : MemStore) (ids : List String) {s' : MemStore} {l : Lease} (d : String)
      → IsKeyed s.devices
      → acquire_device s sel task secs now bytes ids ≡ (s', granted l)
      → (l.device_id ≡ d) ⊎ (lookup d s'.devices ≡ lookup d s.devices)
  unfolding acquire_device
  acquire_device-others s [] d k e = absurd (ground (arith, ap (λ p. p.1) e))
  acquire_device-others s (id ∷ ids) d k e = elim (Option-cases (candidate s sel now id)) [
    | inl passed ↦ acquire_device-others s ids d k (rw (passed, acquire_device) at e)
    | inr (row, picked) ↦
        let (there, free, fits) = candidate-some s sel now id row picked in
        grant-others s id row d (k id row there) (rw (picked, acquire_device) at e)
  ]

  -- In a store whose rows stand under their own devices' ids, a lease that AcquireDevice grants is
  -- one of a device that was idle, or busy with a lease whose time had passed, and that meets the
  -- selector. The store then holds that device's row: busy, for the task, with the lease's id, the
  -- next generation, which the lease states, and the flag of a release cleared, expiring when the
  -- asked seconds have passed; its device and its failures are as before, and no row of another
  -- device is touched.
  pub acquire_device-IsLeased :
      (s : MemStore) (ids : List String) (s' : MemStore) (l : Lease)
      → IsKeyed s.devices
      → acquire_device s sel task secs now bytes ids ≡ (s', granted l)
      → IsLeased s sel task secs now s' l
  acquire_device-IsLeased s ids s' l k e =
      let g = acquire_device-IsGrant sel task secs now bytes s ids k e in
      record {
        before = g.row;
        after = leased_row task g.lease_id (now + secs * second) g.row;
        found = g.found;
        free = leasable-free g.row now g.free;
        fits = g.fits;
        stored = g.stored;
        running = refl;
        holder = refl;
        named = sym g.id;
        next = refl;
        generation = g.generation;
        live = refl;
        expires = refl;
        device = refl;
        streak = refl;
        serial = g.serial;
        client = g.client;
        others = λ d. acquire_device-others s ids d k e;
      }
