-- ===== src/Store/Leases/Evolution.antt =====
-- Every call moves the rows of devices along the allowed moves only.
use hermes_ai_devops.Common.{
  ℕ, ◌≡◌, refl, ◌≢◌, inl, inr, String, true, Option, some, List, [], ◌∷◌, arith, eq_iff, ◌==◌,
  string_eq, Bool-cases, Option-cases, ◌∙◌, ap, subst, map, not, ◌&&◌, contains, All,
}
use mathlib.Core.Option
use hermes_ai_devops.Common.Dict.{
  Dict, lookup, insert, lookup-insert, lookup-insert_ne, lookup-map_entries,
}
use hermes_ai_devops.Store.State.{
  MemStore, Client, Device, DeviceRow, LeaseCredential, DeviceSelector, FailScope,
}
use hermes_ai_devops.Store.Devices.{
  is_idle, is_busy, drop_absent, upsert_device, upsert_devices, upsert_client_devices,
  match_selector, quarantine_device, unquarantine_device,
}
use hermes_ai_devops.Store.Leases.{
  leasable, candidate, grant, acquire_device, returned_row, may_release, release_device, owns_lease,
  renew_lease, new_lease_id,
}
use hermes_ai_devops.Store.Leases.Steps.{
  Op, heartbeat, acquire, release, renew, quarantine, unquarantine, step, run, Move, refreshed,
  dropped, claimed, leased, returned, renewed, isolated, restored, Moves, still, next, Moves-trans,
  Evolves,
}
use hermes_ai_devops.Store.Leases.Settling.{settled_status-ne-busy, release_scoped-devices}

module _ {d : String} {op : Op} {r : DeviceRow} where
  -- A write to a row that is there: a move if it is the row of the device, nothing otherwise.
  Evolves-insert :
      (m : Dict DeviceRow) (id : String) (row new : DeviceRow)
      → lookup d m ≡ some r
      → lookup id m ≡ some row
      → (id ≡ d → Move d op row new)
      → Evolves d op (insert id new m) r
  Evolves-insert m id row new e there move = elim (Bool-cases (id == d)) [
    | inl same ↦
        let at : row ≡ r = cc ((eq_iff id d).0 same) in
        (
          new,
          rw (lookup-insert id d new m, same) refl,
          next (subst (λ q. Move d op q new) at (move ((eq_iff id d).0 same))) still,
        )
    | inr other ↦ (r, rw (lookup-insert id d new m, other) e, still)
  ]

  Evolves-trans :
      (m m' : Dict DeviceRow)
      → Evolves d op m r
      → ((r' : DeviceRow) → lookup d m ≡ some r' → Evolves d op m' r')
      → Evolves d op m' r
  Evolves-trans m m' (q, e, moves) onward =
      let (t, found, more) = onward q e in (t, found, Moves-trans moves more)

module _ (d : String) (c : Client) (devs : List Device) where
  upsert_device-Evolves :
      (m : Dict DeviceRow) (dev : Device) (r : DeviceRow)
      → lookup d m ≡ some r
      → Evolves d (heartbeat c devs) (upsert_device m dev) r
  unfolding upsert_device
  upsert_device-Evolves m dev r e = elim (Option-cases (lookup dev.device_id m)) [
    | inl missing ↦
        let other : dev.device_id ≢ d = λ same. cc (same, missing, e) in
        rw (missing, upsert_device) (r, lookup-insert_ne dev.device_id d _ m other ∙ e, still)
    | inr (row, there) ↦
        rw (there, upsert_device)
          (Evolves-insert m dev.device_id row _ e there (λ _. refreshed c devs dev row))
  ]

  upsert_devices-Evolves :
      (ds : List Device) (m : Dict DeviceRow) (r : DeviceRow)
      → lookup d m ≡ some r
      → Evolves d (heartbeat c devs) (upsert_devices m ds) r
  unfolding upsert_devices
  upsert_devices-Evolves [] m r e = (r, e, still)
  upsert_devices-Evolves (dev ∷ ds) m r e =
      Evolves-trans (upsert_device m dev) _ (upsert_device-Evolves m dev r e)
        (upsert_devices-Evolves ds (upsert_device m dev))

  drop_absent-Moves : (r : DeviceRow) → Moves d (heartbeat c devs) r (drop_absent c devs d r)
  drop_absent-Moves r =
      elim (Bool-cases (
        r.device.client_id == c.client_id
        && is_idle r.status
        && not (contains d (map (λ d'. d'.device_id) devs)))) [
          | inl t ↦ rw t (next (dropped c devs r (ground arith)) still)
          | inr f ↦ rw f still
        ]

  heartbeat-Evolves :
      (s : MemStore) (r : DeviceRow)
      → lookup d s.devices ≡ some r
      → Evolves d (heartbeat c devs) (upsert_client_devices s c devs).devices r
  unfolding upsert_client_devices
  heartbeat-Evolves s r e =
      let (q, found, moves) = upsert_devices-Evolves devs s.devices r e in
      (
        drop_absent c devs d q,
        lookup-map_entries (drop_absent c devs) d _ ∙ ap (Option.map (drop_absent c devs d)) found,
        Moves-trans moves (drop_absent-Moves q),
      )

-- A candidate is in the map, may be leased at the time, and meets the selector.
pub candidate-some :
    (s : MemStore) (sel : DeviceSelector) (now : ℕ) (id : String) (row : DeviceRow)
    → candidate s sel now id ≡ some row
    → (lookup id s.devices ≡ some row)
      × (leasable row now ≡ true)
      × (match_selector row.device sel ≡ true)
unfolding candidate
candidate-some s sel now id row e = ground arith

module _ (d : String) (sel : DeviceSelector) (task : String) (secs now : ℕ)
    (bytes : Option (List ℕ)) (order : List String) where
  grant-Evolves :
      (s : MemStore) (id : String) (row r : DeviceRow)
      → candidate s sel now id ≡ some row
      → lookup d s.devices ≡ some r
      → Evolves d
          (acquire sel task secs now bytes order)
          (grant s id row task secs now bytes).0.devices
          r
  unfolding grant
  grant-Evolves s id row r picked e =
      let (there, free, fits) = candidate-some s sel now id row picked in
      elim (Option-cases (new_lease_id task bytes)) [
        | inl failed ↦
            rw (failed, grant)
              (Evolves-insert s.devices id row _ e there
                (λ _. claimed sel task secs now bytes order row free))
        | inr (lease_id, drawn) ↦
            rw (drawn, grant)
              (Evolves-insert s.devices id row _ e there
                (λ _. leased sel task secs now bytes order row lease_id free fits drawn))
      ]

  acquire-Evolves :
      (ids : List String) (s : MemStore) (r : DeviceRow)
      → lookup d s.devices ≡ some r
      → Evolves d
          (acquire sel task secs now bytes order)
          (acquire_device s sel task secs now bytes ids).0.devices
          r
  unfolding acquire_device
  acquire-Evolves [] s r e = (r, e, still)
  acquire-Evolves (id ∷ ids) s r e = elim (Option-cases (candidate s sel now id)) [
    | inl passed ↦ rw (passed, acquire_device) (acquire-Evolves ids s r e)
    | inr (row, picked) ↦ rw (picked, acquire_device) (grant-Evolves s id row r picked e)
  ]

module _ (d : String) where
  release-Evolves :
      (s : MemStore) (id task : String) (scope : FailScope) (after now : ℕ) (r : DeviceRow)
      → lookup d s.devices ≡ some r
      → Evolves d
          (release id task scope after now)
          (release_device s id task scope after now).devices
          r
  unfolding release_device
  release-Evolves s id task scope after now r e = elim (Option-cases (lookup id s.devices)) [
    | inl missing ↦ rw (missing, release_device) (r, e, still)
    | inr (row, there) ↦ elim (Bool-cases (may_release row task)) [
      | inl may ↦
          rw (there, release_device)
            (rw (may, release_scoped-devices scope s id (returned_row row) task after now)
              (Evolves-insert s.devices id row _ e there (λ same.
                returned id task scope after now row _ _ same may
                  (settled_status-ne-busy scope after row.fail_streak))))
      | inr held ↦ rw (there, release_device) (rw held (r, e, still))
    ]
  ]

  renew-Evolves :
      (s : MemStore) (cred : LeaseCredential) (secs now : ℕ) (r : DeviceRow)
      → lookup d s.devices ≡ some r
      → Evolves d (renew cred secs now) (renew_lease s cred secs now).0.devices r
  unfolding renew_lease
  renew-Evolves s cred secs now r e = elim (Option-cases (lookup cred.device_id s.devices)) [
    | inl missing ↦ rw (missing, renew_lease) (r, e, still)
    | inr (row, there) ↦ elim (Bool-cases (owns_lease row cred)) [
      | inl owns ↦
          rw (there, renew_lease)
            (rw owns (
              Evolves-insert s.devices cred.device_id row _ e there
                (λ same. renewed cred secs now row same owns)))
      | inr not_owner ↦ rw (there, renew_lease) (rw not_owner (r, e, still))
    ]
  ]

  quarantine-Evolves :
      (s : MemStore) (id : String) (r : DeviceRow)
      → lookup d s.devices ≡ some r
      → Evolves d (quarantine id) (quarantine_device s id).0.devices r
  unfolding quarantine_device
  quarantine-Evolves s id r e = elim (Option-cases (lookup id s.devices)) [
    | inl missing ↦ rw (missing, quarantine_device) (r, e, still)
    | inr (row, there) ↦ elim (Bool-cases (is_busy row.status)) [
      | inl running ↦ rw (there, quarantine_device) (rw running (r, e, still))
      | inr free ↦
          rw (there, quarantine_device)
            (rw free
              (Evolves-insert s.devices id row _ e there (λ same. isolated id row same free)))
    ]
  ]

  unquarantine-Evolves :
      (s : MemStore) (id : String) (r : DeviceRow)
      → lookup d s.devices ≡ some r
      → Evolves d (unquarantine id) (unquarantine_device s id).0.devices r
  unfolding unquarantine_device
  unquarantine-Evolves s id r e = elim (Option-cases (lookup id s.devices)) [
    | inl missing ↦ rw (missing, unquarantine_device) (r, e, still)
    | inr (row, there) ↦
        rw (there, unquarantine_device)
          (Evolves-insert s.devices id row _ e there (λ same. restored id row same))
  ]

  -- Every call takes the row of every device along the moves that its kind allows: a device is never
  -- forgotten, and no call reaches a row but by these moves.
  pub step-Evolves :
      (s : MemStore) (op : Op) (r : DeviceRow)
      → lookup d s.devices ≡ some r
      → Evolves d op (step s op).devices r
  unfolding step
  step-Evolves s (heartbeat c devs) r e = heartbeat-Evolves d c devs s r e
  step-Evolves s (acquire sel task secs now bytes order) r e =
      acquire-Evolves d sel task secs now bytes order order s r e
  step-Evolves s (release id task scope after now) r e =
      release-Evolves s id task scope after now r e
  step-Evolves s (renew cred secs now) r e = renew-Evolves s cred secs now r e
  step-Evolves s (quarantine id) r e = quarantine-Evolves s id r e
  step-Evolves s (unquarantine id) r e = unquarantine-Evolves s id r e

  -- The device has a row with the property.
  abbrev pub Has : (DeviceRow → Type 0) → MemStore → Type 0
  Has P s = (r : DeviceRow) × (lookup d s.devices ≡ some r) × P r

  Moves-keep :
      (P : DeviceRow → Type 0) {op : Op}
      → ((q r : DeviceRow) → Move d op q r → P q → P r)
      → {q r : DeviceRow} → Moves d op q r
      → P q
      → P r
  Moves-keep P keep still h = h
  Moves-keep P keep (next {q} {r} m ms) h = Moves-keep P keep ms (keep q r m h)

  -- What every allowed move keeps, a trace of allowed calls keeps.
  pub run-Has :
      (P : DeviceRow → Type 0) (Allowed : Op → Type 0)
      → ((op : Op) (q r : DeviceRow) → Allowed op → Move d op q r → P q → P r)
      → (ops : List Op) (s : MemStore) → All Allowed ops
      → Has P s
      → Has P (run s ops)
  unfolding run
  run-Has P Allowed keep [] s ok h = h
  run-Has P Allowed keep (op ∷ ops) s (ok, oks) (r, e, p) =
      let (r', found, moves) = step-Evolves s op r e in
      run-Has P Allowed keep ops (step s op) oks
        (r', found, Moves-keep P (λ a b. keep op a b ok) moves p)
