-- ===== src/Store/Leases/Release.antt =====
-- What a release leaves behind, and who may renew: the attribution of failures, the announcement of
-- a quarantine, and the agreement of RenewLease, VerifyLease and AcquireDevice on a credential.
use Prim.Native.String.{◌++◌ as str_append}
use hermes_ai_devops.Common.{
  ℕ, ◌+◌, ◌*◌, ◌≤◌, ◌≡◌, refl, ◌≢◌, ◌⊎◌, inl, inr, String, Bool, true, false, Option, none, some,
  List, arith, eq_iff, eq_refl, Bool-cases, Option-cases, ◌∙◌, ap, string_eq, nat_eq, leb,
}
use hermes_ai_devops.Common.Int.{ℤ, pos, int_eq}
use hermes_ai_devops.Common.Text.{itoa, max_int}
use hermes_ai_devops.Common.Text.Decimal.{atoi-itoa, after_last-itoa}
use hermes_ai_devops.Common.Dict.{
  Dict, lookup, insert, get_or, lookup-insert_self, lookup-insert_ne,
}
use hermes_ai_devops.Store.State.{
  MemStore, DeviceRow, idle, quarantined, LeaseCredential, DeviceSelector, Lease, FailScope,
  scope_ok, scope_device, scope_client, scope_none, second,
}
use hermes_ai_devops.Store.Outbox.{has_key, enqueue}
use hermes_ai_devops.Store.Outbox.Keys.{has_key-enqueue}
use hermes_ai_devops.Store.Leases.{
  granted, returned_row, acquire_device, may_release, release_scoped, release_device,
  emit_quarantine_event, quarantine_key, attempt_matches, owns_lease, renew_lease, verify_lease,
}
use hermes_ai_devops.Store.Leases.Settling.{release_scoped-devices, settled_status, settled_streak}
use hermes_ai_devops.Store.Leases.Keyed.{IsKeyed, acquire_device-IsGrant}

-- The client's count of failures after a release.
abbrev settled_clients : FailScope → String → Dict ℕ → Dict ℕ
settled_clients scope_ok client m = insert client 0 m
settled_clients scope_client client m = insert client (get_or client m 0 + 1) m
settled_clients scope_device client m = m
settled_clients scope_none client m = m

-- Does a release put the device out of service?
abbrev quarantines : FailScope → ℕ → ℕ → Bool
quarantines scope_device after streak = leb after (streak + 1)
quarantines _ after streak = false

module _ (s : MemStore) (d task : String) (after now : ℕ) (row : DeviceRow) where
  release_step :
      (scope : FailScope)
      → lookup d s.devices ≡ some row
      → may_release row task ≡ true
      → release_device s d task scope after now
        ≡ release_scoped s d (returned_row row) task scope after now
  unfolding release_device
  release_step scope e may = rw (e, release_device) (rw may)

  scoped_clients :
      (scope : FailScope) (r : DeviceRow)
      → (release_scoped s d r task scope after now).client_fail_streak
        ≡ settled_clients scope r.device.client_id s.client_fail_streak
  unfolding release_scoped emit_quarantine_event enqueue
  scoped_clients scope_ok r = refl
  scoped_clients scope_client r = refl
  scoped_clients scope_none r = refl
  scoped_clients scope_device r = ground arith

  scoped_announced :
      (scope : FailScope) (r : DeviceRow)
      → (quarantines scope after r.fail_streak ≡ true)
      → has_key
          (quarantine_key r.device.device_id task)
          (release_scoped s d r task scope after now).outbox
        ≡ true
  unfolding release_scoped emit_quarantine_event
  scoped_announced scope_ok r q = cc
  scoped_announced scope_client r q = cc
  scoped_announced scope_none r q = cc
  scoped_announced scope_device r q = rw q (has_key-enqueue _ _ now)

  scoped_quiet :
      (scope : FailScope) (r : DeviceRow)
      → (quarantines scope after r.fail_streak ≡ false)
      → (release_scoped s d r task scope after now).outbox ≡ s.outbox
  unfolding release_scoped
  scoped_quiet scope_ok r q = refl
  scoped_quiet scope_client r q = refl
  scoped_quiet scope_none r q = refl
  scoped_quiet scope_device r q = rw q

-- A release by the holder frees the device and charges the failure to the device (out of service at
-- the threshold, with one more failure), to its client, to nobody, or clears both counts, and no
-- other device is touched.
pub release_charges :
    (s : MemStore) (d task : String) (scope : FailScope) (after now : ℕ) (row : DeviceRow)
    (other : String)
    → lookup d s.devices ≡ some row
    → may_release row task ≡ true
    → d ≢ other
    → let t = release_device s d task scope after now in
      (lookup d t.devices
        ≡ some (record (returned_row row) {
          status = settled_status scope after row.fail_streak;
          fail_streak = settled_streak scope row.fail_streak;
        }))
      × (t.client_fail_streak ≡ settled_clients scope row.device.client_id s.client_fail_streak)
      × (lookup other t.devices ≡ lookup other s.devices)
release_charges s d task scope after now row other e may ne =
    rw (release_step s d task after now row scope e may) (
      rw (release_scoped-devices scope s d (returned_row row) task after now) (
        lookup-insert_self d _ s.devices,
        scoped_clients s d task after now row scope (returned_row row),
        lookup-insert_ne d other _ s.devices ne,
      ))

-- A release that puts the device out of service leaves the event of that quarantine in the outbox,
-- in the same step; any other release by the holder leaves the outbox as it was.
pub release_announces :
    (s : MemStore) (d task : String) (scope : FailScope) (after now : ℕ) (row : DeviceRow)
    → lookup d s.devices ≡ some row
    → may_release row task ≡ true
    → let t = release_device s d task scope after now in
      ((settled_status scope after row.fail_streak ≡ quarantined)
        × (has_key (quarantine_key row.device.device_id task) t.outbox ≡ true))
      ⊎ ((settled_status scope after row.fail_streak ≡ idle) × (t.outbox ≡ s.outbox))
release_announces s d task scope after now row e may =
    rw (release_step s d task after now row scope e may)
      (elim (Bool-cases (quarantines scope after row.fail_streak)) [
        | inl q ↦
            inl (
              status_out scope q,
              scoped_announced s d task after now row scope (returned_row row) q,
            )
        | inr n ↦
            inr (status_in scope n, scoped_quiet s d task after now row scope (returned_row row) n)
      ])
  where
    status_out :
        (sc : FailScope)
        → quarantines sc after row.fail_streak ≡ true
        → settled_status sc after row.fail_streak ≡ quarantined
    status_out scope_device q = rw q
    status_out scope_ok q = cc
    status_out scope_client q = cc
    status_out scope_none q = cc

    status_in :
        (sc : FailScope)
        → quarantines sc after row.fail_streak ≡ false
        → settled_status sc after row.fail_streak ≡ idle
    status_in scope_device q = rw q
    status_in scope_ok q = refl
    status_in scope_client q = refl
    status_in scope_none q = refl

release_missing :
    (s : MemStore) (d task : String) (scope : FailScope) (after now : ℕ)
    → lookup d s.devices ≡ none
    → release_device s d task scope after now ≡ s
unfolding release_device
release_missing s d task scope after now e = rw (e, release_device)

release_refused :
    (s : MemStore) (d task : String) (scope : FailScope) (after now : ℕ) (row : DeviceRow)
    → lookup d s.devices ≡ some row
    → may_release row task ≡ false
    → release_device s d task scope after now ≡ s
unfolding release_device
release_refused s d task scope after now row e held = rw (e, release_device) (rw held)

-- A second release of the same lease changes nothing, whatever it says: the failure counts once.
pub release_once :
    (s : MemStore) (d task : String) (scope again : FailScope) (after after' now now' : ℕ)
    → task ≢ ""
    → release_device (release_device s d task scope after now) d task again after' now'
      ≡ release_device s d task scope after now
release_once s d task scope again after after' now now' named =
    elim (Option-cases (lookup d s.devices)) [
      | inl missing ↦
          rw (release_missing s d task scope after now missing)
            (release_missing s d task again after' now' missing)
      | inr (row, there) ↦ elim (Bool-cases (may_release row task)) [
        | inl may ↦ rw (release_step s d task after now row scope there may) (
            release_refused _ d task again after' now' _
              (ap (lookup d) (release_scoped-devices scope s d (returned_row row) task after now)
                ∙ lookup-insert_self d _ s.devices)
              (ground (arith, eq_iff "" task)))
        | inr held ↦
            rw (release_refused s d task scope after now row there held)
              (release_refused s d task again after' now' row there held)
      ]
    ]

-- The checks of VerifyLease and RenewLease agree; a renewal that is granted moves the end of that
-- one lease, and one that is refused changes nothing.
pub renew_iff_verify :
    (s : MemStore) (cred : LeaseCredential) (secs now : ℕ)
    → ((renew_lease s cred secs now).1 ≡ verify_lease s cred)
      × (((verify_lease s cred ≡ false) × ((renew_lease s cred secs now).0 ≡ s))
          ⊎ ((row : DeviceRow) × (lookup cred.device_id s.devices ≡ some row)
              × (verify_lease s cred ≡ true)
              × ((renew_lease s cred secs now).0 ≡ record s {
                devices =
                    insert cred.device_id
                      (record row { lease_expires_at = now + secs * second })
                      s.devices;
              })))
unfolding renew_lease verify_lease
renew_iff_verify s cred secs now = elim (Option-cases (lookup cred.device_id s.devices)) [
  | inl missing ↦ (
    rw (missing, renew_lease, verify_lease),
    inl (rw (missing, verify_lease), rw (missing, renew_lease)),
  )
  | inr (row, there) ↦ elim (Bool-cases (owns_lease row cred)) [
    | inl owns ↦ (
      rw (there, renew_lease, verify_lease) (rw owns),
      inr (row, there, rw (there, verify_lease) owns, rw (there, renew_lease) (rw owns)),
    )
    | inr not_owner ↦ (
      rw (there, renew_lease, verify_lease) (rw not_owner),
      inl (rw (there, verify_lease) not_owner, rw (there, renew_lease) (rw not_owner)),
    )
  ]
]

-- A task id that ends in ":a" and a number matches that attempt and no other.
pub attempt_matches_built :
    (prefix : String) (n : ℕ) (attempt : ℤ)
    → n ≤ max_int
    → attempt_matches (str_append prefix (str_append ":a" (itoa n))) attempt
      ≡ int_eq (pos n) attempt
unfolding attempt_matches
attempt_matches_built prefix n attempt h =
    rw (after_last-itoa prefix n, attempt_matches) (rw (atoi-itoa n h, attempt_matches))

-- The credential that a granted lease carries, sent back with the task id of the workflow and its
-- attempt, is accepted.
pub granted_verifies :
    (s : MemStore) (sel : DeviceSelector) (prefix : String) (n secs now : ℕ)
    (bytes : Option (List ℕ)) (order : List String) (s' : MemStore) (l : Lease)
    → n ≤ max_int
    → IsKeyed s.devices
    → let task = str_append prefix (str_append ":a" (itoa n)) in
      acquire_device s sel task secs now bytes order ≡ (s', granted l)
      → verify_lease s' (record {
        device_id = l.device_id;
        client_id = l.client_id;
        task_id = task;
        attempt = pos n;
        lease_id = l.lease_id;
        generation = l.generation;
      })
        ≡ true
unfolding verify_lease owns_lease
granted_verifies s sel prefix n secs now bytes order s' l h k e =
    let task = str_append prefix (str_append ":a" (itoa n)) in
    let g = acquire_device-IsGrant sel task secs now bytes s order k e in
    rw (g.stored, verify_lease)
      (ground (
        arith,
        g.client,
        g.id,
        g.generation,
        eq_refl task,
        eq_iff g.row.device.client_id l.client_id,
        eq_iff g.lease_id l.lease_id,
        attempt_matches_built prefix n (pos n) h,
      ))
