-- ===== src/Store/Leases/Fencing.antt =====
-- A superseded lease credential is dead: RenewLease and VerifyLease refuse it for ever.
use hermes_ai_devops.Common.{
  ℕ, ◌≤◌, ◌<◌, ◌≡◌, String, false, Option, some, List, [], ◌∷◌, All, arith, eq_iff, sym, subst,
  string_eq, nat_eq,
}
use hermes_ai_devops.Common.Dict.{lookup}
use hermes_ai_devops.Store.State.{MemStore, DeviceRow, LeaseCredential, DeviceSelector, Lease}
use hermes_ai_devops.Store.Leases.{granted, acquire_device, owns_lease, renew_lease, verify_lease}
use hermes_ai_devops.Store.Leases.Steps.{
  Op, Move, refreshed, dropped, claimed, leased, returned, renewed, isolated, restored, run,
}
use hermes_ai_devops.Store.Leases.Evolution.{run-Has}
use hermes_ai_devops.Store.Leases.Keyed.{IsKeyed, acquire_device-IsGrant}

Move-generation :
    {d : String} {op : Op} (g : ℕ) (q r : DeviceRow)
    → Move d op q r
    → g ≤ q.lease_generation
    → g ≤ r.lease_generation
Move-generation g _ _ (refreshed c devs dev r) h = h
Move-generation g _ _ (dropped c devs r e) h = h
Move-generation g _ _ (claimed sel task secs now bytes order r e) h = h
Move-generation g _ _ (leased sel task secs now bytes order r id e f k) h = omega arith
Move-generation g _ _ (returned id task scope after now r st n e f k) h = h
Move-generation g _ _ (renewed cred secs now r e f) h = h
Move-generation g _ _ (isolated id r e f) h = h
Move-generation g _ _ (restored id r e) h = h

owns_lease_stale :
    (row : DeviceRow) (cred : LeaseCredential)
    → cred.generation < row.lease_generation
    → owns_lease row cred ≡ false
unfolding owns_lease
owns_lease_stale row cred h = ground (
  arith,
  eq_iff row.device.client_id cred.client_id,
  eq_iff row.lease_task_id cred.task_id,
  eq_iff row.lease_id cred.lease_id,
)

stale_refused :
    (s : MemStore) (cred : LeaseCredential) (secs now : ℕ) (row : DeviceRow)
    → lookup cred.device_id s.devices ≡ some row
    → cred.generation < row.lease_generation
    → (verify_lease s cred ≡ false) × (renew_lease s cred secs now ≡ (s, false))
unfolding verify_lease renew_lease
stale_refused s cred secs now row e h = (
  rw (e, verify_lease) (owns_lease_stale row cred h),
  rw (e, renew_lease) (rw (owns_lease_stale row cred h)),
)

-- Once a device has been leased anew, every credential of an earlier generation for it is refused by
-- VerifyLease and by RenewLease, which then changes nothing, after any calls whatever.
pub superseded_refused :
    (s : MemStore) (sel : DeviceSelector) (task : String) (secs now : ℕ) (bytes : Option (List ℕ))
    (order : List String) (s' : MemStore) (l : Lease) (ops : List Op) (cred : LeaseCredential)
    (later_secs later : ℕ)
    → IsKeyed s.devices
    → acquire_device s sel task secs now bytes order ≡ (s', granted l)
    → cred.device_id ≡ l.device_id
    → cred.generation < l.generation
    → let t = run s' ops in
      (verify_lease t cred ≡ false) × (renew_lease t cred later_secs later ≡ (t, false))
superseded_refused s sel task secs now bytes order s' l ops cred later_secs later k e same old =
    let g = acquire_device-IsGrant sel task secs now bytes s order k e in
    let (row, found, high) =
      run-Has l.device_id (λ r. l.generation ≤ r.lease_generation) (λ op. Unit {0})
        (λ op q r ok m. Move-generation l.generation q r m) ops s' (all_unit ops)
        (_, g.stored, omega (arith, g.generation)) in
    stale_refused (run s' ops) cred later_secs later row
      (subst (λ i. lookup i (run s' ops).devices ≡ some row) (sym same) found) (omega arith)
  where
    all_unit : (ops : List Op) → All (λ op. Unit {0}) ops
    all_unit [] = tt
    all_unit (op ∷ ops) = (tt, all_unit ops)
