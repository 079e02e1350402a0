-- ===== src/Callbacks/Renewals.antt =====
-- Which tasks a heartbeat reports as not owned (runtime/internal/callbacks/handler.go, heartbeat).
use hermes_ai_devops.Common.{
  ℕ, ◌+◌, ◌*◌, ◌≡◌, refl, sym, ap, String, Bool, true, false, ◌||◌, Option, none, some, List, [],
  ◌∷◌, map, if◌then◌else◌, ◌==◌, string_eq, arith, Option-cases, inl, inr, eq_iff,
}
use hermes_ai_devops.Common.Int.{ℤ, pos, negsuc}
use hermes_ai_devops.Common.Dict.{lookup, lookup-insert}
use hermes_ai_devops.Store.State.{MemStore, DeviceRow, LeaseCredential, TaskRow, second}
use hermes_ai_devops.Store.Devices.{upsert_client_devices}
use hermes_ai_devops.Store.Leases.{owns_lease, renew_lease, verify_lease}
use hermes_ai_devops.Store.Tasks.{get_task}
use hermes_ai_devops.Callbacks.{Faults, accepted}
use hermes_ai_devops.Callbacks.Heartbeat.{
  Settings, HeartbeatReq, registered_device, heartbeat, ActiveTask, legacy, active, malformed,
  renew_with, renew_active,
}

-- A renewal does not change who owns which lease.
pub renew_lease-verify_lease :
    (s : MemStore) (c d : LeaseCredential) (secs now : ℕ)
    → verify_lease (renew_lease s c secs now).0 d ≡ verify_lease s d
unfolding renew_lease verify_lease owns_lease
renew_lease-verify_lease s c d secs now = elim (Option-cases (lookup c.device_id s.devices)) [
  | inl missing ↦ rw (missing, renew_lease) refl
  | inr (row, there) ↦
      let renewed : DeviceRow = record row { lease_expires_at = now + secs * second } in
      ground (
        arith,
        there,
        eq_iff c.device_id d.device_id,
        lookup-insert c.device_id d.device_id renewed s.devices,
      )
]

renew_lease-get_task :
    (s : MemStore) (c : LeaseCredential) (secs now : ℕ) (id : String)
    → get_task (renew_lease s c secs now).0 id ≡ get_task s id
unfolding renew_lease get_task
renew_lease-get_task s c secs now id = ground arith

-- Is the task of an entry left alone: it is unknown, has no device, its renewal fails, or the
-- credential of the entry holds the lease?
abbrev pub is_left : Faults → String → MemStore → String → ℤ → String → ℤ → Option TaskRow → Bool
is_left f client_id s task_id attempt lease_id generation none = true
is_left f client_id s task_id attempt lease_id (negsuc g) (some row) =
    row.device_id == "" || f.renew_fails task_id
is_left f client_id s task_id attempt lease_id (pos g) (some row) =
    row.device_id == ""
    || f.renew_fails task_id
    || verify_lease s (record {
      device_id = row.device_id;
      client_id = client_id;
      task_id = task_id;
      attempt = attempt;
      lease_id = lease_id;
      generation = g;
    })

-- What the loop reports, computed from the store as it is when the loop begins.
unfoldable pub unowned : Faults → String → MemStore → List ActiveTask → List String
unowned f client_id s [] = []
unowned f client_id s (legacy t ∷ ts) = unowned f client_id s ts
unowned f client_id s (malformed ∷ ts) = unowned f client_id s ts
unowned f client_id s (active task_id attempt lease_id generation ∷ ts) =
    let rest = unowned f client_id s ts in
    if is_left f client_id s task_id attempt lease_id generation (get_task s task_id)
    then rest
    else task_id ∷ rest

module _ (f : Faults) (client_id : String) (s t : MemStore)
    (same_tasks : (id : String) → get_task t id ≡ get_task s id)
    (same_leases : (c : LeaseCredential) → verify_lease t c ≡ verify_lease s c) where
  is_left-same :
      (task_id : String) (attempt : ℤ) (lease_id : String) (generation : ℤ) (row : Option TaskRow)
      → is_left f client_id t task_id attempt lease_id generation row
        ≡ is_left f client_id s task_id attempt lease_id generation row
  is_left-same task_id attempt lease_id generation none = refl
  is_left-same task_id attempt lease_id (negsuc g) (some row) = refl
  is_left-same task_id attempt lease_id (pos g) (some row) =
      ap (λ b. row.device_id == "" || f.renew_fails task_id || b) (same_leases _)

  unowned-same : (ts : List ActiveTask) → unowned f client_id t ts ≡ unowned f client_id s ts
  unfolding unowned
  unowned-same [] = refl
  unowned-same (legacy x ∷ ts) = unowned-same ts
  unowned-same (malformed ∷ ts) = unowned-same ts
  unowned-same (active task_id attempt lease_id generation ∷ ts) =
      let rest = unowned-same ts in
      rw
        (
          same_tasks task_id,
          is_left-same task_id attempt lease_id generation (get_task s task_id),
          rest,
        )
        refl

module _ (h : Settings) (f : Faults) (client_id : String) (now : ℕ) where
  renew_with-unowned :
      (s : MemStore) (row : TaskRow) (task_id : String) (attempt : ℤ) (lease_id : String)
      (generation : ℤ) (ts : List ActiveTask)
      → unowned f client_id
          (renew_with s row client_id task_id attempt lease_id generation h.lease_sec now).0
          ts
        ≡ unowned f client_id s ts
  renew_with-unowned s row task_id attempt lease_id (negsuc g) ts = refl
  renew_with-unowned s row task_id attempt lease_id (pos g) ts =
      unowned-same f client_id s _ (renew_lease-get_task s _ h.lease_sec now)
        (λ d. renew_lease-verify_lease s _ d h.lease_sec now) ts

  renew_lease_says :
      (s : MemStore) (c : LeaseCredential) → (renew_lease s c h.lease_sec now).1 ≡ verify_lease s c
  unfolding renew_lease verify_lease
  renew_lease_says s c = ground arith

  renew_with-is_left :
      (s : MemStore) (row : TaskRow) (task_id : String) (attempt : ℤ) (lease_id : String)
      (generation : ℤ)
      → row.device_id == "" || f.renew_fails task_id ≡ false
      → (renew_with s row client_id task_id attempt lease_id generation h.lease_sec now).1
        ≡ is_left f client_id s task_id attempt lease_id generation (some row)
  renew_with-is_left s row task_id attempt lease_id (negsuc g) bound = sym bound
  renew_with-is_left s row task_id attempt lease_id (pos g) bound = rw bound (renew_lease_says s _)

  is_left_unbound :
      (s : MemStore) (row : TaskRow) (task_id : String) (attempt : ℤ) (lease_id : String)
      (generation : ℤ)
      → row.device_id == "" || f.renew_fails task_id ≡ true
      → is_left f client_id s task_id attempt lease_id generation (some row) ≡ true
  is_left_unbound s row task_id attempt lease_id (negsuc g) unbound = unbound
  is_left_unbound s row task_id attempt lease_id (pos g) unbound = rw unbound refl

  pub renew_active-unowned :
      (ts : List ActiveTask) (s : MemStore)
      → (renew_active h f client_id now ts s).response ≡ accepted
      → (renew_active h f client_id now ts s).not_owned ≡ unowned f client_id s ts
  unfolding renew_active unowned
  renew_active-unowned [] s done = refl
  renew_active-unowned (legacy x ∷ ts) s done = renew_active-unowned ts s done
  renew_active-unowned (malformed ∷ ts) s done = absurd (ground (arith, done))
  renew_active-unowned (active task_id attempt lease_id generation ∷ ts) s done =
      elim (Option-cases (get_task s task_id)) [
        | inl absent ↦ ground (arith, done, absent, renew_active-unowned ts s)
        | inr (row, there) ↦
            let t : MemStore =
              (renew_with s row client_id task_id attempt lease_id generation h.lease_sec now).0 in
            ground (
              arith,
              done,
              there,
              renew_active-unowned ts s,
              renew_active-unowned ts t,
              renew_with-unowned s row task_id attempt lease_id generation ts,
              renew_with-is_left s row task_id attempt lease_id generation,
              is_left_unbound s row task_id attempt lease_id generation,
            )
      ]

-- A heartbeat that is accepted reports as not owned the tasks of exactly those entries whose credential
-- did not hold the lease when the heartbeat's devices had been written, in their order: a renewal of
-- one entry does not decide on another. A task that is unknown or has no device, or whose renewal
-- fails, is not reported.
pub heartbeat_not_owned :
    (h : Settings) (f : Faults) (now : ℕ) (req : HeartbeatReq) (s : MemStore)
    → (heartbeat h f now (some req) s).response ≡ accepted
    → (heartbeat h f now (some req) s).not_owned
      ≡ unowned f req.client_id
          (upsert_client_devices s
            (record {
              client_id = req.client_id;
              host = "";
              version = req.agent_version;
              base_url = req.base_url;
            })
            (map (registered_device h req.client_id) req.devices))
          req.active_task_ids
unfolding heartbeat
heartbeat_not_owned h f now req s done =
    let t : MemStore =
      upsert_client_devices s
        (record {
          client_id = req.client_id;
          host = "";
          version = req.agent_version;
          base_url = req.base_url;
        })
        (map (registered_device h req.client_id) req.devices) in
    ground (arith, done, renew_active-unowned h f req.client_id now req.active_task_ids t)
