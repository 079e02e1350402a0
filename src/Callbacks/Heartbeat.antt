-- ===== src/Callbacks/Heartbeat.antt =====
-- The heartbeat (runtime/internal/callbacks/handler.go, heartbeat). A value of the table of capabilities
-- is never nil.
use Prim.Native.String.{◌++◌ as str_append}
use hermes_ai_devops.Common.{
  ℕ, String, Bool, false, not, ◌&&◌, ◌||◌, Option, none, some, List, [], ◌∷◌, map, if◌then◌else◌,
  ◌==◌, string_eq,
}
use hermes_ai_devops.Common.Int.{ℤ, pos, negsuc}
use hermes_ai_devops.Common.Dict.{Dict, lookup}
use hermes_ai_devops.Common.Text.Ascii.{
  to_upper, to_lower, trim_space, has_suffix, has_char, before_char,
}
use hermes_ai_devops.Store.State.{MemStore, Client, Device, TaskRow}
use hermes_ai_devops.Store.Devices.{upsert_client_devices}
use hermes_ai_devops.Store.Leases.{renew_lease}
use hermes_ai_devops.Store.Tasks.{get_task}
use hermes_ai_devops.Callbacks.{Faults, Response, bad_request, store_error, accepted}

-- The tables and the length of a lease that the handler is set up with.
pub record Settings : Type 0 where
  pub lease_sec : ℕ
  pub device_caps : Dict (List String)
  pub soc_aliases : Dict String

pub record ReportedDevice : Type 0 where
  pub serial : String
  pub display_name : String
  pub state : String
  pub os : String
  pub soc : String
  pub abi : String
  pub capabilities : List String
  pub mem_total_mb : Option ℕ
  pub disk_total_mb : Option ℕ
  pub disk_free_mb : Option ℕ

-- A text, an object, or something else.
pub data ActiveTask : Type 0 where
  legacy : String → ActiveTask
  active : (task_id : String) (attempt : ℤ) (lease_id : String) (generation : ℤ) → ActiveTask
  malformed : ActiveTask

pub record HeartbeatReq : Type 0 where
  pub client_id : String
  pub agent_version : String
  pub base_url : String
  pub devices : List ReportedDevice
  pub active_task_ids : List ActiveTask

-- What stands before a semicolon, if there is one.
unfoldable pub strip_alias : String → String
strip_alias s = if has_char b';' s then trim_space (before_char b';' s) else s

unfoldable pub model_name : String → String → String
model_name soc serial = str_append (to_upper soc) (str_append "-" serial)

unfoldable pub suffixed_name : String → String → String → String
suffixed_name name soc serial =
    if (name == "" || not (has_suffix name (str_append "-" serial))) && not (soc == "")
    then model_name soc serial
    else name

-- The SoC and the name that are shown, by the server's table.
unfoldable pub normalize : Settings → ReportedDevice → String × String
normalize h d =
    let soc = strip_alias d.soc in
    let name = suffixed_name (strip_alias d.display_name) soc d.serial in
    elim (lookup (to_lower soc) h.soc_aliases) [
      | some alias ↦ (alias, model_name alias d.serial)
      | none ↦ (soc, if name == "" && not (soc == "") then model_name soc d.serial else name)
    ]

-- The entry of the serial stands before that of the SoC.
unfoldable pub calibrate : Settings → String → String → List String → List String
calibrate h serial soc caps = elim (lookup (to_lower serial) h.device_caps) [
  | some own ↦ own
  | none ↦ elim (lookup (to_lower soc) h.device_caps) [ some shared ↦ shared | none ↦ caps ]
]

unfoldable pub registered_device : Settings → String → ReportedDevice → Device
unfolding normalize calibrate
registered_device h client_id d =
    let (soc, name) = normalize h d in
    record {
      device_id = d.serial;
      serial = d.serial;
      display_name = name;
      client_id = client_id;
      reported_state = d.state;
      os = if d.os == "" then "android" else d.os;
      soc = soc;
      abi = d.abi;
      capabilities = calibrate h d.serial soc d.capabilities;
      mem_total_mb = d.mem_total_mb;
      disk_total_mb = d.disk_total_mb;
      disk_free_mb = d.disk_free_mb;
    }

-- No row has a negative generation, so a lease with one is nobody's.
abbrev pub renew_with :
    MemStore → TaskRow → String → String → ℤ → String → ℤ → ℕ → ℕ → MemStore × Bool
renew_with s row client_id task_id attempt lease_id (negsuc g) secs now = (s, false)
renew_with s row client_id task_id attempt lease_id (pos g) secs now =
    renew_lease s
      (record {
        device_id = row.device_id;
        client_id = client_id;
        task_id = task_id;
        attempt = attempt;
        lease_id = lease_id;
        generation = g;
      })
      secs now

-- The store, the tasks that are not owned any more, and how the loop ended.
pub record Beat : Type 0 where
  pub store : MemStore
  pub not_owned : List String
  pub response : Response

abbrev pub disown : String → Beat → Beat
disown task_id b = record b { not_owned = task_id ∷ b.not_owned }

abbrev pub stopped : MemStore → Response → Beat
stopped s r = record { store = s; not_owned = []; response = r }

-- The loop over the active tasks; the list of a loop that stops at an error is not sent.
unfoldable pub renew_active : Settings → Faults → String → ℕ → List ActiveTask → MemStore → Beat
unfolding renew_lease
renew_active h f client_id now [] s = stopped s accepted
renew_active h f client_id now (legacy t ∷ ts) s = renew_active h f client_id now ts s
renew_active h f client_id now (malformed ∷ ts) s = stopped s (bad_request "bad_heartbeat")
renew_active h f client_id now (active task_id attempt lease_id generation ∷ ts) s =
    let skip = renew_active h f client_id now ts s in
    if task_id == "" || lease_id == ""
    then stopped s (bad_request "bad_heartbeat")
    else if f.get_task_fails task_id
    then stopped s store_error
    else elim (get_task s task_id) [
      | none ↦ skip
      | some row ↦
          let done =
            renew_with s row client_id task_id attempt lease_id generation h.lease_sec now in
          let rest = renew_active h f client_id now ts done.0 in
          if row.device_id == "" || f.renew_fails task_id
          then skip
          else if done.1
          then rest
          else disown task_id rest
    ]

unfoldable pub heartbeat : Settings → Faults → ℕ → Option HeartbeatReq → MemStore → Beat
unfolding registered_device renew_active
heartbeat h f now none s = stopped s (bad_request "bad_heartbeat")
heartbeat h f now (some req) s =
    let client : Client = record {
      client_id = req.client_id;
      host = "";
      version = req.agent_version;
      base_url = req.base_url;
    } in
    let t = upsert_client_devices s client (map (registered_device h req.client_id) req.devices) in
    if req.client_id == ""
    then stopped s (bad_request "bad_heartbeat")
    else if f.upsert_fails
    then stopped s store_error
    else renew_active h f req.client_id now req.active_task_ids t
