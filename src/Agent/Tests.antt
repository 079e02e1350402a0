-- ===== src/Agent/Tests.antt =====
-- Runs of the agent on a sample device, and the theorems applied to them.
use hermes_ai_devops.Common.{
  ◌≡◌, refl, ◌⊎◌, true, false, none, some, List, [], ◌∷◌, ◌++◌, length, suc, arith, if◌then◌else◌,
  ◌==◌,
}
use hermes_ai_devops.Common.Int.{pos}
use hermes_ai_devops.Common.Text.{codes, atoi}
use hermes_ai_devops.Agent.Text.{
  Text, text_eq, cut, path_clean, path_join, path_dir, split, fields, trim_space, path_base,
}
use hermes_ai_devops.Agent.Adb.{
  ListedDevice, Command, get_prop, devices, shell_list_glob, get_state, shell_remove_all, show_args,
  target_for, read_pairs, read_device, parse_device_list,
}
use hermes_ai_devops.Agent.Adb.Quoting.{read_words, read_words-show_args}
use hermes_ai_devops.Agent.Run.{
  remote_exit, Status, preparing, downloading, deploying, running, collecting, completed, Event,
  Env, Ran, manifest, Manifest, Options, Agent, ok, err, Failure, invoke, no_space,
}
use hermes_ai_devops.Agent.Blame.{classify_failure, known_scope, liveness_scope, is_error}
use hermes_ai_devops.Agent.Blame.Evidence.{IsGone, IsOpen, IsClean, classify_failure-device}
use hermes_ai_devops.Agent.Deploy.{require_files_present}
use hermes_ai_devops.Agent.Quiet.{statuses, hist}
use hermes_ai_devops.Agent.Execute.{Executed, pipeline, start, execute}
use hermes_ai_devops.Agent.Execute.LostSerial.{KnowsListed, execute-lost_serial}
use hermes_ai_devops.Agent.Execute.Lifecycle.{may_follow}
use hermes_ai_devops.Agent.Execute.Lifecycle.Whole.{Reported, execute-Trail}
use hermes_ai_devops.Agent.Execute.Success.{Met, execute-Met}

cleans_path : path_clean (codes "/a/./b/../c//d/") ≡ codes "/a/c/d"
unfolding path_clean split
cleans_path = refl

joins_path : path_join (codes "/data/x") (codes "lib/../bin") ≡ codes "/data/x/bin"
unfolding path_join split
joins_path = refl

finds_dir : path_dir (codes "/data/x/run.sh") ≡ codes "/data/x"
unfolding path_dir split
finds_dir = refl

finds_fields : fields (codes "  ab  c ") ≡ codes "ab" ∷ codes "c" ∷ []
unfolding fields
finds_fields = refl

abbrev pub answered : Text → Ran
answered out = record { stdout = out; exit_code = pos 0; error = none }

-- A device with the serial S1 behind the transport 3.
abbrev pub sample_reply : List Event → Command → Ran
sample_reply done devices =
    answered (codes "List of devices attached" ++ 10 ∷ codes "S1 device transport_id:3")
sample_reply done (get_prop t p) = answered (codes "arm64-v8a")
sample_reply done (shell_list_glob t dir pattern) = answered (codes "out.json")
sample_reply done c = answered []

-- adb works, but the device is gone.
abbrev gone_reply : List Event → Command → Ran
gone_reply done (get_state t) = record { stdout = []; exit_code = pos 1; error = none }
gone_reply done c = answered []

-- The device is there, under a transport id only; it cannot be written.
abbrev lost_reply : List Event → Command → Ran
lost_reply done devices = answered (codes "? device transport_id:3")
lost_reply done (get_state t) =
    if t.serial == []
    then answered (codes "device")
    else record { stdout = []; exit_code = pos 1; error = none }
lost_reply done (get_prop t p) =
    if p == codes "ro.serialno" then answered (codes "S1") else answered (codes "arm64-v8a")
lost_reply done (shell_remove_all t dir) = record { stdout = []; exit_code = pos 1; error = none }
lost_reply done c = answered []

abbrev pub sample_manifest : Manifest
sample_manifest = record {
  os = codes "android";
  abi = codes "arm64-v8a";
  soc = [];
  min_free_storage_mb = 0;
  workdir = codes "/data/w";
  files = [];
  env = [];
  entry = codes "run.sh";
  args = codes "it's" ∷ [];
  timeout_sec = 60;
  success_exit_code = pos 0;
  require_files = codes "out.json" ∷ [];
  collect = codes "*.json" ∷ [];
  remove_workdir = true;
  keep_on_failure = false;
}

abbrev pub env_of : (List Event → Command → Ran) → Env
env_of reply = record {
  reply = reply;
  out_dir_error = none;
  download_error = none;
  package_error = none;
  extract_error = none;
  loaded = manifest sample_manifest;
  file_error = λ f. none;
  local_dir_ok = λ d. true;
  has_local_file = λ f. true;
  cancel_from = 9;
  soc_aliases = [];
}

abbrev pub sample_options : Options
sample_options = record {
  package_path = [];
  package_url = codes "http://x";
  sha256 = codes "ab";
  serial = codes "S1";
  keep_workdir_override = none;
}

passes : (execute (env_of sample_reply) sample_options).summary.success_criteria_met ≡ true
unfolding execute split fields read_device read_pairs trim_space path_dir path_base path_join
    parse_device_list cut atoi require_files_present
passes = refl

goes_through :
    hist (execute (env_of sample_reply) sample_options).agent
    ≡ completed ∷ collecting ∷ running ∷ deploying ∷ preparing ∷ downloading ∷ []
unfolding execute split fields read_device read_pairs trim_space path_dir path_base path_join
    statuses parse_device_list cut atoi require_files_present
goes_through = refl

execute-Trail_example :
    (let r : Executed = execute (env_of sample_reply) sample_options in
      Reported r × ((s : Status) → may_follow (some r.summary.status) s ≡ false))
execute-Trail_example = execute-Trail (env_of sample_reply) sample_options

execute-Met_example :
    Met
      (env_of sample_reply)
      (execute (env_of sample_reply) sample_options).summary.status
      (execute (env_of sample_reply) sample_options).summary.exit_code
execute-Met_example = execute-Met (env_of sample_reply) sample_options passes

read_words-show_args_example :
    read_words
      (suc (length (codes "it's" ∷ codes "a b" ∷ [])))
      (show_args (codes "it's" ∷ codes "a b" ∷ []))
    ≡ some (codes "it's" ∷ codes "a b" ∷ [])
read_words-show_args_example = read_words-show_args (codes "it's" ∷ codes "a b" ∷ [])

abbrev idle_agent : Agent
idle_agent = record { events = []; environment = [] }

blames_device :
    (classify_failure {E = Failure}
      (env_of gone_reply)
      (target_for (codes "S1") (pos 0))
      (codes "deploy")
      []
      idle_agent).0
    ≡ ok (codes "device")
unfolding classify_failure liveness_scope known_scope invoke parse_device_list read_device
blames_device = refl

classify_failure-device_example :
    ((is_error [] no_space ≡ true)
      ⊎ (IsGone (env_of gone_reply) (target_for (codes "S1") (pos 0)) idle_agent
          × IsOpen (codes "deploy") []))
    × IsClean []
classify_failure-device_example =
    classify_failure-device (env_of gone_reply) (target_for (codes "S1") (pos 0)) (codes "deploy")
      [] idle_agent blames_device

abbrev lost_device : ListedDevice
lost_device = record {
  serial = codes "?";
  transport_id = pos 3;
  product = [];
  model = [];
  state = codes "device";
}

lists_lost : parse_device_list (codes "? device transport_id:3") ≡ lost_device ∷ []
unfolding parse_device_list read_device read_pairs cut fields split atoi
lists_lost = refl

plain_at_deploy : known_scope (codes "deploy") (remote_exit ∷ []) ≡ none
unfolding known_scope
plain_at_deploy = refl

knows_listed : KnowsListed (env_of lost_reply)
unfolding target_for
knows_listed log serial alive = absurd (ground (arith, alive))

abbrev lost_agent : Agent
lost_agent = (pipeline (env_of lost_reply) sample_options (start sample_options)).1

fails_to_deploy :
    pipeline (env_of lost_reply) sample_options (start sample_options)
    ≡ (err (codes "deploy", remote_exit ∷ []), lost_agent)
unfolding pipeline split fields read_device read_pairs trim_space path_dir path_base path_join
    parse_device_list cut atoi
fails_to_deploy = refl

execute-lost_serial_example :
    ((execute (env_of lost_reply) sample_options).summary.failure_scope ≡ codes "device")
    × ((classify_failure {E = Failure}
          (env_of lost_reply)
          (target_for (codes "?") (pos 3))
          (codes "deploy")
          (remote_exit ∷ [])
          lost_agent).0
        ≡ ok (codes "none"))
execute-lost_serial_example =
    execute-lost_serial (env_of lost_reply) sample_options lost_device 2 (codes "deploy")
      (remote_exit ∷ []) lost_agent knows_listed (λ log. (refl, lists_lost)) (refl, refl, refl)
      (refl, refl) fails_to_deploy plain_at_deploy
