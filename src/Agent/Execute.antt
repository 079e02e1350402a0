-- ===== src/Agent/Execute.antt =====
-- The pipeline (agent/internal/executor/executor.go, Execute). A failure carries its stage.
pub mod Lifecycle
pub mod LostSerial
pub mod Success
use hermes_ai_devops.Common.{
  ℕ, ◌≡◌, Bool, true, false, not, ◌&&◌, ◌||◌, Option, none, some, List, [], ◌∷◌, if◌then◌else◌,
  ◌==◌,
}
use hermes_ai_devops.Common.Int.{ℤ, pos, negsuc, int_eq}
use hermes_ai_devops.Common.Text.{codes}
use hermes_ai_devops.Agent.Text.{Text, text_eq}
use hermes_ai_devops.Agent.Adb.{Target, target_for}
use hermes_ai_devops.Agent.Run.{
  Status, preparing, downloading, deploying, running, collecting, completed, failed, timeout,
  canceled, plain, Failure, File, Manifest, Options, Summary, became, wrote_summary, bad_manifest,
  manifest, Loaded, Env, Agent, Result, ok, err, Act, pure, raise, on_error, note, raise_some,
  ◌>>=◌, ◌>>◌,
}
use hermes_ai_devops.Agent.Blame.{classify_failure}
use hermes_ai_devops.Agent.Locate.{resolve_transport}
use hermes_ai_devops.Agent.Precheck.{precheck}
use hermes_ai_devops.Agent.Deploy.{
  deploy, requested, RunEnd, run_entry, collect, dump_logcat, cleanup_device, require_files_present,
}

abbrev pub Staged : Type 0
Staged = Text × Failure

abbrev pub at_stage : {A : Type 0} → Text → Act Failure A → Act Staged A
at_stage stage m = on_error (λ e. (stage, e)) m

abbrev pub transition : {E : Type 0} → Status → Act E (Unit {0})
transition to = note (became to)

-- How the pipeline ends without a failure.
pub record End : Type 0 where
  pub final : Status
  pub exit_code : ℤ
  pub met : Bool
  pub collected : List Text

-- finishCanceled before there is an exit code.
abbrev pub canceled_end : End
canceled_end = record { final = canceled; exit_code = negsuc 0; met = false; collected = [] }

unfoldable pub check_files : Env → List File → Act Failure (Unit {0})
check_files env [] = pure tt
check_files env (f ∷ fs) = raise_some (env.file_error f) >> check_files env fs

-- DOWNLOADING stands only where the package is fetched.
unfoldable pub fetch : Env → Options → Act Staged (Unit {0})
fetch env o =
    if not (o.package_path == [])
    then pure tt
    else if o.package_url == [] || o.sha256 == []
    then raise (codes "download", plain ∷ [])
    else transition downloading >> at_stage (codes "download") (raise_some env.download_error)

abbrev pub load : Env → Act Failure Manifest
load env = elim env.loaded [ bad_manifest e ↦ raise e | manifest m ↦ pure m ]

-- The package is checked before the device is touched.
unfoldable pub unpack : Env → Options → Act Staged Manifest
unfolding check_files
unpack env o =
    (if o.sha256 == [] then pure tt else at_stage (codes "download") (raise_some env.package_error))
    >> at_stage (codes "unpack") (raise_some env.extract_error)
    >> (at_stage (codes "unpack") (load env) >>= λ m.
        at_stage (codes "unpack") (check_files env m.files) >> pure m)

abbrev pub final_status : Bool → Bool → Status
final_status is_canceled timed_out =
    if is_canceled then canceled else if timed_out then timeout else completed

abbrev pub criteria_met : Env → Manifest → RunEnd → Bool
criteria_met env m e =
    not e.canceled
    && not e.timed_out
    && int_eq e.exit_code m.success_exit_code
    && require_files_present env (codes "device") m.require_files

-- COLLECTING, the cleanup, and a cancellation that came meanwhile.
unfoldable pub wind_up : Env → Options → Target → Manifest → RunEnd → Act Staged End
unfolding collect dump_logcat cleanup_device
wind_up env o t m e =
    transition collecting
    >> (at_stage (codes "collect") (collect env t m (codes "device")) >>= λ collected.
        at_stage (codes "collect") (dump_logcat env t)
        >> at_stage (codes "collect") (
            cleanup_device env t m o.keep_workdir_override
              (e.canceled || e.timed_out || not (criteria_met env m e)))
        >> pure (record {
          final = final_status (e.canceled || requested env 4) e.timed_out;
          exit_code = e.exit_code;
          met = if e.canceled || requested env 4 then false else criteria_met env m e;
          collected = collected;
        }))

unfoldable pub run_and_collect : Env → Options → Target → Manifest → Act Staged End
unfolding run_entry wind_up
run_and_collect env o t m =
    transition running >> (at_stage (codes "run") (run_entry env t m) >>= λ e. wind_up env o t m e)

-- From DEPLOYING on.
unfoldable pub on_device : Env → Options → Target → Manifest → Act Staged End
unfolding deploy cleanup_device run_and_collect
on_device env o t m =
    transition deploying
    >> at_stage (codes "deploy") (deploy env t m (codes "package"))
    >> (if requested env 2
        then at_stage (codes "run") (cleanup_device env t m o.keep_workdir_override true)
          >> pure canceled_end
        else run_and_collect env o t m)

unfoldable pub pipeline : Env → Options → Act Staged End
unfolding fetch unpack resolve_transport precheck on_device
pipeline env o =
    at_stage (codes "download") (raise_some env.out_dir_error)
    >> fetch env o
    >> transition preparing
    >> (unpack env o >>= λ m. at_stage (codes "resolve") (resolve_transport env o.serial) >>= λ t.
        at_stage (codes "precheck") (precheck env t m)
        >> (if requested env 1 then pure canceled_end else on_device env o t m))

abbrev pub start : Options → Agent
start o = record { events = []; environment = (codes "serial", o.serial) ∷ [] }

-- The closure `fail`.
unfoldable pub fail : Env → Options → Staged → Agent → Summary × Agent
unfolding classify_failure
fail env o (stage, e) a =
    let (scope, b) = classify_failure {E = Failure} env (target_for o.serial (pos 0)) stage e a in
    let sum : Summary = record {
      status = failed;
      exit_code = negsuc 0;
      success_criteria_met = false;
      collected = [];
      environment = a.environment;
      failure_scope = elim scope [ ok s ↦ s | err x ↦ [] ];
      failure_stage = stage;
    } in
    (sum, record b { events = wrote_summary sum ∷ became failed ∷ b.events })

unfoldable pub finish : End → Agent → Summary × Agent
finish e a =
    let sum : Summary = record {
      status = e.final;
      exit_code = e.exit_code;
      success_criteria_met = e.met;
      collected = e.collected;
      environment = a.environment;
      failure_scope = [];
      failure_stage = [];
    } in
    (sum, record a { events = wrote_summary sum ∷ became e.final ∷ a.events })

-- The summary, whether an error comes with it, and what was done.
pub record Executed : Type 0 where
  pub summary : Summary
  pub error : Option Failure
  pub agent : Agent

unfoldable pub conclude : Env → Options → Result Staged End → Agent → Executed
unfolding fail finish
conclude env o (ok e) a =
    let (sum, b) = finish e a in record { summary = sum; error = none; agent = b }
conclude env o (err f) a =
    let (sum, b) = fail env o f a in record { summary = sum; error = some f.1; agent = b }

unfoldable pub execute : Env → Options → Executed
unfolding pipeline conclude
execute env o = let (r, a) = pipeline env o (start o) in conclude env o r a
