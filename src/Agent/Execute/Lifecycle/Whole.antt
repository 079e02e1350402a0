-- ===== src/Agent/Execute/Lifecycle/Whole.antt =====
-- The statuses of a whole run.
use hermes_ai_devops.Common.{
  ◌≡◌, refl, ◌∙◌, sym, ap, subst, true, false, Option, none, some, [], ◌∷◌, if◌then◌else◌, not,
  ◌||◌, ◌==◌, arith,
}
use hermes_ai_devops.Common.Text.{codes}
use hermes_ai_devops.Agent.Text.{text_eq}
use hermes_ai_devops.Agent.Adb.{Target, target_for}
use hermes_ai_devops.Common.Int.{pos}
use hermes_ai_devops.Agent.Blame.{classify_failure}
use hermes_ai_devops.Agent.Run.{
  Status, preparing, downloading, deploying, running, collecting, completed, failed, timeout,
  canceled, plain, Failure, Manifest, Options, Env, Agent, Result, ok, err, Act, pure, raise,
  raise_some, ◌>>=◌, ◌>>◌,
}
use hermes_ai_devops.Agent.Locate.{resolve_transport}
use hermes_ai_devops.Agent.Precheck.{precheck}
use hermes_ai_devops.Agent.Deploy.{requested}
use hermes_ai_devops.Agent.Quiet.{statuses, hist, Quiet, raise_some-Quiet}
use hermes_ai_devops.Agent.Quiet.Check.{resolve_transport-Quiet, precheck-Quiet}
use hermes_ai_devops.Agent.Quiet.Device.{check_files-Quiet, classify_failure-Quiet}
use hermes_ai_devops.Agent.Execute.{
  load, check_files, Executed, Staged, at_stage, transition, End, canceled_end, fetch, unpack,
  on_device, conclude, pipeline, start, fail, finish, execute,
}
use hermes_ai_devops.Agent.Execute.Lifecycle.{
  may_follow, latest, Trail, begin, go_on, Ready, At, Outcome, Triple, bind-Triple, stage-Triple,
  if-Triple, enter-Triple, ends_well, Ended, ends-Triple,
}
use hermes_ai_devops.Agent.Execute.Lifecycle.Device.{on_device-Triple}

module _ (env : Env) (o : Options) where
  fetch-Triple : Triple (At none) (fetch env o) (λ x. Ready preparing)
  unfolding fetch may_follow
  fetch-Triple =
      let next : Unit {0} → Agent → Type 0 = λ x. Ready preparing in
      let refuse : Act Staged (Unit {0}) = raise (codes "download", plain ∷ []) in
      let get : Act Staged (Unit {0}) =
        at_stage (codes "download") (raise_some env.download_error) in
      let load_it : Act Staged (Unit {0}) = transition downloading >> get in
      let remote : Act Staged (Unit {0}) =
        if o.package_url == [] || o.sha256 == [] then refuse else load_it in
      if-Triple (At none) next (not (o.package_path == [])) (pure tt) remote
        (λ a at. (at.0, ap (λ k. may_follow k preparing) at.1))
        (if-Triple (At none) next (o.package_url == [] || o.sha256 == []) refuse load_it
          (λ a at. (at.0, ap (λ k. may_follow k failed) at.1))
          (λ a at. weaken (load_it a).0 (load_it a).1 (
            bind-Triple (At none) (λ x. At (some downloading)) (λ x. At (some downloading))
              (transition downloading) (λ x. get) (enter-Triple none downloading refl)
              (λ x.
                stage-Triple (some downloading) (codes "download") (raise_some env.download_error)
                  refl (raise_some-Quiet env.download_error))
              a at)))
    where
      weaken :
          (r : Result Staged (Unit {0})) (b : Agent)
          → Outcome (λ x. At (some downloading)) r b
          → Outcome (λ x. Ready preparing) r b
      weaken (ok x) b at = (at.0, ap (λ k. may_follow k preparing) at.1)
      weaken (err e) b r = r

  unpack-Triple : Triple (At (some preparing)) (unpack env o) (λ m. At (some preparing))
  unfolding unpack may_follow
  unpack-Triple =
      let now : Agent → Type 0 = At (some preparing) in
      let verify : Act Staged (Unit {0}) =
        at_stage (codes "download") (raise_some env.package_error) in
      let guard : Act Staged (Unit {0}) = if o.sha256 == [] then pure tt else verify in
      let extract : Act Staged (Unit {0}) =
        at_stage (codes "unpack") (raise_some env.extract_error) in
      let read : Act Staged Manifest = at_stage (codes "unpack") (load env) in
      let files : Manifest → Act Staged (Unit {0}) =
        λ m. at_stage (codes "unpack") (check_files env m.files) in
      bind-Triple now (λ x. now) (λ m. now) (guard >> extract)
        (λ x. read >>= λ m. files m >> pure m)
        (bind-Triple now (λ x. now) (λ x. now) guard (λ x. extract)
          (if-Triple now (λ x. now) (o.sha256 == []) (pure tt) verify (λ a at. at)
            (stage-Triple (some preparing) (codes "download") (raise_some env.package_error) refl
              (raise_some-Quiet env.package_error)))
          (λ x.
            stage-Triple (some preparing) (codes "unpack") (raise_some env.extract_error) refl
              (raise_some-Quiet env.extract_error)))
        (λ x.
          bind-Triple now (λ m. now) (λ m. now) read (λ m. files m >> pure m)
            (stage-Triple (some preparing) (codes "unpack") (load env) refl load-Quiet)
            (λ m.
              bind-Triple now (λ x. now) (λ x. now) (files m) (λ x. pure m)
                (stage-Triple (some preparing) (codes "unpack") (check_files env m.files) refl
                  (check_files-Quiet env m.files))
                (λ x a at. at)))
    where
      load-Quiet : Quiet (load env)
      load-Quiet a = ground arith

  pipeline-Triple : Triple (At none) (pipeline env o) Ended
  unfolding pipeline may_follow
  pipeline-Triple =
      let now : Agent → Type 0 = At (some preparing) in
      let dir : Act Staged (Unit {0}) =
        at_stage (codes "download") (raise_some env.out_dir_error) in
      let find : Act Staged Target = at_stage (codes "resolve") (resolve_transport env o.serial) in
      let look : Target → Manifest → Act Staged (Unit {0}) =
        λ t m. at_stage (codes "precheck") (precheck env t m) in
      let go : Target → Manifest → Act Staged End =
        λ t m. if requested env 1 then pure canceled_end else on_device env o t m in
      bind-Triple (At none) (λ x. now) Ended (dir >> fetch env o >> transition preparing)
        (λ x. unpack env o >>= λ m. find >>= λ t. look t m >> go t m)
        (bind-Triple (At none) (λ x. Ready preparing) (λ x. now) (dir >> fetch env o)
          (λ x. transition preparing)
          (bind-Triple (At none) (λ x. At none) (λ x. Ready preparing) dir (λ x. fetch env o)
            (stage-Triple none (codes "download") (raise_some env.out_dir_error) refl
              (raise_some-Quiet env.out_dir_error))
            (λ x. fetch-Triple))
          (λ x a r. enter-Triple (latest (hist a)) preparing r.1 a (r.0, refl)))
        (λ x.
          bind-Triple now (λ m. now) Ended (unpack env o) (λ m. find >>= λ t. look t m >> go t m)
            unpack-Triple
            (λ m.
              bind-Triple now (λ t. now) Ended find (λ t. look t m >> go t m)
                (stage-Triple (some preparing) (codes "resolve") (resolve_transport env o.serial)
                  refl (resolve_transport-Quiet env o.serial))
                (λ t.
                  bind-Triple now (λ y. now) Ended (look t m) (λ y. go t m)
                    (stage-Triple (some preparing) (codes "precheck") (precheck env t m) refl
                      (precheck-Quiet env t m))
                    (λ y.
                      if-Triple now Ended (requested env 1) (pure canceled_end)
                        (on_device env o t m) (ends-Triple (some preparing) canceled_end refl refl)
                        (on_device-Triple env o t m)))))

-- What the error that Execute returns says of the status.
pub data Ending : Option Failure → Status → Type 0 where
  without_error : {s : Status} → ends_well s ≡ true → Ending none s
  with_error : {e : Failure} → Ending (some e) failed

none_after_Ending :
    {e : Option Failure} {s : Status} → Ending e s → (n : Status) → may_follow (some s) n ≡ false
unfolding may_follow
none_after_Ending {s = completed} (without_error well) n = refl
none_after_Ending {s = timeout} (without_error well) n = refl
none_after_Ending {s = canceled} (without_error well) n = refl
none_after_Ending {s = preparing} (without_error well) n = ground arith
none_after_Ending {s = downloading} (without_error well) n = ground arith
none_after_Ending {s = deploying} (without_error well) n = ground arith
none_after_Ending {s = running} (without_error well) n = ground arith
none_after_Ending {s = collecting} (without_error well) n = ground arith
none_after_Ending {s = failed} (without_error well) n = ground arith
none_after_Ending with_error n = refl

-- What is true of every run: its statuses come in the order, the last of them is the summary's, its
-- kind goes with the error, and no status may follow it.
abbrev pub Reported : Executed → Type 0
Reported r =
    Trail (hist r.agent)
    × (latest (hist r.agent) ≡ some r.summary.status)
    × Ending r.error r.summary.status

started : (o : Options) → At none (start o)
unfolding statuses
started o = (begin, refl)

fail-Reported :
    (env : Env) (o : Options) (f : Staged) (a : Agent)
    → Ready failed a
    → (let (sum, b) = fail env o f a in
        Reported (record { summary = sum; error = some f.1; agent = b }))
unfolding fail statuses
fail-Reported env o (stage, e) a (trail, fl) =
    let t : Target = target_for o.serial (pos 0) in
    let same : hist (classify_failure {E = Failure} env t stage e a).1 ≡ hist a =
      classify_failure-Quiet env t stage e a in
    (
      go_on (subst Trail (sym same) trail) (ap (λ h. may_follow (latest h) failed) same ∙ fl),
      refl,
      with_error,
    )

finish-Reported :
    (e : End) (a : Agent)
    → Ended e a
    → (let (sum, b) = finish e a in Reported (record { summary = sum; error = none; agent = b }))
unfolding finish statuses
finish-Reported e a ((trail, le), well) = (go_on trail le, refl, without_error well)

conclude-Reported :
    (env : Env) (o : Options) (q : Result Staged End) (a : Agent)
    → Outcome Ended q a
    → Reported (conclude env o q a)
unfolding conclude
conclude-Reported env o (ok e) a done = finish-Reported e a done
conclude-Reported env o (err f) a ready = fail-Reported env o f a ready

execute-Reported : (env : Env) (o : Options) → Reported (execute env o)
unfolding execute
execute-Reported env o =
    let (r, a) = pipeline env o (start o) in
    conclude-Reported env o r a (pipeline-Triple env o (start o) (started o))

-- Whatever adb, the files and a cancellation do, the statuses that a run goes through follow the
-- order of may_follow from the first one on, the last of them is that of the summary, after which
-- none may come; an error is returned exactly with FAILED, and otherwise the status is COMPLETED,
-- TIMEOUT or CANCELED.
pub execute-Trail :
    (env : Env) (o : Options)
    → (let r : Executed = execute env o in
        Reported r × ((s : Status) → may_follow (some r.summary.status) s ≡ false))
execute-Trail env o =
    let done : Reported (execute env o) = execute-Reported env o in (done, none_after_Ending done.2)
