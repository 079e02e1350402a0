-- ===== src/Agent/Execute/Lifecycle/Device.antt =====
-- The statuses from DEPLOYING on.
use hermes_ai_devops.Common.{refl, Bool, true, false, some, List, if◌then◌else◌, not, ◌||◌}
use hermes_ai_devops.Common.Text.{codes}
use hermes_ai_devops.Agent.Text.{Text, text_eq}
use hermes_ai_devops.Agent.Adb.{Target}
use hermes_ai_devops.Agent.Run.{
  preparing, deploying, running, collecting, Manifest, Options, Env, Agent, Act, pure, ◌>>=◌, ◌>>◌,
}
use hermes_ai_devops.Agent.Deploy.{
  deploy, RunEnd, requested, run_entry, collect, dump_logcat, cleanup_device,
}
use hermes_ai_devops.Agent.Quiet.Device.{
  deploy-Quiet, run_entry-Quiet, collect-Quiet, dump_logcat-Quiet, cleanup_device-Quiet,
}
use hermes_ai_devops.Agent.Execute.{
  final_status, criteria_met, Staged, at_stage, transition, End, canceled_end, wind_up,
  run_and_collect, on_device,
}
use hermes_ai_devops.Agent.Execute.Lifecycle.{
  may_follow, At, Triple, bind-Triple, stage-Triple, if-Triple, enter-Triple, Ended, ends-Triple,
  final_status-collecting, final_status-ends_well,
}

module _ (env : Env) (o : Options) (t : Target) (m : Manifest) where
  wind_up-Triple : (e : RunEnd) → Triple (At (some running)) (wind_up env o t m e) Ended
  unfolding wind_up may_follow
  wind_up-Triple e =
      let now : Agent → Type 0 = At (some collecting) in
      let gather : Act Staged (List Text) =
        at_stage (codes "collect") (collect env t m (codes "device")) in
      let log : Act Staged (Unit {0}) = at_stage (codes "collect") (dump_logcat env t) in
      let failing : Bool = e.canceled || e.timed_out || not (criteria_met env m e) in
      let clean : Act Staged (Unit {0}) =
        at_stage (codes "collect") (cleanup_device env t m o.keep_workdir_override failing) in
      let end : List Text → End = λ collected. record {
        final = final_status (e.canceled || requested env 4) e.timed_out;
        exit_code = e.exit_code;
        met = if e.canceled || requested env 4 then false else criteria_met env m e;
        collected = collected;
      } in
      bind-Triple (At (some running)) (λ x. now) Ended (transition collecting)
        (λ x. gather >>= λ collected. log >> clean >> pure (end collected))
        (enter-Triple (some running) collecting refl)
        (λ x.
          bind-Triple now (λ c. now) Ended gather (λ c. log >> clean >> pure (end c))
            (stage-Triple (some collecting) (codes "collect") (collect env t m (codes "device"))
              refl (collect-Quiet env t m (codes "device")))
            (λ c.
              bind-Triple now (λ y. now) Ended (log >> clean) (λ y. pure (end c))
                (bind-Triple now (λ y. now) (λ y. now) log (λ y. clean)
                  (stage-Triple (some collecting) (codes "collect") (dump_logcat env t) refl
                    (dump_logcat-Quiet env t))
                  (λ y.
                    stage-Triple (some collecting) (codes "collect")
                      (cleanup_device env t m o.keep_workdir_override failing) refl
                      (cleanup_device-Quiet env t m o.keep_workdir_override failing)))
                (λ y.
                  ends-Triple (some collecting) (end c)
                    (final_status-collecting (e.canceled || requested env 4) e.timed_out)
                    (final_status-ends_well (e.canceled || requested env 4) e.timed_out))))

  run_and_collect-Triple : Triple (At (some deploying)) (run_and_collect env o t m) Ended
  unfolding run_and_collect may_follow
  run_and_collect-Triple =
      let now : Agent → Type 0 = At (some running) in
      let run : Act Staged RunEnd = at_stage (codes "run") (run_entry env t m) in
      bind-Triple (At (some deploying)) (λ x. now) Ended (transition running)
        (λ x. run >>= λ e. wind_up env o t m e) (enter-Triple (some deploying) running refl)
        (λ x.
          bind-Triple now (λ e. now) Ended run (λ e. wind_up env o t m e)
            (stage-Triple (some running) (codes "run") (run_entry env t m) refl
              (run_entry-Quiet env t m))
            wind_up-Triple)

  pub on_device-Triple : Triple (At (some preparing)) (on_device env o t m) Ended
  unfolding on_device may_follow
  on_device-Triple =
      let now : Agent → Type 0 = At (some deploying) in
      let place : Act Staged (Unit {0}) =
        at_stage (codes "deploy") (deploy env t m (codes "package")) in
      let clean : Act Staged (Unit {0}) =
        at_stage (codes "run") (cleanup_device env t m o.keep_workdir_override true) in
      let stop : Act Staged End = clean >> pure canceled_end in
      let rest : Act Staged End = if requested env 2 then stop else run_and_collect env o t m in
      bind-Triple (At (some preparing)) (λ x. now) Ended (transition deploying >> place) (λ x. rest)
        (bind-Triple (At (some preparing)) (λ x. now) (λ x. now) (transition deploying) (λ x. place)
          (enter-Triple (some preparing) deploying refl)
          (λ x.
            stage-Triple (some deploying) (codes "deploy") (deploy env t m (codes "package")) refl
              (deploy-Quiet env t m (codes "package"))))
        (λ x.
          if-Triple now Ended (requested env 2) stop (run_and_collect env o t m)
            (bind-Triple now (λ y. now) Ended clean (λ y. pure canceled_end)
              (stage-Triple (some deploying) (codes "run")
                (cleanup_device env t m o.keep_workdir_override true) refl
                (cleanup_device-Quiet env t m o.keep_workdir_override true))
              (λ y. ends-Triple (some deploying) canceled_end refl refl))
            run_and_collect-Triple)
