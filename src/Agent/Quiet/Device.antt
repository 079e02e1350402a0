-- ===== src/Agent/Quiet/Device.antt =====
-- What is done on the device leaves the status alone (agent/internal/executor/executor.go, deploy, run,
-- collect, cleanupDevice, classifyFailure).
use hermes_ai_devops.Common.{refl, Bool, Option, List, [], ◌∷◌, if◌then◌else◌, arith, not, ◌==◌}
use hermes_ai_devops.Agent.Text.{Text, text_eq, path_join, path_dir, split}
use hermes_ai_devops.Agent.Adb.{
  Target, Command, shell_list_glob, shell_mkdir_all, shell_remove_all, push, shell_chmod,
}
use hermes_ai_devops.Agent.Run.{
  Failure, File, Manifest, Ran, Env, Act, pure, invoke, raise_some, ◌>>=◌, ◌>>◌,
}
use hermes_ai_devops.Agent.Blame.{went_well, classify_failure, liveness_scope}
use hermes_ai_devops.Agent.Execute.{check_files}
use hermes_ai_devops.Agent.Deploy.{
  path_ok, remote_run, file_mode_of, deploy_file, deploy_files, deploy, run_entry, collect_line,
  collect_lines, collect_patterns, collect, dump_logcat, cleanup_device,
}
use hermes_ai_devops.Agent.Quiet.{
  statuses, Quiet, bind-Quiet, then-Quiet, if-Quiet, raise_some-Quiet,
}

module _ (env : Env) where
  invoke-Quiet : (c : Command) → Quiet (invoke {E = Failure} env c)
  unfolding invoke statuses
  invoke-Quiet c a = refl

  remote_run-Quiet : (c : Command) → Quiet (remote_run env c)
  unfolding remote_run invoke statuses
  remote_run-Quiet c a = ground arith

  deploy_file-Quiet :
      (t : Target) (m : Manifest) (dir : Text) (f : File) → Quiet (deploy_file env t m dir f)
  unfolding deploy_file
  deploy_file-Quiet t m dir f =
      let remote : Text = path_join m.workdir f.dst in
      let b : Bool = not (path_dir remote == m.workdir) in
      let mk : Act Failure (Unit {0}) = remote_run env (shell_mkdir_all t (path_dir remote)) in
      let ps : Act Failure (Unit {0}) = remote_run env (push t (path_join dir f.src) remote) in
      let ch : Act Failure (Unit {0}) = remote_run env (shell_chmod t (file_mode_of f) remote) in
      then-Quiet ((if b then mk else pure tt) >> ps) ch
        (then-Quiet (if b then mk else pure tt) ps
          (if-Quiet b mk (pure tt) (remote_run-Quiet (shell_mkdir_all t (path_dir remote)))
            (λ a. refl))
          (remote_run-Quiet (push t (path_join dir f.src) remote)))
        (remote_run-Quiet (shell_chmod t (file_mode_of f) remote))

  deploy_files-Quiet :
      (t : Target) (m : Manifest) (dir : Text) (fs : List File)
      → Quiet (deploy_files env t m dir fs)
  unfolding deploy_files
  deploy_files-Quiet t m dir [] = λ a. refl
  deploy_files-Quiet t m dir (f ∷ fs) =
      then-Quiet (deploy_file env t m dir f) (deploy_files env t m dir fs)
        (deploy_file-Quiet t m dir f) (deploy_files-Quiet t m dir fs)

  pub deploy-Quiet : (t : Target) (m : Manifest) (dir : Text) → Quiet (deploy env t m dir)
  unfolding deploy
  deploy-Quiet t m dir =
      let rm : Act Failure (Unit {0}) = remote_run env (shell_remove_all t m.workdir) in
      let mk : Act Failure (Unit {0}) = remote_run env (shell_mkdir_all t m.workdir) in
      then-Quiet (rm >> mk) (deploy_files env t m dir m.files)
        (then-Quiet rm mk (remote_run-Quiet (shell_remove_all t m.workdir))
          (remote_run-Quiet (shell_mkdir_all t m.workdir)))
        (deploy_files-Quiet t m dir m.files)

  pub run_entry-Quiet : (t : Target) (m : Manifest) → Quiet (run_entry env t m)
  unfolding run_entry invoke statuses
  run_entry-Quiet t m a = ground arith

  pub cleanup_device-Quiet :
      (t : Target) (m : Manifest) (o : Option Bool) (b : Bool) → Quiet (cleanup_device env t m o b)
  unfolding cleanup_device invoke statuses
  cleanup_device-Quiet t m o b a = ground arith

  pub dump_logcat-Quiet : (t : Target) → Quiet (dump_logcat env t)
  unfolding dump_logcat invoke statuses
  dump_logcat-Quiet t a = ground arith

  collect_line-Quiet :
      (t : Target) (m : Manifest) (dir line : Text) (acc : List Text × List Text)
      → Quiet (collect_line env t m dir line acc)
  unfolding collect_line invoke statuses
  collect_line-Quiet t m dir line (seen, collected) a = ground arith

  collect_lines-Quiet :
      (t : Target) (m : Manifest) (dir : Text) (ls : List Text) (acc : List Text × List Text)
      → Quiet (collect_lines env t m dir ls acc)
  unfolding collect_lines
  collect_lines-Quiet t m dir [] acc = λ a. refl
  collect_lines-Quiet t m dir (l ∷ ls) acc =
      bind-Quiet (collect_line env t m dir l acc) (λ next. collect_lines env t m dir ls next)
        (collect_line-Quiet t m dir l acc) (λ next. collect_lines-Quiet t m dir ls next)

  collect_patterns-Quiet :
      (t : Target) (m : Manifest) (dir : Text) (ps : List Text) (acc : List Text × List Text)
      → Quiet (collect_patterns env t m dir ps acc)
  unfolding collect_patterns
  collect_patterns-Quiet t m dir [] acc = λ a. refl
  collect_patterns-Quiet t m dir (p ∷ ps) acc =
      let Acc : Type 0 = List Text × List Text in
      let lines : Ran → Act Failure Acc = λ r. collect_lines env t m dir (split 10 r.stdout) acc in
      let answer : Ran → Act Failure Acc = λ r. if went_well r then lines r else pure acc in
      let list : Act Failure Acc = invoke env (shell_list_glob t m.workdir p) >>= answer in
      let one : Act Failure Acc = if not (path_ok p) then pure acc else list in
      bind-Quiet one (λ next. collect_patterns env t m dir ps next)
        (if-Quiet (not (path_ok p)) (pure acc) list (λ a. refl)
          (bind-Quiet (invoke env (shell_list_glob t m.workdir p)) answer
            (invoke-Quiet (shell_list_glob t m.workdir p))
            (λ r.
              if-Quiet (went_well r) (lines r) (pure acc)
                (collect_lines-Quiet t m dir (split 10 r.stdout) acc) (λ a. refl))))
        (λ next. collect_patterns-Quiet t m dir ps next)

  pub collect-Quiet : (t : Target) (m : Manifest) (dir : Text) → Quiet (collect env t m dir)
  unfolding collect
  collect-Quiet t m dir =
      bind-Quiet (collect_patterns env t m dir m.collect ([], [])) (λ acc. pure acc.1)
        (collect_patterns-Quiet t m dir m.collect ([], [])) (λ acc a. refl)

  pub check_files-Quiet : (fs : List File) → Quiet (check_files env fs)
  unfolding check_files
  check_files-Quiet [] = λ a. refl
  check_files-Quiet (f ∷ fs) =
      then-Quiet (raise_some (env.file_error f)) (check_files env fs)
        (raise_some-Quiet (env.file_error f)) (check_files-Quiet fs)

  pub classify_failure-Quiet :
      (t : Target) (stage : Text) (e : Failure)
      → Quiet (classify_failure {E = Failure} env t stage e)
  unfolding classify_failure liveness_scope invoke statuses
  classify_failure-Quiet t stage e a = ground arith
