-- ===== src/Agent/Deploy.antt =====
-- What the executor does on the device and with its files (agent/internal/executor/executor.go: deploy,
-- run, collect, dumpLogcat, cleanupDevice, requireFilesPresent). The host's paths are joined as the
-- device's are.
use hermes_ai_devops.Common.{
  ℕ, Bool, true, false, not, ◌&&◌, ◌||◌, Option, none, some, List, [], ◌∷◌, ◌++◌, leb,
  if◌then◌else◌, ◌==◌, nat_eq,
}
use hermes_ai_devops.Common.Int.{ℤ, is_zero}
use hermes_ai_devops.Common.Text.{codes}
use hermes_ai_devops.Agent.Text.{
  Text, text_eq, trim_space, split, any_text, path_join, path_dir, path_base,
}
use hermes_ai_devops.Agent.Adb.{
  Target, Command, push, pull, shell_mkdir_all, shell_remove_all, shell_chmod, shell_pkill,
  logcat_clear, logcat_dump, shell_list_glob, shell_run_entry,
}
use hermes_ai_devops.Agent.Run.{
  deadline_exceeded, remote_exit, Failure, File, Manifest, saved, Ran, Env, Act, pure, raise,
  invoke, note, ◌>>=◌, ◌>>◌,
}
use hermes_ai_devops.Agent.Blame.{is_error, went_well}

-- remoteRun
unfoldable pub remote_run : Env → Command → Act Failure (Unit {0})
unfolding invoke
remote_run env c = invoke env c >>= λ r. elim r.error [
  | some e ↦ raise e
  | none ↦ if is_zero r.exit_code then pure tt else raise (remote_exit ∷ [])
]

abbrev pub file_mode_of : File → Text
file_mode_of f = if f.file_mode == [] then codes "0644" else f.file_mode

unfoldable pub deploy_file : Env → Target → Manifest → Text → File → Act Failure (Unit {0})
unfolding remote_run path_join path_dir
deploy_file env t m extract_dir f =
    let remote = path_join m.workdir f.dst in
    (if not (path_dir remote == m.workdir)
      then remote_run env (shell_mkdir_all t (path_dir remote))
      else pure tt)
    >> remote_run env (push t (path_join extract_dir f.src) remote)
    >> remote_run env (shell_chmod t (file_mode_of f) remote)

unfoldable pub deploy_files : Env → Target → Manifest → Text → List File → Act Failure (Unit {0})
unfolding deploy_file
deploy_files env t m extract_dir [] = pure tt
deploy_files env t m extract_dir (f ∷ fs) =
    deploy_file env t m extract_dir f >> deploy_files env t m extract_dir fs

unfoldable pub deploy : Env → Target → Manifest → Text → Act Failure (Unit {0})
unfolding remote_run deploy_files
deploy env t m extract_dir =
    remote_run env (shell_remove_all t m.workdir)
    >> remote_run env (shell_mkdir_all t m.workdir)
    >> deploy_files env t m extract_dir m.files

-- isCancelRequested at the point with that number.
abbrev pub requested : Env → ℕ → Bool
requested env point = leb env.cancel_from point

pub record RunEnd : Type 0 where
  pub canceled : Bool
  pub timed_out : Bool
  pub exit_code : ℤ

abbrev pub is_timeout : Ran → Bool
is_timeout r = elim r.error [ none ↦ false | some e ↦ is_error e deadline_exceeded ]

abbrev pub clear_logcat : Env → Target → Manifest → Act Failure (Unit {0})
clear_logcat env t m =
    if m.os == codes "linux" then pure tt else (invoke env (logcat_clear t) >> pure tt)

-- A timeout or a cancellation kills the process and is no error; the answer of the entry depends on
-- the context, which ends at the timeout or with a cancellation.
unfoldable pub run_entry : Env → Target → Manifest → Act Failure RunEnd
unfolding invoke path_base
run_entry env t m =
    clear_logcat env t m
    >> (invoke env (shell_run_entry t m.workdir m.env m.entry m.args) >>= λ r.
        note (saved (codes "stdout.log"))
        >> note (saved (codes "stderr.log"))
        >> (let end : RunEnd = record {
          canceled = requested env 3;
          timed_out = is_timeout r;
          exit_code = r.exit_code;
        } in
            if is_timeout r || requested env 3
            then (invoke env (shell_pkill t (path_base m.entry)) >> pure end)
            else elim r.error [ some e ↦ raise e | none ↦ pure end ]))

-- ^[A-Za-z0-9._*/-]+$, the pattern of collectPatternOK and of collectedPathOK.
abbrev path_char : ℕ → Bool
path_char c =
    (leb 65 c && leb c 90)
    || (leb 97 c && leb c 122)
    || (leb 48 c && leb c 57)
    || c == 46
    || c == 95
    || c == 42
    || c == 47
    || c == 45

abbrev all_path_chars : Text → Bool
all_path_chars [] = true
all_path_chars (c ∷ cs) = path_char c && all_path_chars cs

unfoldable pub path_ok : Text → Bool
path_ok [] = false
path_ok (c ∷ cs) = path_char c && all_path_chars cs

-- One line of the listing: what was seen and what was collected grow.
unfoldable pub collect_line :
    Env
    → Target
    → Manifest
    → Text
    → Text
    → List Text × List Text
    → Act Failure (List Text × List Text)
unfolding invoke trim_space path_ok path_join path_dir
collect_line env t m device_dir line (seen, collected) =
    let rel = trim_space line in
    let local = path_join device_dir rel in
    if rel == [] || any_text rel seen || not (path_ok rel)
    then pure (seen, collected)
    else if not (env.local_dir_ok (path_dir local))
    then pure (rel ∷ seen, collected)
    else (invoke env (pull t (path_join m.workdir rel) local) >>= λ r.
        pure (rel ∷ seen, if went_well r then collected ++ rel ∷ [] else collected))

unfoldable pub collect_lines :
    Env
    → Target
    → Manifest
    → Text
    → List Text
    → List Text × List Text
    → Act Failure (List Text × List Text)
unfolding collect_line
collect_lines env t m device_dir [] acc = pure acc
collect_lines env t m device_dir (l ∷ ls) acc =
    collect_line env t m device_dir l acc >>= λ next. collect_lines env t m device_dir ls next

unfoldable pub collect_patterns :
    Env
    → Target
    → Manifest
    → Text
    → List Text
    → List Text × List Text
    → Act Failure (List Text × List Text)
unfolding invoke collect_lines split path_ok
collect_patterns env t m device_dir [] acc = pure acc
collect_patterns env t m device_dir (p ∷ ps) acc =
    (if not (path_ok p)
      then pure acc
      else (invoke env (shell_list_glob t m.workdir p) >>= λ r.
          if went_well r
          then collect_lines env t m device_dir (split 10 r.stdout) acc
          else pure acc))
    >>= λ next. collect_patterns env t m device_dir ps next

unfoldable pub collect : Env → Target → Manifest → Text → Act Failure (List Text)
unfolding collect_patterns
collect env t m device_dir =
    collect_patterns env t m device_dir m.collect ([], []) >>= λ acc. pure acc.1

unfoldable pub dump_logcat : Env → Target → Act Failure (Unit {0})
unfolding invoke
dump_logcat env t = invoke env (logcat_dump t) >>= λ r. elim r.error [
  | some e ↦ pure tt
  | none ↦ note (saved (codes "logcat.txt"))
]

-- Is the working directory removed?
unfoldable pub removes_workdir : Manifest → Option Bool → Bool → Bool
removes_workdir m (some keep) failed = not keep
removes_workdir m none failed = if failed && m.keep_on_failure then false else m.remove_workdir

unfoldable pub cleanup_device :
    Env → Target → Manifest → Option Bool → Bool → Act Failure (Unit {0})
unfolding invoke removes_workdir
cleanup_device env t m override failed =
    if removes_workdir m override failed
    then (invoke env (shell_remove_all t m.workdir) >> pure tt)
    else pure tt

unfoldable pub require_files_present : Env → Text → List Text → Bool
require_files_present env device_dir [] = true
require_files_present env device_dir (f ∷ fs) =
    env.has_local_file (path_join device_dir f) && require_files_present env device_dir fs
