-- ===== src/Agent/Quiet/Check.antt =====
-- The search for the device and its check leave the status alone (agent/internal/executor/executor.go,
-- resolveTransport, precheck).
use hermes_ai_devops.Common.{
  refl, Bool, Option, none, some, List, [], ◌∷◌, if◌then◌else◌, arith, not, ◌||◌, ◌++◌, ◌==◌,
}
use hermes_ai_devops.Common.Text.{codes}
use hermes_ai_devops.Agent.Text.{Text, text_eq, trim_space, any_text, path_dir}
use hermes_ai_devops.Agent.Adb.{
  Target, Command, ListedDevice, target_for, devices, parse_device_list, get_prop, uname_m,
  map_linux_arch_to_abi, disk_free_kb, disk_free_kb_linux,
}
use hermes_ai_devops.Agent.Run.{
  abi_mismatch, remote_exit, set_environment, plain, Failure, Manifest, Ran, Env, Result, ok, err,
  Act, pure, raise, try_to, invoke, ◌>>=◌, ◌>>◌,
}
use hermes_ai_devops.Agent.Locate.{bears, probe_all, resolve_transport}
use hermes_ai_devops.Agent.Precheck.{
  note_release, run_strict, valid_soc, soc_probe_chain, probe_chain, check_soc, check_storage,
  precheck_android, precheck_linux, precheck,
}
use hermes_ai_devops.Agent.Quiet.{statuses, Quiet, bind-Quiet, then-Quiet, if-Quiet}

module _ (env : Env) where
  run_strict-Quiet : (c : Command) (e : Failure) → Quiet (run_strict env c e)
  unfolding run_strict invoke statuses
  run_strict-Quiet c e a = ground arith

  bears-Quiet : (logical : Text) (t : Target) → Quiet (bears env logical t)
  unfolding bears invoke statuses
  bears-Quiet logical t a = ground arith

  probe_all-Quiet : (logical : Text) (ds : List ListedDevice) → Quiet (probe_all env logical ds)
  unfolding probe_all
  probe_all-Quiet logical [] a = refl
  probe_all-Quiet logical (d ∷ ds) a =
      let t : Target = target_for d.serial d.transport_id in
      ground (
        arith,
        probe_all-Quiet logical ds a,
        bears-Quiet logical t a,
        probe_all-Quiet logical ds (bears env logical t a).1,
      )

  pub resolve_transport-Quiet : (logical : Text) → Quiet (resolve_transport env logical)
  unfolding resolve_transport invoke statuses
  resolve_transport-Quiet logical a =
      let r : Ran = env.reply a.events devices in
      ground (
        arith,
        probe_all-Quiet logical (parse_device_list r.stdout) (invoke {E = Failure} env devices a).1,
      )

  probe_chain-Quiet :
      (t : Target) (props out : List Text) (last : Option Failure)
      → Quiet (probe_chain env t props out last)
  unfolding probe_chain
  probe_chain-Quiet t [] [] (some e) = λ a. refl
  probe_chain-Quiet t [] [] none = λ a. refl
  probe_chain-Quiet t [] (x ∷ xs) last = λ a. refl
  probe_chain-Quiet t (p ∷ ps) out last =
      bind-Quiet (try_to (run_strict env (get_prop t p) (plain ∷ []))) next
        (λ a. run_strict-Quiet (get_prop t p) (plain ∷ []) a)
        (next-Quiet (λ out2 last2. probe_chain-Quiet t ps out2 last2))
    where
      next : Result Failure Text → Act Failure (List Text)
      next (err e) = probe_chain env t ps out (some e)
      next (ok stdout) =
          if not (valid_soc (trim_space stdout)) || any_text (trim_space stdout) out
          then probe_chain env t ps out last
          else probe_chain env t ps (out ++ trim_space stdout ∷ []) last

      next-Quiet :
          ((o : List Text) (l : Option Failure) → Quiet (probe_chain env t ps o l))
          → (r : Result Failure Text) → Quiet (next r)
      next-Quiet rest (err e) = rest out (some e)
      next-Quiet rest (ok stdout) =
          if-Quiet (not (valid_soc (trim_space stdout)) || any_text (trim_space stdout) out)
            (probe_chain env t ps out last)
            (probe_chain env t ps (out ++ trim_space stdout ∷ []) last) (rest out last)
            (rest (out ++ trim_space stdout ∷ []) last)

  check_storage-Quiet : (m : Manifest) (c : Command) → Quiet (check_storage env m c)
  unfolding check_storage invoke statuses
  check_storage-Quiet m c a = ground arith

  check_soc-Quiet : (t : Target) (m : Manifest) → Quiet (check_soc env t m)
  unfolding check_soc
  check_soc-Quiet t m a = ground (arith, probe_chain-Quiet t soc_probe_chain [] none a)

  note_release-Quiet : (r : Result Failure Text) → Quiet (note_release r)
  note_release-Quiet (ok stdout) a = refl
  note_release-Quiet (err e) a = refl

  -- What follows the query of the ABI.
  set_then-Quiet :
      (key value : Text) (same : Bool) (k : Act Failure (Unit {0}))
      → Quiet k
      → Quiet (
          set_environment key value
          >> (if not same then raise (abi_mismatch ∷ []) else pure tt)
          >> k)
  set_then-Quiet key value same k qk =
      let set : Act Failure (Unit {0}) = set_environment key value in
      let refuse : Act Failure (Unit {0}) = raise (abi_mismatch ∷ []) in
      let guard : Act Failure (Unit {0}) = if not same then refuse else pure tt in
      then-Quiet (set >> guard) k
        (then-Quiet set guard (λ a. refl)
          (if-Quiet (not same) refuse (pure tt) (λ a. refl) (λ a. refl)))
        qk

  precheck_linux-Quiet : (t : Target) (m : Manifest) → Quiet (precheck_linux env t m)
  unfolding precheck_linux
  precheck_linux-Quiet t m =
      let store : Act Failure (Unit {0}) =
        check_storage env m (disk_free_kb_linux t (path_dir m.workdir)) in
      let set : Text → Act Failure (Unit {0}) = λ v. set_environment (codes "abi") v in
      let os : Act Failure (Unit {0}) = set_environment (codes "os") (codes "linux") in
      let guard : Text → Act Failure (Unit {0}) =
        λ abi. if not (abi == m.abi) then raise (abi_mismatch ∷ []) else pure tt in
      bind-Quiet (run_strict env (uname_m t) (remote_exit ∷ []))
        (λ out.
          let abi = map_linux_arch_to_abi (trim_space out) in set abi >> guard abi >> os >> store)
        (run_strict-Quiet (uname_m t) (remote_exit ∷ []))
        (λ out.
          let abi : Text = map_linux_arch_to_abi (trim_space out) in
          then-Quiet (set abi >> guard abi >> os) store
            (set_then-Quiet (codes "abi") abi (abi == m.abi) os (λ a. refl))
            (check_storage-Quiet m (disk_free_kb_linux t (path_dir m.workdir))))

  precheck_android-Quiet : (t : Target) (m : Manifest) → Quiet (precheck_android env t m)
  unfolding precheck_android
  precheck_android-Quiet t m =
      let store : Act Failure (Unit {0}) =
        check_storage env m (disk_free_kb t (path_dir m.workdir)) in
      let set : Text → Act Failure (Unit {0}) = λ v. set_environment (codes "abi") v in
      let release : Act Failure (Result Failure Text) =
        try_to
          (run_strict env (get_prop t (codes "ro.build.version.release")) (remote_exit ∷ [])) in
      let soc : Act Failure (Unit {0}) = check_soc env t m in
      let guard : Text → Act Failure (Unit {0}) =
        λ abi. if not (abi == m.abi) then raise (abi_mismatch ∷ []) else pure tt in
      bind-Quiet (run_strict env (get_prop t (codes "ro.product.cpu.abi")) (remote_exit ∷ []))
        (λ out.
          set (trim_space out)
          >> guard (trim_space out)
          >> (release >>= note_release)
          >> soc
          >> store)
        (run_strict-Quiet (get_prop t (codes "ro.product.cpu.abi")) (remote_exit ∷ []))
        (λ out.
          let abi : Text = trim_space out in
          then-Quiet (set abi >> guard abi >> (release >>= note_release) >> soc) store
            (then-Quiet (set abi >> guard abi >> (release >>= note_release)) soc
              (set_then-Quiet (codes "abi") abi (abi == m.abi) (release >>= note_release) (
                bind-Quiet release note_release
                  (λ a.
                    run_strict-Quiet (get_prop t (codes "ro.build.version.release"))
                      (remote_exit ∷ []) a)
                  note_release-Quiet))
              (check_soc-Quiet t m))
            (check_storage-Quiet m (disk_free_kb t (path_dir m.workdir))))

  pub precheck-Quiet : (t : Target) (m : Manifest) → Quiet (precheck env t m)
  unfolding precheck precheck_android precheck_linux
  precheck-Quiet t m =
      if-Quiet (m.os == codes "linux") (precheck_linux env t m) (precheck_android env t m)
        (precheck_linux-Quiet t m) (precheck_android-Quiet t m)
