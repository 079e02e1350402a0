-- ===== src/Agent/Execute/Success.antt =====
-- What a summary that says the criteria are met was computed from (agent/internal/executor/executor.go,
-- Execute).
use hermes_ai_devops.Common.{
  ◌≡◌, refl, subst, Bool, true, false, not, ◌||◌, List, [], if◌then◌else◌, ◌==◌, arith,
}
use hermes_ai_devops.Common.Int.{ℤ, pos, negsuc, int_eq}
use hermes_ai_devops.Common.Text.{codes}
use hermes_ai_devops.Agent.Adb.{Target}
use hermes_ai_devops.Agent.Text.{Text, text_eq}
use hermes_ai_devops.Agent.Run.{
  Status, completed, collecting, deploying, running, preparing, Failure, Manifest, bad_manifest,
  manifest, Loaded, Options, Env, Agent, Result, ok, err, Act, pure, raise, raise_some, ◌>>=◌, ◌>>◌,
}
use hermes_ai_devops.Agent.Locate.{resolve_transport}
use hermes_ai_devops.Agent.Precheck.{precheck}
use hermes_ai_devops.Agent.Deploy.{
  RunEnd, requested, run_entry, collect, dump_logcat, cleanup_device, deploy, require_files_present,
}
use hermes_ai_devops.Agent.Execute.{
  Staged, at_stage, transition, End, canceled_end, criteria_met, final_status, load, check_files,
  fetch, unpack, wind_up, run_and_collect, on_device, pipeline, start, conclude, fail, finish,
  execute,
}

-- A result that is as said, if there is one.
abbrev Good : {E A : Type 0} → (A → Type 0) → Result E A → Type 0
Good q (ok x) = q x
Good q (err e) = Unit {0}

abbrev Yields : {E A : Type 0} → (A → Type 0) → Act E A → Type 0
Yields q m = (a : Agent) → Good q (m a).0

module _ {E A B : Type 0} (q : A → Type 0) (s : B → Type 0) where
  bind-Yields :
      (m : Act E A) (f : A → Act E B)
      → Yields q m
      → ((x : A) → q x → Yields s (f x))
      → Yields s (m >>= f)
  bind-Yields m f ym yf a = step (m a).0 (m a).1 (ym a)
    where
      step :
          (r : Result E A) (b : Agent)
          → Good q r
          → Good s (elim r as (λ x. Result E B × Agent) [ ok x ↦ f x b | err e ↦ (err e, b) ]).0
      step (ok x) b qx = yf x qx b
      step (err e) b g = tt

module _ {E A B : Type 0} (s : B → Type 0) where
  last-Yields : (m : Act E A) (f : A → Act E B) → ((x : A) → Yields s (f x)) → Yields s (m >>= f)
  last-Yields m f yf = bind-Yields (λ x. Unit {0}) s m f (λ a. any (m a).0) (λ x u. yf x)
    where
      any : (r : Result E A) → Good (λ x. Unit {0}) r
      any (ok x) = tt
      any (err e) = tt

if-Yields :
    {E A : Type 0} (q : A → Type 0) (b : Bool) (m k : Act E A)
    → Yields q m
    → Yields q k
    → Yields q (if b then m else k)
if-Yields q true m k ym yk = ym
if-Yields q false m k ym yk = yk

-- What the criteria ask of the manifest that was loaded and of the files on the host.
pub data Met (env : Env) : Status → ℤ → Type 0 where
  met :
      (m : Manifest)
      → env.loaded ≡ manifest m
      → require_files_present env (codes "device") m.require_files ≡ true
      → Met env completed m.success_exit_code

abbrev Honest : Env → End → Type 0
Honest env e = e.met ≡ true → Met env e.final e.exit_code

int_eq-≡ : (x y : ℤ) → int_eq x y ≡ true → y ≡ x
int_eq-≡ (pos m) (pos n) same = ground arith
int_eq-≡ (pos m) (negsuc n) same = ground arith
int_eq-≡ (negsuc m) (pos n) same = ground arith
int_eq-≡ (negsuc m) (negsuc n) same = ground arith

criteria_met-Met :
    (env : Env) (m : Manifest) (e : RunEnd) (c : Bool)
    → env.loaded ≡ manifest m
    → (if e.canceled || c then false else criteria_met env m e) ≡ true
    → Met env (final_status (e.canceled || c) e.timed_out) e.exit_code
criteria_met-Met env m e c is said =
    let exit : int_eq e.exit_code m.success_exit_code ≡ true = ground arith in
    let files : require_files_present env (codes "device") m.require_files ≡ true = ground arith in
    let status : completed ≡ final_status (e.canceled || c) e.timed_out = ground arith in
    subst (λ s. Met env s e.exit_code) status
      (subst (λ k. Met env completed k) (int_eq-≡ e.exit_code m.success_exit_code exit)
        (met m is files))

module _ (env : Env) (o : Options) where
  wind_up-Yields :
      (t : Target) (m : Manifest) (e : RunEnd)
      → env.loaded ≡ manifest m
      → Yields (Honest env) (wind_up env o t m e)
  unfolding wind_up
  wind_up-Yields t m e is =
      let gather : Act Staged (List Text) =
        at_stage (codes "collect") (collect env t m (codes "device")) in
      let log : Act Staged (Unit {0}) = at_stage (codes "collect") (dump_logcat env t) in
      let failing : Bool = e.canceled || e.timed_out || not (criteria_met env m e) in
      let clean : Act Staged (Unit {0}) =
        at_stage (codes "collect") (cleanup_device env t m o.keep_workdir_override failing) in
      let end : List Text → End = λ collected. record {
        final = final_status (e.canceled || requested env 4) e.timed_out;
        exit_code = e.exit_code;
        met = if e.canceled || requested env 4 then false else criteria_met env m e;
        collected = collected;
      } in
      last-Yields (Honest env) (transition collecting)
        (λ x. gather >>= λ collected. log >> clean >> pure (end collected))
        (λ x.
          last-Yields (Honest env) gather (λ c. log >> clean >> pure (end c))
            (λ c.
              last-Yields (Honest env) (log >> clean) (λ y. pure (end c))
                (λ y a said. criteria_met-Met env m e (requested env 4) is said)))

  on_device-Yields :
      (t : Target) (m : Manifest)
      → env.loaded ≡ manifest m
      → Yields (Honest env) (on_device env o t m)
  unfolding on_device run_and_collect
  on_device-Yields t m is =
      let place : Act Staged (Unit {0}) =
        at_stage (codes "deploy") (deploy env t m (codes "package")) in
      let clean : Act Staged (Unit {0}) =
        at_stage (codes "run") (cleanup_device env t m o.keep_workdir_override true) in
      let stop : Act Staged End = clean >> pure canceled_end in
      let run : Act Staged RunEnd = at_stage (codes "run") (run_entry env t m) in
      let rest : Act Staged End = if requested env 2 then stop else run_and_collect env o t m in
      last-Yields (Honest env) (transition deploying >> place) (λ x. rest)
        (λ x.
          if-Yields (Honest env) (requested env 2) stop (run_and_collect env o t m)
            (last-Yields (Honest env) clean (λ y. pure canceled_end) (λ y a said. ground arith))
            (last-Yields (Honest env) (transition running) (λ y. run >>= λ e. wind_up env o t m e)
              (λ y.
                last-Yields (Honest env) run (λ e. wind_up env o t m e)
                  (λ e. wind_up-Yields t m e is))))

  unpack-Yields : Yields (λ m. env.loaded ≡ manifest m) (unpack env o)
  unfolding unpack
  unpack-Yields =
      let now : Manifest → Type 0 = λ m. env.loaded ≡ manifest m in
      let verify : Act Staged (Unit {0}) =
        at_stage (codes "download") (raise_some env.package_error) in
      let guard : Act Staged (Unit {0}) = if o.sha256 == [] then pure tt else verify in
      let extract : Act Staged (Unit {0}) =
        at_stage (codes "unpack") (raise_some env.extract_error) in
      let read : Act Staged Manifest = at_stage (codes "unpack") (load env) in
      let files : Manifest → Act Staged (Unit {0}) =
        λ m. at_stage (codes "unpack") (check_files env m.files) in
      last-Yields now (guard >> extract) (λ x. read >>= λ m. files m >> pure m)
        (λ x.
          bind-Yields now now read (λ m. files m >> pure m) (loads env.loaded refl)
            (λ m is. last-Yields now (files m) (λ y. pure m) (λ y a. is)))
    where
      loads :
          (l : Loaded)
          → env.loaded ≡ l
          → (a : Agent)
          → Good
              (λ m. env.loaded ≡ manifest m)
              (at_stage
                (codes "unpack")
                (elim l as (λ q. Act Failure Manifest) [
                  | bad_manifest e ↦ raise e
                  | manifest m ↦ pure m
                ])
                a).0
      loads (bad_manifest e) same a = tt
      loads (manifest m) same a = same

  pipeline-Yields : Yields (Honest env) (pipeline env o)
  unfolding pipeline
  pipeline-Yields =
      let dir : Act Staged (Unit {0}) =
        at_stage (codes "download") (raise_some env.out_dir_error) in
      let find : Act Staged Target = at_stage (codes "resolve") (resolve_transport env o.serial) in
      let look : Target → Manifest → Act Staged (Unit {0}) =
        λ t m. at_stage (codes "precheck") (precheck env t m) in
      let go : Target → Manifest → Act Staged End =
        λ t m. if requested env 1 then pure canceled_end else on_device env o t m in
      last-Yields (Honest env) (dir >> fetch env o >> transition preparing)
        (λ x. unpack env o >>= λ m. find >>= λ t. look t m >> go t m)
        (λ x.
          bind-Yields (λ m. env.loaded ≡ manifest m) (Honest env) (unpack env o)
            (λ m. find >>= λ t. look t m >> go t m) unpack-Yields
            (λ m is.
              last-Yields (Honest env) find (λ t. look t m >> go t m)
                (λ t.
                  last-Yields (Honest env) (look t m) (λ y. go t m)
                    (λ y.
                      if-Yields (Honest env) (requested env 1) (pure canceled_end)
                        (on_device env o t m) (λ a said. ground arith) (on_device-Yields t m is)))))

conclude-Met :
    (env : Env) (o : Options) (q : Result Staged End) (a : Agent)
    → Good (Honest env) q
    → (conclude env o q a).summary.success_criteria_met ≡ true
    → Met env (conclude env o q a).summary.status (conclude env o q a).summary.exit_code
unfolding conclude finish fail
conclude-Met env o (ok e) a honest said = honest said
conclude-Met env o (err f) a honest said = ground arith

-- A summary that says that the success criteria are met has the status COMPLETED, the exit code that
-- the loaded manifest asks for, and all the files that this manifest requires are on the host.
pub execute-Met :
    (env : Env) (o : Options)
    → (execute env o).summary.success_criteria_met ≡ true
    → Met env (execute env o).summary.status (execute env o).summary.exit_code
unfolding execute
execute-Met env o said =
    let (r, a) = pipeline env o (start o) in
    conclude-Met env o r a (pipeline-Yields env o (start o)) said
