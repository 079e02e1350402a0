-- ===== src/Agent/Run.antt =====
-- What a run of the executor works with (agent/internal/executor/executor.go, manifest/manifest.go,
-- adb/adb.go): its options, the manifest, errors by the sentinels they wrap, and a monad of state and
-- errors. adb's answer to a command may depend on all that was done before.
use hermes_ai_devops.Common.{ℕ, Bool, Option, none, some, List, ◌∷◌}
use hermes_ai_devops.Common.Int.{ℤ}
use hermes_ai_devops.Agent.Text.{Text}
use hermes_ai_devops.Agent.Adb.{Command}

pub data Status : Type 0 where
  preparing downloading deploying running collecting completed failed timeout canceled : Status

-- The sentinels and types that errors.Is and errors.As find in an error; `remote_exit` and `plain` are
-- not looked for.
pub data Sentinel : Type 0 where
  context_canceled deadline_exceeded launch_error adb_server no_space soc_mismatch abi_mismatch :
      Sentinel
  no_match remote_exit plain : Sentinel

abbrev pub Failure : Type 0
Failure = List Sentinel

pub record File : Type 0 where
  pub src : Text
  pub dst : Text
  pub file_mode : Text
  pub sha256 : Text

-- The fields of the manifest that the executor reads; `env` is what ResolvedEnv gives, by its keys.
pub record Manifest : Type 0 where
  pub os : Text
  pub abi : Text
  pub soc : List Text
  pub min_free_storage_mb : ℕ
  pub workdir : Text
  pub files : List File
  pub env : List (Text × Text)
  pub entry : Text
  pub args : List Text
  pub timeout_sec : ℕ
  pub success_exit_code : ℤ
  pub require_files : List Text
  pub collect : List Text
  pub remove_workdir : Bool
  pub keep_on_failure : Bool

pub record Options : Type 0 where
  pub package_path : Text
  pub package_url : Text
  pub sha256 : Text
  pub serial : Text
  pub keep_workdir_override : Option Bool

pub record Summary : Type 0 where
  pub status : Status
  pub exit_code : ℤ
  pub success_criteria_met : Bool
  pub collected : List Text
  pub environment : List (Text × Text)
  pub failure_scope : Text
  pub failure_stage : Text

-- `wrote_summary` is the file run-summary.json, `saved` another local file.
pub data Event : Type 0 where
  called : Command → Event
  became : Status → Event
  saved : Text → Event
  wrote_summary : Summary → Event

-- An adb call: `error` is Go's error, of a launch that failed or a context that ended.
pub record Ran : Type 0 where
  pub stdout : Text
  pub exit_code : ℤ
  pub error : Option Failure

pub data Loaded : Type 0 where
  bad_manifest : Failure → Loaded
  manifest : Manifest → Loaded

-- The environment of a run. `cancel_from` is the first of the points at which the executor asks for
-- a cancellation (they are numbered from 1) that sees one: a cancellation is never taken back.
pub record Env : Type 0 where
  pub reply : List Event → Command → Ran
  pub out_dir_error : Option Failure
  pub download_error : Option Failure
  pub package_error : Option Failure
  pub extract_error : Option Failure
  pub loaded : Loaded
  pub file_error : File → Option Failure
  pub local_dir_ok : Text → Bool
  pub has_local_file : Text → Bool
  pub cancel_from : ℕ
  pub soc_aliases : List (Text × Text)

-- The events so far, the last first, and the environment of the summary.
pub record Agent : Type 0 where
  pub events : List Event
  pub environment : List (Text × Text)

pub data Result (E A : Type 0) : Type 0 where
  ok : A → Result E A
  err : E → Result E A

abbrev pub Act : Type 0 → Type 0 → Type 0
Act E A = Agent → Result E A × Agent

module _ {E A : Type 0} where
  abbrev pub pure : A → Act E A
  pure x a = (ok x, a)

  abbrev pub raise : E → Act E A
  raise e a = (err e, a)

infixl 5 ◌>>=◌ ◌>>◌
abbrev pub ◌>>=◌ : {E A B : Type 0} → Act E A → (A → Act E B) → Act E B
◌>>=◌ m f a = let (r, b) = m a in elim r [ ok x ↦ f x b | err e ↦ (err e, b) ]

abbrev pub ◌>>◌ : {E A B : Type 0} → Act E A → Act E B → Act E B
m >> k = m >>= λ _. k

-- An error of the first kind as one of the second.
abbrev pub on_error : {D E A : Type 0} → (D → E) → Act D A → Act E A
on_error f m a = let (r, b) = m a in elim r [ ok x ↦ (ok x, b) | err e ↦ (err (f e), b) ]

-- An error that is only asked for.
abbrev pub try_to : {D E A : Type 0} → Act D A → Act E (Result D A)
try_to m a = let (r, b) = m a in (ok r, b)

abbrev pub note : {E : Type 0} → Event → Act E (Unit {0})
note e a = (ok tt, record a { events = e ∷ a.events })

-- sum.Environment[key] = value
abbrev pub set_environment : {E : Type 0} → Text → Text → Act E (Unit {0})
set_environment key value a = (ok tt, record a { environment = (key, value) ∷ a.environment })

-- Runner.Run
unfoldable pub invoke : {E : Type 0} → Env → Command → Act E Ran
invoke env c a = (ok (env.reply a.events c), record a { events = called c ∷ a.events })

abbrev pub raise_some : Option Failure → Act Failure (Unit {0})
raise_some none = pure tt
raise_some (some e) = raise e
