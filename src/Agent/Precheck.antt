-- ===== src/Agent/Precheck.antt =====
-- The check of a device before anything is changed on it (agent/internal/executor/executor.go,
-- precheck, and agent/internal/adb/soc_probe.go).
use hermes_ai_devops.Common.{
  ℕ, ◌*◌, Bool, true, false, not, ◌&&◌, ◌||◌, Option, none, some, List, [], ◌∷◌, ◌++◌, leb, ltb,
  if◌then◌else◌, ◌==◌, nat_eq,
}
use hermes_ai_devops.Common.Int.{ℤ, pos, negsuc, is_zero}
use hermes_ai_devops.Common.Text.{codes, atoi}
use hermes_ai_devops.Agent.Text.{
  Text, text_eq, trim_space, split, fields, fields_by, to_lower, same_fold, any_text, last_or,
  path_dir,
}
use hermes_ai_devops.Agent.Adb.{
  Target, get_prop, uname_m, disk_free_kb, disk_free_kb_linux, map_linux_arch_to_abi, Command,
}
use hermes_ai_devops.Agent.Run.{
  soc_mismatch, abi_mismatch, no_space, remote_exit, plain, Failure, Manifest, Env, Act, Result, ok,
  err, pure, raise, invoke, try_to, set_environment, ◌>>=◌, ◌>>◌,
}

-- A call whose non-zero exit is an error.
unfoldable pub run_strict : Env → Command → Failure → Act Failure Text
unfolding invoke
run_strict env c failure = invoke env c >>= λ r. elim r.error [
  | some e ↦ raise e
  | none ↦ if is_zero r.exit_code then pure r.stdout else raise failure
]

abbrev soc_start : ℕ → Bool
soc_start c = (leb 97 c && leb c 122) || (leb 65 c && leb c 90) || (leb 48 c && leb c 57)

abbrev soc_rest : Text → Bool
soc_rest [] = true
soc_rest (c ∷ cs) = (soc_start c || c == 46 || c == 95 || c == 45) && soc_rest cs

unfoldable pub valid_soc : Text → Bool
valid_soc [] = false
valid_soc (c ∷ cs) = soc_start c && soc_rest cs

abbrev pub soc_probe_chain : List Text
soc_probe_chain =
    codes "ro.soc.model"
    ∷ codes "ro.chipname"
    ∷ codes "ro.board.platform"
    ∷ codes "ro.product.board"
    ∷ []

-- The loop of ProbeAndroidSOCChain: `out` is what was found, which is also what was seen.
unfoldable pub probe_chain :
    Env → Target → List Text → List Text → Option Failure → Act Failure (List Text)
unfolding run_strict valid_soc
probe_chain env t [] [] (some e) = raise e
probe_chain env t [] [] none = pure []
probe_chain env t [] (x ∷ xs) last_error = pure (x ∷ xs)
probe_chain env t (p ∷ ps) out last_error =
    try_to (run_strict env (get_prop t p) (plain ∷ [])) >>= λ r. elim r [
      | err e ↦ probe_chain env t ps out (some e)
      | ok stdout ↦
          if not (valid_soc (trim_space stdout)) || any_text (trim_space stdout) out
          then probe_chain env t ps out last_error
          else probe_chain env t ps (out ++ trim_space stdout ∷ []) last_error
    ]

abbrev lookup_text : Text → List (Text × Text) → Option Text
lookup_text k [] = none
lookup_text k ((j, v) ∷ m) = if j == k then some v else lookup_text k m

abbrev is_separator : ℕ → Bool
is_separator c = c == 59 || c == 44 || c == 32

abbrev first_text : List Text → Option Text
first_text [] = none
first_text (x ∷ xs) = some x

abbrev alias_value : Text → List (Text × Text) → Option Text
alias_value soc aliases = elim (lookup_text soc aliases) [
  | some v ↦ some v
  | none ↦ lookup_text (to_lower soc) aliases
]

-- ResolveSOCAlias of a chain of one.
unfoldable pub resolve_soc_alias : Text → List (Text × Text) → Option Text
unfolding to_lower fields_by
resolve_soc_alias soc aliases = elim (alias_value soc aliases) [
  | none ↦ none
  | some v ↦ first_text (fields_by is_separator v)
]

abbrev match_directly : Text → List Text → Option Text
match_directly want [] = none
match_directly want (soc ∷ rest) = if same_fold soc want then some soc else match_directly want rest

abbrev match_by_alias : List (Text × Text) → Text → List Text → Option Text
match_by_alias aliases want [] = none
match_by_alias aliases want (soc ∷ rest) = elim (resolve_soc_alias soc aliases) [
  | none ↦ match_by_alias aliases want rest
  | some alias ↦ if same_fold alias want then some alias else match_by_alias aliases want rest
]

-- matchLoop
unfoldable pub match_soc : List (Text × Text) → List Text → List Text → Option Text
unfolding resolve_soc_alias same_fold
match_soc aliases chain [] = none
match_soc aliases chain (want ∷ wants) = elim (match_directly want chain) [
  | some soc ↦ some soc
  | none ↦ elim (match_by_alias aliases want chain) [
    | some alias ↦ some alias
    | none ↦ match_soc aliases chain wants
  ]
]

-- The fourth field of the last line of `df -k`.
unfoldable pub parse_df_available_kb : Text → Option ℤ
unfolding trim_space split fields
parse_df_available_kb out = elim (split 10 (trim_space out)) [
  | [] ↦ none
  | l ∷ [] ↦ none
  | l ∷ m ∷ ls ↦ elim (fields (last_or m ls)) [ a ∷ b ∷ c ∷ d ∷ rest ↦ atoi d | _ ↦ none ]
]

-- availKB < int64(MinFreeStorageMB)*1024
abbrev pub is_short : ℤ → ℕ → Bool
is_short (pos n) mb = ltb n (mb * 1024)
is_short (negsuc n) mb = true

-- The exit code of df is not looked at.
unfoldable pub check_storage : Env → Manifest → Command → Act Failure (Unit {0})
unfolding invoke parse_df_available_kb
check_storage env m c =
    if m.min_free_storage_mb == 0
    then pure tt
    else (invoke env c >>= λ r. elim r.error [
      | some e ↦ raise e
      | none ↦ elim (parse_df_available_kb r.stdout) [
        | none ↦ raise (plain ∷ [])
        | some kb ↦ if is_short kb m.min_free_storage_mb then raise (no_space ∷ []) else pure tt
      ]
    ])

unfoldable pub check_soc : Env → Target → Manifest → Act Failure (Unit {0})
unfolding probe_chain match_soc
check_soc env t m = elim m.soc [
  | [] ↦ pure tt
  | want ∷ wants ↦ probe_chain env t soc_probe_chain [] none >>= λ chain.
      elim (match_soc env.soc_aliases chain m.soc) [
        | none ↦ raise (soc_mismatch ∷ [])
        | some soc ↦ set_environment (codes "soc") soc
      ]
]

-- What reads a property of the release is only noted.
abbrev pub note_release : Result Failure Text → Act Failure (Unit {0})
note_release (err e) = pure tt
note_release (ok stdout) = set_environment (codes "android") (trim_space stdout)

unfoldable pub precheck_android : Env → Target → Manifest → Act Failure (Unit {0})
unfolding run_strict check_soc check_storage path_dir
precheck_android env t m =
    run_strict env (get_prop t (codes "ro.product.cpu.abi")) (remote_exit ∷ []) >>= λ stdout.
    set_environment (codes "abi") (trim_space stdout)
    >> (if not (trim_space stdout == m.abi) then raise (abi_mismatch ∷ []) else pure tt)
    >> (try_to (run_strict env (get_prop t (codes "ro.build.version.release")) (remote_exit ∷ []))
        >>= note_release)
    >> check_soc env t m
    >> check_storage env m (disk_free_kb t (path_dir m.workdir))

unfoldable pub precheck_linux : Env → Target → Manifest → Act Failure (Unit {0})
unfolding run_strict check_storage path_dir
precheck_linux env t m = run_strict env (uname_m t) (remote_exit ∷ []) >>= λ stdout.
    let abi = map_linux_arch_to_abi (trim_space stdout) in
    set_environment (codes "abi") abi
    >> (if not (abi == m.abi) then raise (abi_mismatch ∷ []) else pure tt)
    >> set_environment (codes "os") (codes "linux")
    >> check_storage env m (disk_free_kb_linux t (path_dir m.workdir))

unfoldable pub precheck : Env → Target → Manifest → Act Failure (Unit {0})
unfolding precheck_linux precheck_android
precheck env t m =
    if m.os == codes "linux" then precheck_linux env t m else precheck_android env t m
