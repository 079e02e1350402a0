-- ===== src/Agent/Adb.antt =====
-- The adb commands (agent/internal/adb/adb.go): the only source of argument vectors, and the parser of
-- `adb devices -l`. A device's state and names are texts.
pub mod Quoting
use hermes_ai_devops.Common.{
  ℕ, ◌+◌, ◌≡◌, refl, String, Bool, true, false, not, ◌&&◌, ◌||◌, Option, none, some, List, [], ◌∷◌,
  ◌++◌, leb, ltb, if◌then◌else◌, ◌==◌, nat_eq, min, max,
}
use hermes_ai_devops.Common.Int.{ℤ, pos, negsuc}
use hermes_ai_devops.Common.Text.{codes, itoa, atoi}
use hermes_ai_devops.Agent.Text.{Text, text_eq, split, fields, cut}

abbrev pub Argv : Type 0
Argv = List Text

-- strings.ReplaceAll(s, "'", `'\''`): the quote, a backslash and two quotes.
unfoldable pub escape_quotes : Text → Text
escape_quotes [] = []
escape_quotes (c ∷ cs) =
    if c == 39 then 39 ∷ 92 ∷ 39 ∷ 39 ∷ escape_quotes cs else c ∷ escape_quotes cs

unfoldable pub quote : Text → Text
unfolding escape_quotes
quote s = 39 ∷ escape_quotes s ++ 39 ∷ []

-- A transport id of 0 is none.
pub record Target : Type 0 where
  pub serial : Text
  pub transport_id : ℤ

abbrev pub is_none_id : ℤ → Bool
is_none_id (pos n) = n == 0
is_none_id (negsuc n) = false

unfoldable pub target_for : Text → ℤ → Target
target_for serial transport_id =
    if serial == codes "?" || serial == []
    then (if not (is_none_id transport_id)
        then record { serial = []; transport_id = transport_id }
        else record { serial = codes "?"; transport_id = pos 0 })
    else record { serial = serial; transport_id = pos 0 }

-- strconv.Itoa
abbrev pub show_int : ℤ → Text
show_int (pos n) = codes (itoa n)
show_int (negsuc n) = codes "-" ++ codes (itoa (n + 1))

unfoldable pub target_argv : Target → Argv
target_argv t =
    if not (is_none_id t.transport_id)
    then codes "-t" ∷ show_int t.transport_id ∷ []
    else codes "-s" ∷ t.serial ∷ []

unfoldable pub target_string : Target → Text
target_string t =
    if not (is_none_id t.transport_id)
    then codes "transport#" ++ show_int t.transport_id
    else t.serial

abbrev pub shell : Target → List Text → Argv
shell t rest = target_argv t ++ codes "shell" ∷ rest

unfoldable pub map_linux_arch_to_abi : Text → Text
map_linux_arch_to_abi arch =
    if arch == codes "aarch64"
    then codes "arm64-v8a"
    else if arch == codes "armv7l"
    then codes "armeabi-v7a"
    else if arch == codes "x86_64"
    then codes "x86_64"
    else if arch == codes "i686" || arch == codes "i386"
    then codes "x86"
    else arch

-- The environment sorted by its keys.
abbrev pub show_env : List (Text × Text) → Text
show_env [] = []
show_env ((k, v) ∷ rest) = codes " " ++ k ++ codes "=" ++ quote v ++ show_env rest

abbrev pub show_args : List Text → Text
show_args [] = []
show_args (a ∷ rest) = codes " " ++ quote a ++ show_args rest

unfoldable pub entry_line : Text → List (Text × Text) → Text → List Text → Text
entry_line workdir env entry args =
    codes "cd "
    ++ quote workdir
    ++ codes " &&"
    ++ show_env env
    ++ codes " "
    ++ quote entry
    ++ show_args args

-- The commands, by the functions that build them.
pub data Command : Type 0 where
  get_prop : Target → Text → Command
  uname_m device_tree_serial_number machine_id logcat_clear logcat_dump get_state : Target → Command
  disk_free_kb disk_free_kb_linux shell_mkdir_all shell_remove_all shell_pkill :
      Target → Text → Command
  push pull shell_chmod shell_list_glob : Target → Text → Text → Command
  logcat_tail : Target → ℕ → Command
  devices : Command
  shell_run_entry : Target → Text → List (Text × Text) → Text → List Text → Command

-- LogcatTail keeps the number of lines between 1 and 1000.
abbrev pub bounded_lines : ℕ → ℕ
bounded_lines lines = if ltb 1000 lines then 1000 else if ltb lines 1 then 1 else lines

unfoldable pub argv : Command → Argv
unfolding quote entry_line target_argv
argv (get_prop t prop) = shell t (codes "/system/bin/getprop" ∷ prop ∷ [])
argv (uname_m t) = shell t (codes "uname" ∷ codes "-m" ∷ [])
argv (device_tree_serial_number t) =
    shell t (codes "/bin/cat" ∷ codes "/proc/device-tree/serial-number" ∷ [])
argv (machine_id t) = shell t (codes "/bin/cat" ∷ codes "/etc/machine-id" ∷ [])
argv (disk_free_kb t path) = shell t (codes "/system/bin/df" ∷ codes "-k" ∷ path ∷ [])
argv (disk_free_kb_linux t path) = shell t (codes "df" ∷ codes "-k" ∷ path ∷ [])
argv (push t local remote) = target_argv t ++ codes "push" ∷ local ∷ remote ∷ []
argv (pull t remote local) = target_argv t ++ codes "pull" ∷ remote ∷ local ∷ []
argv (shell_mkdir_all t dir) = shell t ((codes "mkdir -p " ++ quote dir) ∷ [])
argv (shell_remove_all t dir) = shell t ((codes "rm -rf " ++ quote dir) ∷ [])
argv (shell_chmod t mode path) = shell t ((codes "chmod " ++ mode ++ codes " " ++ quote path) ∷ [])
argv (shell_pkill t pattern) = shell t ((codes "pkill -f " ++ quote pattern) ∷ [])
argv (logcat_clear t) = target_argv t ++ codes "logcat" ∷ codes "-c" ∷ []
argv (logcat_dump t) = target_argv t ++ codes "logcat" ∷ codes "-d" ∷ []
argv (logcat_tail t lines) =
    target_argv t
    ++ codes "logcat" ∷ codes "-d" ∷ codes "-t" ∷ codes (itoa (bounded_lines lines)) ∷ []
argv devices = codes "devices" ∷ codes "-l" ∷ []
argv (get_state t) = target_argv t ++ codes "get-state" ∷ []
argv (shell_list_glob t workdir pattern) =
    shell t ((codes "cd " ++ quote workdir ++ codes " && ls -1d " ++ pattern) ∷ [])
argv (shell_run_entry t workdir env entry args) = shell t (entry_line workdir env entry args ∷ [])

pub record ListedDevice : Type 0 where
  pub serial : Text
  pub transport_id : ℤ
  pub product : Text
  pub model : Text
  pub state : Text

abbrev pub read_pair : ListedDevice → Text → Text → ListedDevice
read_pair d key val =
    if key == codes "transport_id"
    then elim (atoi val) [ none ↦ d | some n ↦ record d { transport_id = n } ]
    else if key == codes "product"
    then record d { product = val }
    else if key == codes "model"
    then record d { model = val }
    else d

unfoldable pub read_pairs : ListedDevice → List Text → ListedDevice
read_pairs d [] = d
read_pairs d (f ∷ fs) = elim (cut 58 f) [
  | none ↦ read_pairs d fs
  | some (key, val) ↦ read_pairs (read_pair d key val) fs
]

-- A line of `adb devices -l`.
unfoldable pub read_device : Text → Option ListedDevice
unfolding read_pairs fields
read_device line = elim (fields line) [
  | [] ↦ none
  | serial ∷ [] ↦ none
  | serial ∷ state ∷ rest ↦
      if serial == codes "List"
      then none
      else some (
          read_pairs
            (record {
              serial = serial;
              transport_id = pos 0;
              product = [];
              model = [];
              state = state;
            })
            rest)
]

unfoldable pub read_lines : List Text → List ListedDevice
read_lines [] = []
read_lines (l ∷ ls) = elim (read_device l) [ none ↦ read_lines ls | some d ↦ d ∷ read_lines ls ]

unfoldable pub parse_device_list : Text → List ListedDevice
unfolding read_lines split
parse_device_list out = read_lines (split 10 out)

abbrev pub is_online : ListedDevice → Bool
is_online d = d.state == codes "device"
