-- ===== src/Engine/Exec.antt =====
-- internal/engine/exec_shell.go: the command line that runs a shell block, with its escalation.
-- Starting the process is the operating system's part, a function that the definitions take.
use shellf.Prelude.{
  List, [], ◌∷◌, ◌++◌, Str, str, str_eq, join, is_empty, ◌≡◌, if◌then◌else◌, keys, ℤ, pos, negsuc,
  sort_strings,
}
use shellf.Engine.{Env, ShellResult}

pub record ShellExecutor : Type 0 where
  pub become : Str
  pub method : Str
  pub interp : Str

-- `As`
unfoldable pub as_user : ShellExecutor → Str → ShellExecutor
as_user s user = if is_empty user then s else record s { become = user }

-- `Using`
unfoldable pub using : ShellExecutor → Str → ShellExecutor
using s interp = if is_empty interp then s else record s { interp = interp }

unfoldable pub prelude : ShellExecutor → Str
prelude s =
    if str_eq s.interp (str "bash")
    then str "set -e\nset -o pipefail\n"
    else if str_eq s.interp (str "nu")
    then []
    else if str_eq s.interp (str "raw")
    then []
    else str "set -e\n"

-- `shellBin`: the binary and its command flag.
unfoldable pub shell_bin : ShellExecutor → Str × Str
shell_bin s =
    if str_eq s.interp (str "bash")
    then (str "/bin/bash", str "-c")
    else if str_eq s.interp (str "dash")
    then (str "/bin/dash", str "-c")
    else if str_eq s.interp (str "nu")
    then (str "nu", str "-c")
    else (str "/bin/sh", str "-c")

-- `if s.Become != "root" { argv = append(argv, "-u", s.Become) }`
abbrev target_user : ShellExecutor → List Str
target_user s = if str_eq s.become (str "root") then [] else str "-u" ∷ s.become ∷ []

abbrev preserve : List Str → List Str
preserve [] = []
preserve (k ∷ ks) = (str "--preserve-env=" ++ join (str ",") (k ∷ ks)) ∷ []

unfoldable pub escalate : ShellExecutor → Env → List Str
escalate s env =
    if is_empty s.become
    then []
    else (let method = if is_empty s.method then str "sudo" else s.method in
        if str_eq method (str "doas")
        then str "doas" ∷ target_user s
        else str "sudo" ∷ str "-n" ∷ (preserve (sort_strings (keys env)) ++ target_user s))

-- The argument vector of `Shell`.
unfoldable pub command_line : ShellExecutor → Str → Env → List Str
unfolding escalate shell_bin prelude
command_line s script env =
    let (bin, flag) = shell_bin s in escalate s env ++ (bin ∷ flag ∷ (prelude s ++ script) ∷ [])

-- `k=v` for each variable.
unfoldable pub assignments : Env → List Str
assignments [] = []
assignments ((k, v) ∷ env) = (k ++ (str "=" ++ v)) ∷ assignments env

-- How `cmd.Run` ends: no error, an `*exec.ExitError` with its code, any other error.
pub data Ending : Type 0 where
  no_error : Ending
  exit_error : ℤ → Ending
  other_error : Ending

abbrev pub exit_code : Ending → ℤ
exit_code no_error = pos 0
exit_code (exit_error n) = n
exit_code other_error = negsuc 0

pub record Finished : Type 0 where
  pub ending : Ending
  pub stdout : Str
  pub stderr : Str

-- The machine that commands run on: `W` is its state, and `spawn` runs an argument vector under
-- environment entries.
pub record Machine (W : Type 0) : Type 0 where
  pub environ : List Str
  pub spawn : List Str → List Str → W → Finished × W

module _ {W : Type 0} (machine : Machine W) where
  -- `Shell`
  unfoldable pub shell : ShellExecutor → Str → Env → W → ShellResult × W
  unfolding command_line assignments
  shell s script env w =
      let (f, w') =
        machine.spawn (command_line s script env) (machine.environ ++ assignments env) w in
      (
        record {
          exit = exit_code f.ending;
          stdout = f.stdout;
          stderr = f.stderr;
          cmd = [];
          def = [];
          line = 0;
          vars = [];
        },
        w',
      )

-- No value of a variable reaches the command line: it depends on the script and on the names of
-- the variables alone.
pub command_line-keys :
    (s : ShellExecutor) (script : Str) (env env' : Env)
    → keys env ≡ keys env'
    → command_line s script env ≡ command_line s script env'
unfolding command_line escalate
command_line-keys s script env env' h = rw h
