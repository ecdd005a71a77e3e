-- ===== src/Engine/Shell.antt =====
-- internal/engine/shell.go: the raw `shell` of a plan, as an instruction.
use shellf.Prelude.{Option, none, some, Str, str, is_empty, if◌then◌else◌, trim_space}
use shellf.Engine.{Env, Result, ok_result, err_result, err_shell, is_ok}
use shellf.Engine.Exec.{ShellExecutor, Machine, shell}
use shellf.Engine.Run.{Instruction}

module _ {W : Type 0} (machine : Machine W) (cmd : Str) (env : Env) where
  -- `PreCheck`
  unfoldable pub pre_check : Option Result
  pre_check = if is_empty (trim_space cmd) then some (err_result (str "emptyCommand")) else none

  -- `Apply`
  unfoldable pub apply : ShellExecutor → W → Result × W
  apply ex w =
      let (r, w') = shell machine ex cmd env w in
      (if is_ok r then ok_result (str "ran") else err_shell (str "runtime") r, w')

  -- `Shell` as an `Instruction`: it has no guard and nothing to preview.
  unfoldable pub shell_instruction : Instruction W
  unfolding pre_check apply
  shell_instruction = record {
    name = str "shell";
    changed_tag = str "ran";
    pre_check = pre_check;
    guard = λ ex w. (none, w);
    apply = apply;
    preview = λ ex w. (none, w);
  }
