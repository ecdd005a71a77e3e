-- ===== src/Tests.antt =====
-- Concrete inputs for the theorems: a machine that counts the commands it runs, defs, plans, and an
-- inventory.
pub mod SyntaxTests
pub mod SlotTests
pub mod ArgTests
pub mod ModuleTests
pub mod LangTests
pub mod EngineTests
pub mod AgentTests
pub mod FleetTests
pub mod GuardTests
use shellf.Prelude.{
  ℕ, suc, Bool, true, false, List, [], ◌∷◌, Option, none, some, Str, str, str_eq, if◌then◌else◌,
  Map, ◌⊎◌, inl, inr, refl, pos,
}
use shellf.Engine.{Result, ok_result, ShellResult}
use shellf.Engine.Exec.{ShellExecutor, Machine, no_error, exit_error}
use shellf.Engine.FilePut.{Codec, TempFiles}
use shellf.Lang.Ast.{
  Expr, absent, call, shell_expr, no_arg, Stmts, skip, seq, effect_stmt, return_stmt,
  state_return_stmt, str_lit, Phase, Def, Outcome,
}
use shellf.Lang.Services.{Services, Regexp}
use shellf.Proto.{
  Fields, Step, step, Steps, stop, also, no_if, StepResult, step_result, Response, Results, empty,
  more,
}
use shellf.Agent.{Target, plain}

-- Each command succeeds and writes nothing; the state counts them.
abbrev pub counting : Machine ℕ
counting = record {
  environ = [];
  spawn = λ argv env w. (record { ending = no_error; stdout = []; stderr = [] }, suc w);
}

-- Each command fails.
abbrev pub failing : Machine ℕ
failing = record {
  environ = [];
  spawn = λ argv env w. (record { ending = exit_error (pos 1); stdout = []; stderr = [] }, suc w);
}

abbrev pub plain_codec : Codec
plain_codec = record {
  encode = λ b. b;
  decode = some;
  sha256_hex = λ b. b;
  decode-encode = λ b. refl;
}

abbrev pub one_temp : TempFiles ℕ
one_temp = record {
  create = λ w. (some (str "/tmp/t"), suc w);
  write = λ path bytes w. (true, suc w);
  close = λ path w. (true, suc w);
  remove = λ path w. suc w;
}

abbrev pub literal_regexp : Regexp
literal_regexp = record {
  compiles = λ p. true;
  matches = str_eq;
  replace_all_literal = λ p s r. if str_eq p s then r else s;
}

abbrev pub services_on : Machine ℕ → Services ℕ
services_on machine = record {
  machine = machine;
  temp = one_temp;
  codec = plain_codec;
  regexp = literal_regexp;
  resolve = none;
  fetch = none;
  sync = none;
  preview = none;
}

abbrev pub plain_executor : ShellExecutor
plain_executor = record { become = []; method = []; interp = [] }

abbrev pub def_of : Str → List Phase → Option Outcome → Def
def_of name phases ret = record {
  name = name;
  params = [];
  become = [];
  interp = [];
  override = false;
  phases = phases;
  delegate = none;
  ret = ret;
  source = [];
}

-- A def with one `apply` that calls another.
abbrev pub caller : Str → Str → Def
caller name callee =
    def_of name
      (record { name = str "apply"; stmts = seq (effect_stmt (call callee no_arg false)) skip }
        ∷ [])
      none

abbrev pub leaf : Def
leaf = def_of (str "c") (record { name = str "apply"; stmts = skip } ∷ []) none

abbrev pub target_on : Machine ℕ → Target ℕ
target_on machine = record {
  services = services_on machine;
  std = λ n. none;
  describe = λ e. [];
  fuel = 3;
}

abbrev pub shell_fields : Str → Fields
shell_fields cmd = record {
  instruction = str "shell";
  args = (str "cmd", cmd) ∷ [];
  refs = [];
  templates = [];
  bind = [];
  caught = false;
  become = [];
  interp = [];
  env = [];
  with_ = [];
  control = [];
  line = 0;
  col = 0;
}

abbrev pub shell_step : Str → Step
shell_step cmd = step (shell_fields cmd) stop stop no_if
