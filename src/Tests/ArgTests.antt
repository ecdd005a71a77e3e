-- ===== src/Tests/ArgTests.antt =====
-- The theorems on pure checks and on the scan of a plan at concrete inputs.
use shellf.Prelude.{
  ℕ, true, List, [], ◌∷◌, none, some, Str, str, ◌≡◌, ◌↔◌, In, any, str_eq, lookup, refl,
}
use shellf.Engine.{check_mode}
use shellf.Lang.Ast.{
  absent, str_lit, ident, unary, call, no_arg, arg, if_stmt, return_stmt, Stmts, skip, seq, Def,
}
use shellf.Lang.Monad.{Ev}
use shellf.Lang.Run.{eval_def}
use shellf.Lang.Services.{Config}
use shellf.Lang.Value.{nil, text}
use shellf.Lang.ArgCheck.{pure_check, eval_pure_check}
use shellf.Lang.ArgCheck.Rules.{StillOut}
use shellf.Lang.ArgCheck.Still.{pure_check-StillOut}
use shellf.Lang.ControlScan.{control_resources}
use shellf.Lang.ControlScan.Allowed.{Declares, control_resources-Declares}
use shellf.Proto.{Steps, step, stop, also, no_if}
use shellf.Tests.{shell_fields, services_on, counting, plain_executor}

-- `if !~text.matches(p, "^/") { return err.relative }`
abbrev shape_check : Stmts
shape_check =
    seq
      (if_stmt
        (unary (str "!") (
          call (str "text.matches") (arg (ident (str "p")) (arg (str_lit (str "^/")) no_arg)) true))
        (seq (return_stmt (record { category = str "err"; tag = str "relative"; payload = absent }))
          skip))
      skip

abbrev checked : Def
checked = record {
  name = str "checked";
  params = record { name = str "p"; type = str "str"; default = none } ∷ [];
  become = [];
  interp = [];
  override = true;
  phases = record { name = str "check"; stmts = shape_check } ∷ [];
  delegate = none;
  ret = none;
  source = [];
}

abbrev given : Ev ℕ
given = record {
  vars = (str "p", text (str "etc")) ∷ [];
  last = nil;
  ran = [];
  acted = true;
  world = 4;
}

abbrev in_check : Config
in_check = record { ex = plain_executor; mode = check_mode; stack = []; def_name = str "checked" }

checked_pure : pure_check checked.phases ≡ some shape_check
unfolding pure_check shellf.Lang.ArgCheck.pure_stmts shellf.Lang.ArgCheck.pure_expr
    shellf.Lang.ArgCheck.is_pure_primitive shellf.Lang.ArgCheck.pure_payload shellf.Prelude.str_eq
    shellf.Lang.ArgCheck.pure_stmt shellf.Lang.ArgCheck.pure_args
checked_pure = refl

pure_check-StillOut_example : StillOut 4 (
    eval_pure_check
      (services_on counting)
      in_check
      (eval_def (services_on counting) 2)
      shape_check
      given)
pure_check-StillOut_example =
    pure_check-StillOut (services_on counting) in_check (eval_def (services_on counting) 2) checked
      shape_check checked_pure given

-- A template with a path that the plan marks, in a block.
abbrev templated : Steps
templated =
    also
      (step (shell_fields (str "true"))
        (also
          (step
            (record (shell_fields []) {
              instruction = str "file.template";
              args = (str "src", str "conf.j2") ∷ (str "dst", str "/etc/conf") ∷ [];
              control = str "src" ∷ [];
            })
            stop stop no_if)
          stop)
        stop no_if)
      stop

control_resources-Declares_example :
    Declares (str "file.read:conf.j2") templated
    ↔ In (str "file.read:conf.j2") (control_resources templated)
control_resources-Declares_example = control_resources-Declares (str "file.read:conf.j2") templated

-- The path is allowed.
conf_allowed : any (str_eq (str "file.render:conf.j2")) (control_resources templated) ≡ true
unfolding control_resources shellf.Lang.ControlScan.scan_steps shellf.Lang.ControlScan.scan_step
    shellf.Lang.ControlScan.scan_branch shellf.Lang.ControlScan.scan_cond
    shellf.Lang.ControlScan.scan_control lookup str_eq shellf.Prelude.sort_strings
    shellf.Prelude.insert_sorted shellf.Prelude.str_le
conf_allowed = refl
