-- ===== src/Lang/Parser/Checks.antt =====
-- internal/lang/def_parser.go: the checks on a def behind its closing brace, and its nominal return.
use shellf.Prelude.{
  Bool, true, false, not, ◌||◌, List, [], ◌∷◌, Option, none, some, Str, str, str_eq, if◌then◌else◌,
  any,
}
use shellf.Lang.Ast.{
  Expr, absent, str_lit, control_path, bool_lit, int_lit, ident, field, binary, unary, call,
  shell_expr, Args, no_arg, arg, Outcome, Stmt, let_stmt, effect_stmt, if_stmt, return_stmt,
  state_return_stmt, Stmts, skip, seq, Phase, Call,
}
use shellf.Lang.Parser.{
  P, ◌>>◌, pure, fail, refuse_if, delegate_phase, delegate_shell, empty_apply, apply_without_return,
}

-- `phaseNames`
unfoldable pub is_phase : Str → Bool
is_phase name = any (str_eq name) (str "check" ∷ str "observe" ∷ str "preview" ∷ str "apply" ∷ [])

-- The keys of `removedPhases`.
unfoldable pub is_removed : Str → Bool
is_removed name = any (str_eq name) (str "pre-check" ∷ str "post" ∷ [])

unfoldable mutual
  -- `hasShell`
  pub has_shell : Expr → Bool
  has_shell (shell_expr cmd line interp) = true
  has_shell (call name args ctl) = any_shell args
  has_shell absent = false
  has_shell (str_lit s) = false
  has_shell (control_path s) = false
  has_shell (bool_lit b) = false
  has_shell (int_lit s) = false
  has_shell (ident n) = false
  has_shell (field x n) = false
  has_shell (binary op l r) = false
  has_shell (unary op x) = false

  pub any_shell : Args → Bool
  any_shell no_arg = false
  any_shell (arg e rest) = has_shell e || any_shell rest

-- The loop of `checkDelegation` over the phases.
unfoldable pub only_check : List Phase → P (Unit {0})
only_check [] = pure tt
only_check (ph ∷ phs) =
    refuse_if (not (str_eq ph.name (str "check"))) (delegate_phase ph.name) >> only_check phs

-- `checkDelegation`
unfoldable pub check_delegation : List Phase → Args → P (Unit {0})
check_delegation phs args = only_check phs >> refuse_if (any_shell args) delegate_shell

-- The last statement, with what a `return` of it answers.
abbrev pub returned : Stmt → Option Outcome
returned (return_stmt o) = some o
returned (let_stmt n e) = none
returned (effect_stmt e) = none
returned (if_stmt c b) = none
returned (state_return_stmt fs) = none

unfoldable pub last_return : Stmt → Stmts → Option Outcome
last_return s skip = returned s
last_return s (seq s' rest) = last_return s' rest

-- The `return` that a body ends with.
unfoldable pub final_return : Stmts → Option Outcome
final_return skip = none
final_return (seq s rest) = last_return s rest

abbrev pub need_return : Option Outcome → P (Unit {0})
need_return none = fail apply_without_return
need_return (some o) = pure tt

abbrev pub need_verdict : Stmts → P (Unit {0})
need_verdict skip = fail empty_apply
need_verdict (seq s rest) = need_return (last_return s rest)

-- `checkApplyReturns`
unfoldable pub check_apply_returns : List Phase → P (Unit {0})
check_apply_returns [] = pure tt
check_apply_returns (ph ∷ phs) =
    if str_eq ph.name (str "apply")
    then (need_verdict ph.stmts >> check_apply_returns phs)
    else check_apply_returns phs

-- `nominalReturn`
unfoldable pub nominal_return : List Phase → Option Outcome
nominal_return [] = none
nominal_return (ph ∷ phs) =
    let rest = nominal_return phs in
    if str_eq ph.name (str "apply")
    then elim (final_return ph.stmts) [ none ↦ rest | some o ↦ some o ]
    else rest

-- The checks behind the closing brace.
unfoldable pub check_body_form : List Phase → Option Call → P (Unit {0})
check_body_form phs none = check_apply_returns phs
check_body_form phs (some c) = check_delegation phs c.args
