-- ===== src/Lang/ArgCheck.antt =====
-- internal/lang/argcheck.go: the `check` that can be evaluated while the plan is read, because it reaches
-- nothing.
pub mod Rules
pub mod PrimitivesStill
pub mod Still
use shellf.Prelude.{
  Bool, true, false, not, ◌&&◌, ◌||◌, List, [], ◌∷◌, Option, none, some, Str, str, str_eq, Map,
  if◌then◌else◌,
}
use shellf.Engine.{Result}
use shellf.Lang.Ast.{
  Expr, absent, str_lit, control_path, bool_lit, int_lit, ident, field, binary, unary, call,
  shell_expr, Args, no_arg, arg, Outcome, Stmt, let_stmt, effect_stmt, if_stmt, return_stmt,
  state_return_stmt, Stmts, skip, seq, Phase, Def,
}
use shellf.Lang.Eval.{eval_stmts, to_result}
use shellf.Lang.Monad.{M, ◌>>=◌, pure}
use shellf.Lang.Services.{Services, Config, DefOut}

-- `purePrimitives`
unfoldable pub is_pure_primitive : Str → Bool
is_pure_primitive name = str_eq name (str "text.matches") || str_eq name (str "text.replace")

unfoldable mutual
  -- `pureExpr`
  pub pure_expr : Expr → Bool
  pure_expr (call name args ctl) = (ctl && is_pure_primitive name) && pure_args args
  pure_expr (binary op l r) = pure_expr l && pure_expr r
  pure_expr (unary op x) = pure_expr x
  pure_expr (field recv name) = pure_expr recv
  pure_expr (str_lit s) = true
  pure_expr (bool_lit b) = true
  pure_expr (int_lit s) = true
  pure_expr (ident n) = true
  pure_expr (shell_expr cmd line interp) = false
  pure_expr (control_path s) = false
  pure_expr absent = false

  pub pure_args : Args → Bool
  pure_args no_arg = true
  pure_args (arg a rest) = pure_expr a && pure_args rest

-- A payload, if there is one.
unfoldable pub pure_payload : Expr → Bool
unfolding pure_expr
pure_payload absent = true
pure_payload (call name args ctl) = pure_expr (call name args ctl)
pure_payload (binary op l r) = pure_expr (binary op l r)
pure_payload (unary op x) = pure_expr (unary op x)
pure_payload (field recv name) = pure_expr (field recv name)
pure_payload (str_lit s) = true
pure_payload (bool_lit b) = true
pure_payload (int_lit s) = true
pure_payload (ident n) = true
pure_payload (shell_expr cmd line interp) = false
pure_payload (control_path s) = false

unfoldable mutual
  -- `pureStmts`
  pub pure_stmt : Stmt → Bool
  pure_stmt (let_stmt name value) = pure_expr value
  pure_stmt (effect_stmt x) = pure_expr x
  pure_stmt (if_stmt cond body) = pure_expr cond && pure_stmts body
  pure_stmt (return_stmt o) = pure_payload o.payload
  pure_stmt (state_return_stmt fields) = false

  pub pure_stmts : Stmts → Bool
  pure_stmts skip = true
  pure_stmts (seq s ss) = pure_stmt s && pure_stmts ss

-- `pureCheck`: the first `check` phase, if it is pure.
unfoldable pub pure_check : List Phase → Option Stmts
pure_check [] = none
pure_check (ph ∷ phs) =
    let rest = pure_check phs in
    if str_eq ph.name (str "check")
    then (if pure_stmts ph.stmts then some ph.stmts else none)
    else rest

module _ {W : Type 0} (sv : Services W) (cfg : Config)
    (call_def : Def → Map Str → Map Str → List Str → Config → W → DefOut W) where
  abbrev pub result_of : Option Outcome → M W (Option Result)
  result_of none = pure none
  result_of (some o) = to_result sv cfg call_def o >>= λ r. pure (some r)

  -- `evalPureCheck`, once its evaluator is there: the phase, then the result of the outcome that it
  -- reached, which evaluates the payload.
  unfoldable pub eval_pure_check : Stmts → M W (Option Result)
  eval_pure_check ss = eval_stmts sv cfg call_def ss >>= result_of
