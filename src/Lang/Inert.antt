-- ===== src/Lang/Inert.antt =====
-- internal/lang/inert.go: the `apply` that check mode may evaluate, and the defs that only ask.
use shellf.Prelude.{
  Bool, true, false, ◌&&◌, List, [], ◌∷◌, Option, none, some, str, str_eq, if◌then◌else◌,
}
use shellf.Lang.Ast.{
  Expr, absent, str_lit, control_path, bool_lit, int_lit, ident, field, binary, unary, call,
  shell_expr, Args, no_arg, arg, Stmt, let_stmt, effect_stmt, if_stmt, return_stmt,
  state_return_stmt, Stmts, skip, seq, StateField, Phase, Call, Def,
}

unfoldable mutual
  -- `inertExpr`
  pub inert_expr : Expr → Bool
  inert_expr (shell_expr cmd line interp) = false
  inert_expr (call name args ctl) = ctl && inert_args args
  inert_expr (binary op l r) = inert_expr l && inert_expr r
  inert_expr (unary op x) = inert_expr x
  inert_expr (field recv name) = inert_expr recv
  inert_expr (str_lit s) = true
  inert_expr (control_path s) = true
  inert_expr (bool_lit b) = true
  inert_expr (int_lit s) = true
  inert_expr (ident s) = true
  inert_expr absent = true

  pub inert_args : Args → Bool
  inert_args no_arg = true
  inert_args (arg a rest) = inert_expr a && inert_args rest

unfoldable pub inert_fields : List StateField → Bool
inert_fields [] = true
inert_fields (f ∷ fs) = inert_expr f.value && inert_fields fs

unfoldable mutual
  -- `inertStmts`
  pub inert_stmt : Stmt → Bool
  inert_stmt (let_stmt name value) = inert_expr value
  inert_stmt (effect_stmt x) = inert_expr x
  inert_stmt (if_stmt cond body) = inert_expr cond && inert_stmts body
  inert_stmt (return_stmt o) = inert_expr o.payload
  inert_stmt (state_return_stmt fields) = inert_fields fields

  pub inert_stmts : Stmts → Bool
  inert_stmts skip = true
  inert_stmts (seq s ss) = inert_stmt s && inert_stmts ss

-- The loop of `inertApply` over the phases, with the apply found so far.
unfoldable pub find_apply : List Phase → Option Stmts → Option Stmts
find_apply [] found = found
find_apply (ph ∷ phs) found =
    if str_eq ph.name (str "observe")
    then none
    else find_apply phs (if str_eq ph.name (str "apply") then some ph.stmts else found)

-- `inertApply`
unfoldable pub inert_apply : Def → Option Stmts
unfolding find_apply
inert_apply d = elim (find_apply d.phases none) [
  | none ↦ none
  | some ss ↦ if inert_stmts ss then some ss else none
]

abbrev is_none : Option Call → Bool
is_none none = true
is_none (some c) = false

unfoldable pub only_checks : List Phase → Bool → Bool
only_checks [] seen = seen
only_checks (ph ∷ phs) seen =
    let rest = only_checks phs true in if str_eq ph.name (str "check") then rest else false

-- `isQuestion`
unfoldable pub is_question : Def → Bool
unfolding only_checks
is_question d = only_checks d.phases false && is_none d.delegate
