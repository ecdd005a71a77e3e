-- ===== src/Lang/Parser/Clean.antt =====
-- internal/lang/def_parser.go: what the grammar admits of expressions and statements inside a def and
-- outside of one (`p.inDef`).
use shellf.Prelude.{str, ◌∷◌, Option, none, some, Bool, true, false, List, Str, ◌≡◌, ◌⊎◌, All}
use shellf.Prelude
use shellf.Lang.Ast.{Phase, Param, Call, Def}
use shellf.Lang.Parser.Checks.{is_phase, any_shell, final_return, nominal_return}
use shellf.Lang.Ast.{
  Expr, absent, str_lit, control_path, bool_lit, int_lit, ident, field, binary, unary, call,
  shell_expr, Args, no_arg, arg, Outcome, StateField, Stmt, let_stmt, effect_stmt, if_stmt,
  return_stmt, state_return_stmt, Stmts, skip, seq,
}
use shellf.Lang.Parser.Shell.{valid_interp}
use shellf.Lang.Parser.Exprs.{is_primitive}
use shellf.Lang.Parser.Stmts.{is_category}

-- No interpreter, or one of those that the program knows.
abbrev pub GoodInterp : Str → Type 0
GoodInterp i = (i ≡ Prelude.[]) ⊎ (valid_interp i ≡ true)

abbrev mutual
  -- No path of the control host inside a def, no primitive that the program does not know, and no
  -- unknown interpreter.
  pub CleanExpr : Bool → Expr → Type 0
  CleanExpr d absent = Unit {0}
  CleanExpr d (str_lit s) = Unit {0}
  CleanExpr d (control_path s) = d ≡ false
  CleanExpr d (bool_lit b) = Unit {0}
  CleanExpr d (int_lit s) = Unit {0}
  CleanExpr d (ident n) = Unit {0}
  CleanExpr d (field x n) = CleanExpr d x
  CleanExpr d (binary op l r) = CleanExpr d l × CleanExpr d r
  CleanExpr d (unary op x) = CleanExpr d x
  CleanExpr d (call n args ctl) = (ctl ≡ true → is_primitive n ≡ true) × CleanArgs d args
  CleanExpr d (shell_expr cmd line interp) = GoodInterp interp

  pub CleanArgs : Bool → Args → Type 0
  CleanArgs d no_arg = Unit {0}
  CleanArgs d (arg e rest) = CleanExpr d e × CleanArgs d rest

abbrev pub CleanOutcome : Bool → Outcome → Type 0
CleanOutcome d o = (is_category o.category ≡ true) × CleanExpr d o.payload

abbrev pub CleanFields : Bool → List StateField → Type 0
CleanFields d fs = All (λ f. CleanExpr d f.value) fs

abbrev mutual
  pub CleanStmt : Bool → Stmt → Type 0
  CleanStmt d (let_stmt n e) = CleanExpr d e
  CleanStmt d (effect_stmt e) = CleanExpr d e
  CleanStmt d (if_stmt c body) = CleanExpr d c × CleanStmts d body
  CleanStmt d (return_stmt o) = CleanOutcome d o
  CleanStmt d (state_return_stmt fs) = CleanFields d fs

  pub CleanStmts : Bool → Stmts → Type 0
  CleanStmts d skip = Unit {0}
  CleanStmts d (seq s rest) = CleanStmt d s × CleanStmts d rest

-- No default, or a clean one: outside the body of a def.
abbrev pub CleanDefault : Bool → Option Expr → Type 0
CleanDefault d none = Unit {0}
CleanDefault d (some e) = CleanExpr d e

abbrev pub GoodParam : Bool → Param → Type 0
GoodParam d p = ((p.type ≡ str "str") ⊎ (p.type ≡ str "bool")) × CleanDefault d p.default

abbrev pub GoodPhase : Phase → Type 0
GoodPhase ph = (is_phase ph.name ≡ true) × CleanStmts true ph.stmts

abbrev pub OnlyCheck : List Phase → Type 0
OnlyCheck phs = All (λ ph. ph.name ≡ str "check") phs

-- Each `apply` ends with a `return`.
abbrev pub EndedApplies : List Phase → Type 0
EndedApplies phs =
    All (λ ph. ph.name ≡ str "apply" → (o : Outcome) × (final_return ph.stmts ≡ some o)) phs

-- A def decides in its phases, or delegates the decision.
abbrev pub BodyForm : List Phase → Option Call → Type 0
BodyForm phs none = EndedApplies phs
BodyForm phs (some c) = OnlyCheck phs × (any_shell c.args ≡ false)

abbrev pub CleanDelegate : Option Call → Type 0
CleanDelegate none = Unit {0}
CleanDelegate (some c) = CleanArgs true c.args

-- What the parser makes sure of, for a def that stands outside of other defs.
pub record WellFormed (d : Def) : Type 0 where
  pub params : All (GoodParam false) d.params
  pub interp : GoodInterp d.interp
  pub phases : All GoodPhase d.phases
  pub delegate : CleanDelegate d.delegate
  pub form : BodyForm d.phases d.delegate
  pub verdict : d.ret ≡ nominal_return d.phases
