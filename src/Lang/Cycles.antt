-- ===== src/Lang/Cycles.antt =====
-- internal/lang/cycles.go: the calls of a def, and the depth-first walk of the call graph.
-- `walk` recurs on fuel here, one unit for each def on the path; Cycles/Decide shows how much is
-- enough.
pub mod Called
pub mod Edges
pub mod Sound
pub mod Decide
use shellf.Prelude.{
  ℕ, zero, suc, Bool, true, false, not, List, [], ◌∷◌, ◌++◌, Option, none, some, Str, str_eq, any,
  if◌then◌else◌, Set, empty_set, assign, Map, keys, sort_strings,
}
use shellf.Lang.Ast.{
  Expr, absent, str_lit, control_path, bool_lit, int_lit, ident, field, binary, unary, call,
  shell_expr, Args, no_arg, arg, Stmt, let_stmt, effect_stmt, if_stmt, return_stmt,
  state_return_stmt, Stmts, skip, seq, StateField, Phase, Call, Def, DefResolver,
}

-- The closure `add` of `Callees`: `out` holds each name once, which is what `seen` is for.
unfoldable pub add : List Str → Str → List Str
add out n = if any (str_eq n) out then out else out ++ n ∷ []

unfoldable mutual
  pub calls_in_expr : Expr → List Str → List Str
  calls_in_expr (call name args control) out =
      calls_in_args args (if not control then add out name else out)
  calls_in_expr (binary op l r) out = calls_in_expr r (calls_in_expr l out)
  calls_in_expr (unary op x) out = calls_in_expr x out
  calls_in_expr (field recv name) out = calls_in_expr recv out
  calls_in_expr absent out = out
  calls_in_expr (str_lit s) out = out
  calls_in_expr (control_path s) out = out
  calls_in_expr (bool_lit b) out = out
  calls_in_expr (int_lit s) out = out
  calls_in_expr (ident s) out = out
  calls_in_expr (shell_expr cmd line interp) out = out

  pub calls_in_args : Args → List Str → List Str
  calls_in_args no_arg out = out
  calls_in_args (arg a as_) out = calls_in_args as_ (calls_in_expr a out)

unfoldable pub calls_in_fields : List StateField → List Str → List Str
calls_in_fields [] out = out
calls_in_fields (f ∷ fs) out = calls_in_fields fs (calls_in_expr f.value out)

unfoldable mutual
  pub calls_in_stmt : Stmt → List Str → List Str
  calls_in_stmt (if_stmt cond body) out = calls_in_stmts body (calls_in_expr cond out)
  calls_in_stmt (let_stmt name value) out = calls_in_expr value out
  calls_in_stmt (effect_stmt e) out = calls_in_expr e out
  calls_in_stmt (state_return_stmt fields) out = calls_in_fields fields out
  calls_in_stmt (return_stmt o) out = out

  pub calls_in_stmts : Stmts → List Str → List Str
  calls_in_stmts skip out = out
  calls_in_stmts (seq s ss) out = calls_in_stmts ss (calls_in_stmt s out)

unfoldable pub calls_in_phases : List Phase → List Str → List Str
calls_in_phases [] out = out
calls_in_phases (ph ∷ phs) out = calls_in_phases phs (calls_in_stmts ph.stmts out)

-- `d.Delegate != nil && !d.Delegate.Control`
unfoldable pub add_delegate : Option Call → List Str → List Str
add_delegate none out = out
add_delegate (some c) out = if not c.control then add out c.name else out

-- `Callees`
unfoldable pub callees : Def → List Str
unfolding calls_in_phases calls_in_stmt calls_in_fields calls_in_expr add add_delegate
callees d = add_delegate d.delegate (calls_in_phases d.phases [])

-- The maps that `walk` shares along the walk.
pub record Walk : Type 0 where
  pub on_path : Set
  pub done : Set

-- `cycle chain name` is the error `call cycle: <chain> -> <name>`.
pub data Outcome : Type 0 where
  ok : Walk → Outcome
  cycle : List Str → Str → Outcome
  out_of_fuel : Outcome

-- The loop `for _, callee := range Callees(d)` over a walk that is passed in.
unfoldable pub walk_all : (Str → Walk → Outcome) → List Str → Walk → Outcome
walk_all visit [] w = ok w
walk_all visit (c ∷ cs) w = elim (visit c w) [
  | ok w' ↦ walk_all visit cs w'
  | cycle chain name ↦ cycle chain name
  | out_of_fuel ↦ out_of_fuel
]

-- The last two lines of `walk`.
unfoldable pub leave : Str → Outcome → Outcome
leave name (ok w) =
    ok (record { on_path = assign w.on_path name false; done = assign w.done name true })
leave name (cycle chain n) = cycle chain n
leave name out_of_fuel = out_of_fuel

abbrev pub enter : Str → Walk → Walk
enter name w = record w { on_path = assign w.on_path name true }

-- The callees of what a name resolves to.
abbrev pub callees_of : Option Def → List Str
callees_of none = []
callees_of (some d) = callees d

module _ (resolve : DefResolver) where
  unfoldable pub walk : ℕ → List Str → Str → Walk → Outcome
  walk zero chain name w = out_of_fuel
  walk (suc fuel) chain name w =
      let visit = walk fuel (chain ++ name ∷ []) in
      if w.done name
      then ok w
      else if w.on_path name
      then cycle chain name
      else elim (resolve name) [
        | none ↦ ok w
        | some d ↦ leave name (walk_all visit (callees d) (enter name w))
      ]

  -- The loop of `CheckCycles`: a fresh `onPath` for each name, one `done` for all.
  unfoldable pub check_names : ℕ → List Str → Set → Outcome
  check_names fuel [] done = ok (record { on_path = empty_set; done = done })
  check_names fuel (n ∷ ns) done =
      elim (walk fuel [] n (record { on_path = empty_set; done = done })) [
        | ok w ↦ check_names fuel ns w.done
        | cycle chain name ↦ cycle chain name
        | out_of_fuel ↦ out_of_fuel
      ]

  -- `CheckCycles`
  unfoldable pub check_cycles : ℕ → Map Def → Outcome
  unfolding check_names
  check_cycles fuel defs = check_names fuel (sort_strings (keys defs)) empty_set
