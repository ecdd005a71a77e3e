-- ===== src/Lang/Eval.antt =====
-- internal/lang/eval.go: expressions and statements. A call of another def goes through `call_def`,
-- which is `EvalDefFull` (Lang/Run), so that these definitions are structural in the syntax.
use shellf.Prelude.{
  ℕ, suc, Bool, true, false, not, ◌||◌, List, [], ◌∷◌, ◌++◌, Option, none, some, Str, str, str_eq,
  ltb, if◌then◌else◌, any, Map, lookup, insert, length, is_blank, trim_right, is_empty, join,
}
use shellf.Engine.{
  Env, Category, ok_category, err_category, would_category, ShellResult, Result, is_ok,
}
use shellf.Engine.Exec.{shell, using}
use shellf.Lang.Ast.{
  Expr, absent, str_lit, control_path, bool_lit, int_lit, ident, field, binary, unary, call,
  shell_expr, Args, no_arg, arg, Outcome, Stmt, let_stmt, effect_stmt, if_stmt, return_stmt,
  state_return_stmt, Stmts, skip, seq, StateField, Param, Def,
}
use shellf.Lang.Interp.{
  Found, found, missing, opaque_bytes, Text, interpolate, refused, unterminated,
}
use shellf.Lang.Interp
use shellf.Lang.Value.{
  Value, nil, text, int, bool, bytes, control, outcome, unbound, bad_integer, bad_text,
  bytes_in_env, bytes_as_argument, not_a_boolean, uncomparable, not_a_shell_result, no_such_field,
  unevaluable, no_resolver, call_cycle, unknown_instruction, wrong_arity, in_callee,
  unknown_category, stringify, truthy, equal, is_comparable, is_bytes, fits_type, scalars,
  find_bytes, atoi,
}
use shellf.Lang.Cited.{cited_vars}
use shellf.Lang.Monad.{
  Ev, done, failed, stopped, out_of_fuel, M, ◌>>=◌, ◌>>◌, pure, fail, get, refuse_if,
}
use shellf.Lang.Services.{Services, Config, DefOut, returned, errored, starved}
use shellf.Lang.Primitives.{control_call}

-- `requiredCount`
unfoldable pub required_count : List Param → ℕ
required_count [] = 0
required_count (p ∷ ps) = elim p.default [
  | none ↦ suc (required_count ps)
  | some e ↦ required_count ps
]

-- The lookup that `interpolate` hands to `Interpolate`.
unfoldable pub scope : Map Value → Str → Found
scope vars n = elim (lookup n vars) [
  | none ↦ missing
  | some v ↦ if is_bytes v then opaque_bytes else found (stringify v)
]

-- `lastOK`
abbrev pub last_ok : Value → Bool
last_ok (Value.shell r) = is_ok r
last_ok nil = false
last_ok (text t) = false
last_ok (int n) = false
last_ok (bool b) = false
last_ok (bytes b) = false
last_ok (control p) = false
last_ok (outcome r) = false

module _ {W : Type 0} where
  abbrev pub set_var : Str → Value → M W (Unit {0})
  set_var k v e = pure tt (record e { vars = insert k v e.vars })

  abbrev pub set_last : Value → M W (Unit {0})
  set_last v e = pure tt (record e { last = v })

  abbrev pub from_text : Text → M W Str
  from_text (Interp.text t late) e = done t e
  from_text (refused r) e = failed (bad_text r) e
  from_text Interp.out_of_fuel e = out_of_fuel

  -- `ev.interpolate`: the length of the text bounds the number of its `${`.
  unfoldable pub interpolate_here : Str → M W Str
  unfolding scope
  interpolate_here raw e = from_text (interpolate (suc (length raw)) raw (scope e.vars)) e

  unfoldable pub eval_ident : Str → M W Value
  eval_ident n e =
      if str_eq n (str "ok")
      then pure (bool (last_ok e.last)) e
      else if str_eq n (str "err")
      then pure (bool (not (last_ok e.last))) e
      else elim (lookup n e.vars) [ none ↦ failed (unbound n) e | some v ↦ done v e ]

  -- `evalField`, on the evaluated receiver.
  unfoldable pub field_of : Value → Str → M W Value
  field_of (Value.shell r) name =
      if str_eq name (str "exit")
      then pure (int r.exit)
      else if str_eq name (str "stdout")
      then pure (text r.stdout)
      else if str_eq name (str "stderr")
      then pure (text r.stderr)
      else fail (no_such_field name)
  field_of nil name = fail (not_a_shell_result name)
  field_of (text t) name = fail (not_a_shell_result name)
  field_of (int n) name = fail (not_a_shell_result name)
  field_of (bool b) name = fail (not_a_shell_result name)
  field_of (bytes b) name = fail (not_a_shell_result name)
  field_of (control p) name = fail (not_a_shell_result name)
  field_of (outcome r) name = fail (not_a_shell_result name)

  -- `==` and `!=` on evaluated operands: any operator but `==` negates.
  unfoldable pub compare_values : Str → Value → Value → M W Value
  compare_values op l r = do
    refuse_if (not (is_comparable l)) (uncomparable l)
    refuse_if (not (is_comparable r)) (uncomparable r)
    pure (bool (if str_eq op (str "==") then equal l r else not (equal l r)))

module _ {W : Type 0} (sv : Services W) (cfg : Config) where
  -- `shellEnv`
  unfoldable pub shell_env : M W Env
  shell_env e = elim (find_bytes e.vars) [
    | none ↦ done (scalars e.vars) e
    | some k ↦ failed (bytes_in_env k) e
  ]

  -- A `shell { … }`: the result carries the command, the def, the line and the cited variables,
  -- becomes `last`, and joins the log.
  unfoldable pub run_shell : Str → ℕ → Str → M W Value
  unfolding shell_env
  run_shell cmd line interp e =
      (do
        env ← shell_env
        λ e'.
            let (r, w') = shell sv.machine (using cfg.ex interp) cmd env e'.world in
            let r' : ShellResult = record r {
              cmd = cmd;
              def = cfg.def_name;
              line = line;
              vars = cited_vars cmd env;
            } in
            pure (Value.shell r')
              (record e' { last = Value.shell r'; ran = e'.ran ++ r' ∷ []; world = w' }))
        (record e { acted = true })

  -- The arguments of a call, positional: the strings by the callee's parameter names, and the
  -- names of those that are control paths. The arity is checked before.
  unfoldable pub bind_args :
      Str → List Param → List (M W Value) → Map Str → List Str → M W (Map Str × List Str)
  bind_args callee (p ∷ ps) (t ∷ ts) args ctl = do
    v ← t
    refuse_if (is_bytes v) (bytes_as_argument p.name)
    refuse_if (not (fits_type p v)) (not_a_boolean p.name)
    bind_args callee ps ts (insert p.name (stringify v) args)
        (elim v [ control path ↦ ctl ++ p.name ∷ [] | _ ↦ ctl ])
  bind_args callee [] ts args ctl = pure (args, ctl)
  bind_args callee (p ∷ ps) [] args ctl = pure (args, ctl)

  abbrev is_err : Category → Bool
  is_err err_category = true
  is_err ok_category = false
  is_err would_category = false

  -- What the caller does with a callee's result: it takes over `changed`, stops at an `err` with
  -- that verdict, and otherwise keeps the result as `last`.
  unfoldable pub take_result : Str → DefOut W → M W Value
  take_result name (returned r w) e =
      let e' : Ev W = record e { acted = if r.changed then true else e.acted; world = w } in
      if is_err r.category then stopped r e' else done (outcome r) (record e' { last = outcome r })
  take_result name (errored err w) e = failed (in_callee name err) (record e { world = w })
  take_result name starved e = out_of_fuel

  module _ (call_def : Def → Map Str → Map Str → List Str → Config → W → DefOut W) where
    -- `evalCall`
    unfoldable pub call_with : Str → Def → List (M W Value) → M W Value
    unfolding bind_args take_result
    call_with name d ts = do
      refuse_if (ltb (length ts) (required_count d.params) || ltb (length d.params) (length ts))
          (wrong_arity name)
      bound ← bind_args name d.params ts [] []
      λ e.
          take_result name
            (call_def d bound.0 [] bound.1 (record cfg { stack = cfg.stack ++ name ∷ [] }) e.world)
            e

    unfoldable pub def_call : Str → List (M W Value) → M W Value
    unfolding call_with
    def_call name ts = elim sv.resolve [
      | none ↦ fail (no_resolver name)
      | some resolve ↦
          if any (str_eq name) cfg.stack
          then fail (call_cycle cfg.stack name)
          else elim (resolve name) [
            | none ↦ fail (unknown_instruction name)
            | some d ↦ call_with name d ts
          ]
    ]

    unfoldable mutual
      -- `evalExpr`
      pub eval_expr : Expr → M W Value
      eval_expr (str_lit s) = interpolate_here s >>= λ t. pure (text t)
      eval_expr (bool_lit b) = pure (bool b)
      eval_expr (int_lit raw) = elim (atoi raw) [
        | none ↦ fail (bad_integer raw)
        | some n ↦ pure (int n)
      ]
      eval_expr (ident n) = eval_ident n
      eval_expr (field recv name) = eval_expr recv >>= λ v. field_of v name
      eval_expr (binary op l r) = eval_expr l >>= λ a. eval_expr r >>= λ b. compare_values op a b
      eval_expr (unary op x) = eval_expr x >>= λ v. pure (bool (not (truthy v)))
      eval_expr (shell_expr cmd line interp) = run_shell cmd line interp
      eval_expr (control_path s) = interpolate_here s >>= λ t. pure (control t)
      eval_expr (call name args ctl) =
          if ctl
          then (control_call sv cfg name (arguments args) >>= λ v. set_last v >> pure v)
          else def_call name (arguments args)
      eval_expr absent = fail unevaluable

      pub arguments : Args → List (M W Value)
      arguments no_arg = []
      arguments (arg a rest) = eval_expr a ∷ arguments rest

    unfoldable mutual
      -- `evalStmt`
      pub eval_stmt : Stmt → M W (Option Outcome)
      eval_stmt (let_stmt name value) = eval_expr value >>= λ v. set_var name v >> pure none
      eval_stmt (effect_stmt x) = eval_expr x >>= λ v. pure none
      eval_stmt (return_stmt o) = pure (some o)
      eval_stmt (if_stmt cond body) =
          let branch = eval_stmts body in
          eval_expr cond >>= λ v. if truthy v then branch else pure none
      eval_stmt (state_return_stmt fields) = pure none

      -- `evalPhase`, and the body of an `if`.
      pub eval_stmts : Stmts → M W (Option Outcome)
      eval_stmts skip = pure none
      eval_stmts (seq s ss) =
          let rest = eval_stmts ss in
          eval_stmt s >>= λ o. elim o [ none ↦ rest | some r ↦ pure (some r) ]

    -- `return state(…)`
    unfoldable pub observe_fields : List StateField → Map Str → M W (Map Str)
    observe_fields [] m = pure m
    observe_fields (f ∷ fs) m = eval_expr f.value >>= λ v.
        observe_fields fs (insert f.name (trim_right is_blank (stringify v)) m)

    unfoldable mutual
      -- `evalObserve`: `none` where no `return state(…)` was reached.
      pub observe_stmt : Stmt → M W (Option (Map Str))
      observe_stmt (let_stmt name value) = eval_expr value >>= λ v. set_var name v >> pure none
      observe_stmt (effect_stmt x) = eval_expr x >>= λ v. pure none
      observe_stmt (if_stmt cond body) =
          let branch = observe_stmts body in
          eval_expr cond >>= λ v. if truthy v then branch else pure none
      observe_stmt (state_return_stmt fields) = observe_fields fields [] >>= λ m. pure (some m)
      observe_stmt (return_stmt o) = pure none

      pub observe_stmts : Stmts → M W (Option (Map Str))
      observe_stmts skip = pure none
      observe_stmts (seq s ss) =
          let rest = observe_stmts ss in
          observe_stmt s >>= λ o. elim o [ none ↦ rest | some m ↦ pure (some m) ]

    -- What a statement of `preview` adds to the text: `ev.last` as it then stands.
    abbrev preview_text : Value → List Str → List Str
    preview_text (Value.shell r) out =
        let t = trim_right is_blank r.stdout in if is_empty t then out else out ++ t ∷ []
    preview_text (text s) out =
        let t = trim_right is_blank s in if is_empty t then out else out ++ t ∷ []
    preview_text nil out = out
    preview_text (int n) out = out
    preview_text (bool b) out = out
    preview_text (bytes b) out = out
    preview_text (control p) out = out
    preview_text (outcome r) out = out

    -- `evalPreview`
    unfoldable pub preview_stmts : Stmts → List Str → M W Str
    preview_stmts skip out = pure (join (str "\n") out)
    preview_stmts (seq s ss) out =
        eval_stmt s >>= λ o. get >>= λ e. preview_stmts ss (preview_text e.last out)

    abbrev shell_of : Value → Option ShellResult
    shell_of (Value.shell r) = some r
    shell_of nil = none
    shell_of (text t) = none
    shell_of (int n) = none
    shell_of (bool b) = none
    shell_of (bytes b) = none
    shell_of (control p) = none
    shell_of (outcome r) = none

    unfoldable pub payload_shell : Expr → M W (Option ShellResult)
    payload_shell absent = pure none
    payload_shell x = eval_expr x >>= λ v. pure (shell_of v)

    abbrev pub category_of : Str → Option Category
    category_of c =
        if str_eq c (str "ok")
        then some ok_category
        else if str_eq c (str "err")
        then some err_category
        else if str_eq c (str "would")
        then some would_category
        else none

    -- The result of an outcome's category and tag, with the payload's shell result.
    abbrev pub outcome_result : Outcome → Option ShellResult → M W Result
    outcome_result o s = elim (category_of o.category) [
      | none ↦ fail (unknown_category o.category)
      | some c ↦ pure (record {
        category = c;
        tag = o.tag;
        changed = false;
        shell = s;
        fields = [];
        preview = [];
        ran = [];
      })
    ]

    -- `toResult`
    unfoldable pub to_result : Outcome → M W Result
    unfolding payload_shell
    to_result o = payload_shell o.payload >>= outcome_result o
