-- ===== src/Lang/ArgCheck/Still.antt =====
-- internal/lang/argcheck.go: a pure phase leaves the world as it was.
use shellf.Prelude.{
  ℤ, Bool, true, false, not, ◌&&◌, if◌then◌else◌, List, [], ◌∷◌, Option, none, some, some-injective,
  subst, ap, Str, str, str_eq, Map, All, ◌≡◌, refl, ◌∙◌,
}
use shellf.Engine.{Category, ShellResult, Result}
use shellf.Lang.Ast.{
  Expr, absent, str_lit, control_path, bool_lit, int_lit, ident, field, binary, unary, call,
  shell_expr, Args, no_arg, arg, Outcome, Stmt, let_stmt, effect_stmt, if_stmt, return_stmt,
  state_return_stmt, Stmts, skip, seq, Phase, Def,
}
use shellf.Lang.Value.{Value, text, int, bool, unknown_category, bad_integer, atoi, truthy}
use shellf.Lang.Monad.{Ev, done, M, ◌>>=◌, ◌>>◌, pure, fail, >>=-eq-done, done_injective}
use shellf.Lang.Services.{Services, Config, DefOut}
use shellf.Lang.Primitives.{control_call}
use shellf.Lang.Eval.{
  eval_expr, arguments, eval_stmt, eval_stmts, interpolate_here, field_of, compare_values, def_call,
  set_last, set_var, payload_shell, category_of, outcome_result, to_result,
}
use shellf.Lang.ArgCheck.{
  pure_expr, pure_args, pure_payload, pure_stmt, pure_stmts, pure_check, is_pure_primitive,
  result_of, eval_pure_check,
}
use shellf.Lang.ArgCheck.Rules.{
  Still-bind_returned, Still-bind, Still-pure, Still-fail, Still-if, interpolate_here-Still,
  eval_ident-Still, field_of-Still, compare_values-Still, set_last-Still, set_var-Still, StillOut,
  Still,
}
use shellf.Lang.ArgCheck.PrimitivesStill.{control_call-Still}

and_true : (a b : Bool) → (a && b) ≡ true → (a ≡ true) × (b ≡ true)
and_true true b h = (refl, h)
and_true false b h = cc

-- The phase that `pureCheck` finds is pure.
pure_check-pure : (phs : List Phase) (ss : Stmts) → pure_check phs ≡ some ss → pure_stmts ss ≡ true
unfolding pure_check
pure_check-pure [] ss h = cc
pure_check-pure (ph ∷ phs) ss h =
    by_tests (str_eq ph.name (str "check")) (pure_stmts ph.stmts) refl (pure_check-pure phs ss) h
  where
    by_tests :
        (b c : Bool)
        → pure_stmts ph.stmts ≡ c
        → (pure_check phs ≡ some ss → pure_stmts ss ≡ true)
        → (if b then (if c then some ph.stmts else none) else pure_check phs) ≡ some ss
        → pure_stmts ss ≡ true
    by_tests true true e r q = cc
    by_tests true false e r q = cc
    by_tests false c e r q = r q

module _ {W : Type 0} (sv : Services W) (cfg : Config)
    (call_def : Def → Map Str → Map Str → List Str → Config → W → DefOut W) where
  abbrev ev : Expr → M W Value
  ev = eval_expr sv cfg call_def

  call-Still :
      (name : Str) (ctl : Bool) (ts : List (M W Value))
      → (ctl && is_pure_primitive name) ≡ true
      → All (λ t. Still t) ts
      → Still (
          if ctl
          then (control_call sv cfg name ts >>= λ v. set_last v >> pure v)
          else def_call sv cfg call_def name ts)
  call-Still name true ts h q =
      Still-bind (control_call sv cfg name ts) (λ v. set_last v >> pure v)
        (control_call-Still sv cfg name ts h q)
        (λ v. Still-bind (set_last v) (λ _. pure v) (set_last-Still v) (λ _. Still-pure v))
  call-Still name false ts h q = cc

  mutual
    unfolding eval_expr pure_expr

    eval_expr-Still : (x : Expr) → pure_expr x ≡ true → Still (eval_expr sv cfg call_def x)
    eval_expr-Still (str_lit s) h =
        Still-bind (interpolate_here s) (λ t. pure (text t)) (interpolate_here-Still s)
          (λ t. Still-pure _)
    eval_expr-Still (bool_lit b) h = Still-pure _
    eval_expr-Still (int_lit raw) h = of_int (atoi raw)
      where
        of_int :
            (o : Option ℤ)
            → Still {W = W} (elim o as (λ _. M W Value) [
              | none ↦ fail (bad_integer raw)
              | some n ↦ pure (int n)
            ])
        of_int none = Still-fail _
        of_int (some n) = Still-pure _
    eval_expr-Still (ident n) h = eval_ident-Still n
    eval_expr-Still (field recv name) h =
        Still-bind (ev recv) (λ v. field_of v name) (eval_expr-Still recv h)
          (λ v. field_of-Still v name)
    eval_expr-Still (binary op l r) h =
        Still-bind (ev l) (λ a. ev r >>= λ b. compare_values op a b)
          (eval_expr-Still l (and_true (pure_expr l) _ h).0)
          (λ a.
            Still-bind (ev r) (λ b. compare_values op a b)
              (eval_expr-Still r (and_true (pure_expr l) _ h).1) (λ b. compare_values-Still op a b))
    eval_expr-Still (unary op x) h =
        Still-bind (ev x) (λ v. pure (bool (not (truthy v)))) (eval_expr-Still x h)
          (λ v. Still-pure _)
    eval_expr-Still (call name args ctl) h =
        call-Still name ctl (arguments sv cfg call_def args)
          (and_true (ctl && is_pure_primitive name) _ h).0
          (arguments-Still args (and_true (ctl && is_pure_primitive name) _ h).1)
    eval_expr-Still (shell_expr cmd line interp) h = cc
    eval_expr-Still (control_path s) h = cc
    eval_expr-Still absent h = cc

    arguments-Still :
        (args : Args) → pure_args args ≡ true → All (λ t. Still t) (arguments sv cfg call_def args)
    arguments-Still no_arg h = tt
    arguments-Still (arg a rest) h = (
      eval_expr-Still a (and_true (pure_expr a) _ h).0,
      arguments-Still rest (and_true (pure_expr a) _ h).1,
    )

  mutual
    unfolding eval_stmt pure_stmt

    stmt-Still : (s : Stmt) → pure_stmt s ≡ true → Still (eval_stmt sv cfg call_def s)
    stmt-Still (let_stmt name value) h =
        Still-bind (ev value) (λ v. set_var name v >> pure none) (eval_expr-Still value h)
          (λ v.
            Still-bind (set_var name v) (λ _. pure none) (set_var-Still name v)
              (λ _. Still-pure none))
    stmt-Still (effect_stmt x) h =
        Still-bind (ev x) (λ v. pure none) (eval_expr-Still x h) (λ v. Still-pure none)
    stmt-Still (return_stmt o) h = Still-pure _
    stmt-Still (if_stmt cond body) h =
        Still-bind (ev cond) (λ v. if truthy v then eval_stmts sv cfg call_def body else pure none)
          (eval_expr-Still cond (and_true (pure_expr cond) _ h).0)
          (λ v.
            Still-if (truthy v) _ _ (stmts-Still body (and_true (pure_expr cond) _ h).1)
              (Still-pure none))
    stmt-Still (state_return_stmt fields) h = cc

    stmts-Still : (ss : Stmts) → pure_stmts ss ≡ true → Still (eval_stmts sv cfg call_def ss)
    stmts-Still skip h = Still-pure _
    stmts-Still (seq s ss) h =
        Still-bind (eval_stmt sv cfg call_def s)
          (λ o. elim o [ none ↦ eval_stmts sv cfg call_def ss | some r ↦ pure (some r) ])
          (stmt-Still s (and_true (pure_stmt s) _ h).0)
          (λ o. rest o (stmts-Still ss (and_true (pure_stmt s) _ h).1))
      where
        rest :
            (o : Option Outcome)
            → Still (eval_stmts sv cfg call_def ss)
            → Still (elim o as (λ _. M W (Option Outcome)) [
              | none ↦ eval_stmts sv cfg call_def ss
              | some r ↦ pure (some r)
            ])
        rest none g = g
        rest (some r) g = Still-pure _

  -- A pure statement returns outcomes with a pure payload only.
  mutual
    unfolding eval_stmt pure_stmt

    stmt-payload :
        (s : Stmt)
        → pure_stmt s ≡ true
        → (e e' : Ev W) (o : Outcome) → eval_stmt sv cfg call_def s e ≡ done (some o) e'
        → pure_payload o.payload ≡ true
    stmt-payload (let_stmt name value) h e e' o q =
        let (v, e₁, p, r) = >>=-eq-done (ev value) (λ v. set_var name v >> pure none) q in cc
    stmt-payload (effect_stmt x) h e e' o q =
        let (v, e₁, p, r) = >>=-eq-done (ev x) (λ v. pure none) q in cc
    stmt-payload (return_stmt o₁) h e e' o q =
        subst (λ r. pure_payload r.payload ≡ true) (some-injective (done_injective q).0) h
    stmt-payload (if_stmt cond body) h e e' o q =
        let (v, e₁, p, r) =
          >>=-eq-done (ev cond)
            (λ v. if truthy v then eval_stmts sv cfg call_def body else pure none) q in
        branch (truthy v) e₁ (stmts-payload body (and_true (pure_expr cond) _ h).1 e₁ e' o) r
      where
        branch :
            (b : Bool) (e₁ : Ev W)
            → (eval_stmts sv cfg call_def body e₁ ≡ done (some o) e'
                → pure_payload o.payload ≡ true)
            → (if b then eval_stmts sv cfg call_def body else pure none) e₁ ≡ done (some o) e'
            → pure_payload o.payload ≡ true
        branch true e₁ ih r = ih r
        branch false e₁ ih r = cc
    stmt-payload (state_return_stmt fields) h e e' o q = cc

    stmts-payload :
        (ss : Stmts)
        → pure_stmts ss ≡ true
        → (e e' : Ev W) (o : Outcome) → eval_stmts sv cfg call_def ss e ≡ done (some o) e'
        → pure_payload o.payload ≡ true
    stmts-payload skip h e e' o q = cc
    stmts-payload (seq s ss) h e e' o q =
        let (v, e₁, p, r) =
          >>=-eq-done (eval_stmt sv cfg call_def s)
            (λ o. elim o [ none ↦ eval_stmts sv cfg call_def ss | some r ↦ pure (some r) ]) q in
        next v e₁ (stmt-payload s (and_true (pure_stmt s) _ h).0 e e₁)
          (stmts-payload ss (and_true (pure_stmt s) _ h).1 e₁ e' o) p r
      where
        next :
            (v : Option Outcome) (e₁ : Ev W)
            → ((o₁ : Outcome)
                → eval_stmt sv cfg call_def s e ≡ done (some o₁) e₁
                → pure_payload o₁.payload ≡ true)
            → (eval_stmts sv cfg call_def ss e₁ ≡ done (some o) e' → pure_payload o.payload ≡ true)
            → eval_stmt sv cfg call_def s e ≡ done v e₁
            → (elim v as (λ _. M W (Option Outcome)) [
              | none ↦ eval_stmts sv cfg call_def ss
              | some r ↦ pure (some r)
            ])
                e₁
              ≡ done (some o) e'
            → pure_payload o.payload ≡ true
        next none e₁ here later p r = later r
        next (some o₁) e₁ here later p r =
            subst (λ x. pure_payload x.payload ≡ true) (some-injective (done_injective r).0)
              (here o₁ p)

  payload_shell-Still : (x : Expr) → pure_payload x ≡ true → Still (payload_shell sv cfg call_def x)
  unfolding payload_shell pure_payload pure_expr
  payload_shell-Still absent h = Still-pure none
  payload_shell-Still (str_lit s) h =
      Still-bind (ev (str_lit s)) _ (eval_expr-Still (str_lit s) h) (λ v. Still-pure _)
  payload_shell-Still (bool_lit b) h =
      Still-bind (ev (bool_lit b)) _ (eval_expr-Still (bool_lit b) h) (λ v. Still-pure _)
  payload_shell-Still (int_lit n) h =
      Still-bind (ev (int_lit n)) _ (eval_expr-Still (int_lit n) h) (λ v. Still-pure _)
  payload_shell-Still (ident n) h =
      Still-bind (ev (ident n)) _ (eval_expr-Still (ident n) h) (λ v. Still-pure _)
  payload_shell-Still (field r n) h =
      Still-bind (ev (field r n)) _ (eval_expr-Still (field r n) h) (λ v. Still-pure _)
  payload_shell-Still (binary op l r) h =
      Still-bind (ev (binary op l r)) _ (eval_expr-Still (binary op l r) h) (λ v. Still-pure _)
  payload_shell-Still (unary op x) h =
      Still-bind (ev (unary op x)) _ (eval_expr-Still (unary op x) h) (λ v. Still-pure _)
  payload_shell-Still (call n args ctl) h =
      Still-bind (ev (call n args ctl)) _ (eval_expr-Still (call n args ctl) h) (λ v. Still-pure _)
  payload_shell-Still (control_path s) h = cc
  payload_shell-Still (shell_expr cmd line interp) h = cc

  to_result-Still :
      (o : Outcome) → pure_payload o.payload ≡ true → Still (to_result sv cfg call_def o)
  unfolding to_result
  to_result-Still o h =
      Still-bind (payload_shell sv cfg call_def o.payload) (outcome_result sv cfg call_def o)
        (payload_shell-Still o.payload h)
        (λ s. of_category s (category_of sv cfg call_def o.category))
    where
      of_category :
          (s : Option ShellResult) (c : Option Category)
          → Still {W = W} (elim c as (λ _. M W Result) [
            | none ↦ fail (unknown_category o.category)
            | some k ↦ pure (record {
              category = k;
              tag = o.tag;
              changed = false;
              shell = s;
              fields = [];
              preview = [];
              ran = [];
            })
          ])
      of_category s none = Still-fail _
      of_category s (some k) = Still-pure _

  -- Where `pureCheck` finds a `check` phase, the evaluation of that phase and then of the payload of
  -- the outcome that it reached leaves the world as it was, whichever way it ends, in every mode and
  -- with whatever machine, channel and calls of defs behind the evaluator.
  pub pure_check-StillOut :
      (d : Def) (ss : Stmts)
      → pure_check d.phases ≡ some ss
      → (e : Ev W) → StillOut e.world (eval_pure_check sv cfg call_def ss e)
  unfolding eval_pure_check
  pure_check-StillOut d ss h =
      (Still-bind_returned (eval_stmts sv cfg call_def ss) (result_of sv cfg call_def)
        (stmts-Still ss (pure_check-pure d.phases ss h))
        (λ o e e' p. judged o e' (λ r q.
          stmts-payload ss (pure_check-pure d.phases ss h) e e' r
            (p ∙ ap (λ x. done x e') q)))).still
    where
      judged :
          (o : Option Outcome) (e : Ev W)
          → ((r : Outcome) → o ≡ some r → pure_payload r.payload ≡ true)
          → StillOut e.world (result_of sv cfg call_def o e)
      judged none e h = refl
      judged (some r) e h =
          (Still-bind (to_result sv cfg call_def r) (λ v. pure (some v))
              (to_result-Still r (h r refl)) (λ v. Still-pure _)).still
            e
