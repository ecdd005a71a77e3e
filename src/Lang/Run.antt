-- ===== src/Lang/Run.antt =====
-- internal/lang/eval.go, `EvalDefFull`: a def run as an instruction, in each mode. `eval_def` recurs
-- on fuel, one unit for each def on the chain of calls.
pub mod CheckMode
pub mod Confirm
use shellf.Prelude.{
  ℕ, zero, suc, Bool, true, false, not, ◌&&◌, ◌||◌, List, [], ◌∷◌, ◌++◌, Option, none, some, Str,
  str, str_eq, if◌then◌else◌, Map, lookup, insert, merge, is_empty, join, negsuc, pos, ◌⊎◌, inl,
  inr, any,
}
use shellf.Engine.{
  Mode, apply_mode, check_mode, status_mode, Category, ok_category, err_category, would_category,
  ShellResult, only_stderr, FieldDiff, Result, ok_result, err_result, would_result, err_shell,
}
use shellf.Engine.Exec.{as_user, using}
use shellf.Lang.Ast.{Outcome, Stmts, Phase, Param, Call, Def}
use shellf.Lang.Inert.{inert_apply, is_question}
use shellf.Lang.Fields.{converged, diff_fields, all_converged}
use shellf.Lang.Value.{
  Value, nil, text, control, outcome, int, bool, bytes, EvalError, no_verdict, stringify,
}
use shellf.Lang.Monad.{Ev, Out, done, failed, stopped, out_of_fuel, M, ◌>>=◌, ◌>>◌, pure, fail, get}
use shellf.Lang.Services.{Services, Config, DefOut, returned, errored, starved}
use shellf.Lang.Eval.{
  set_var, eval_expr, arguments, def_call, eval_stmts, observe_stmts, preview_stmts, to_result,
}

-- `for k, v := range args { ev.vars[k] = v }` into an empty map.
unfoldable pub text_vars : Map Str → Map Value
text_vars [] = []
text_vars ((k, v) ∷ m) = (k, text v) ∷ text_vars m

-- A string variable becomes a control path.
abbrev marked : Str → Option Value → Map Value → Map Value
marked name (some (text t)) vars = insert name (control t) vars
marked name _ vars = vars

unfoldable pub mark_control : List Str → Map Value → Map Value
mark_control [] vars = vars
mark_control (n ∷ ns) vars = mark_control ns (marked n (lookup n vars) vars)

-- `desiredState`
unfoldable pub desired_state : List Param → Map Value → Map Str
desired_state [] vars = []
desired_state (p ∷ ps) vars = elim (lookup p.name vars) [
  | none ↦ desired_state ps vars
  | some v ↦ insert p.name (stringify v) (desired_state ps vars)
]

-- `retTag`
abbrev pub ret_tag : Option Outcome → Str
ret_tag none = []
ret_tag (some o) = o.tag

-- The last phase of a name, as the loops of `confirm` and `inertApply` find it.
unfoldable pub last_phase : Str → List Phase → Option Stmts → Option Stmts
last_phase name [] found = found
last_phase name (ph ∷ phs) found =
    last_phase name phs (if str_eq ph.name name then some ph.stmts else found)

-- The first `observe` phase.
unfoldable pub first_observe : List Phase → Option Stmts
first_observe [] = none
first_observe (ph ∷ phs) =
    let rest = first_observe phs in if str_eq ph.name (str "observe") then some ph.stmts else rest

abbrev pub is_ok_category : Category → Bool
is_ok_category ok_category = true
is_ok_category err_category = false
is_ok_category would_category = false

-- `questionInCheck`
unfoldable pub question_in_check : Def → Mode → Result → Result
question_in_check d check_mode r = elim r.category [
  | err_category ↦ if is_question d then would_result [] else r
  | ok_category ↦ r
  | would_category ↦ r
]
question_in_check d apply_mode r = r
question_in_check d status_mode r = r

-- `changedIfActed`
unfoldable pub changed_if_acted : Bool → Result → Result
changed_if_acted acted r =
    if is_ok_category r.category && acted then record r { changed = true } else r

abbrev missed : List FieldDiff → List Str
missed [] = []
missed (f ∷ fs) =
    if f.converged
    then missed fs
    else (f.name
        ++ (str ": observed \""
            ++ (f.current ++ (str "\", desired \"" ++ (f.desired ++ str "\"")))))
      ∷ missed fs

-- `err.unconfirmed`, with the fields that did not follow. Go's `%q` is written as the text between
-- quotes, which it is where the text needs no escape.
unfoldable pub unconfirmed : Map Str → Map Str → Result
unconfirmed observed desired = err_shell (str "unconfirmed") (
    only_stderr (pos 0) (
      str "the apply ran and the state did not follow "
      ++ (0xe2 ∷ 0x80 ∷ 0x94 ∷ 0x20 ∷ [])
      ++ join (str "; ") (missed (diff_fields observed desired))))

-- A phase that returned nothing observes nothing.
abbrev pub or_empty : Option (Map Str) → Map Str
or_empty none = []
or_empty (some m) = m

-- `statusResult`, from the fields on.
unfoldable pub status_of : List FieldDiff → Result
status_of fields = record (ok_result []) {
  category = if all_converged fields then ok_category else would_category;
  fields = fields;
}

-- The way out of `EvalDefFull`: a verdict of a callee is a result, and the log goes with it.
abbrev with_ran : List ShellResult → Result → Result
with_ran [] r = r
with_ran (s ∷ ran) r = record r { ran = s ∷ ran }

module _ {W : Type 0} where
  abbrev pub leave : Out W Result → DefOut W
  leave (done r e) = returned (with_ran e.ran r) e.world
  leave (failed err e) = errored err e.world
  leave (stopped r e) = returned (with_ran e.ran r) e.world
  leave out_of_fuel = starved

  abbrev pub keep_first : {A : Type 0} → M W (Option A) → Option A → M W (Option A)
  keep_first rest none = rest
  keep_first rest (some r) = pure (some r)

  abbrev pub set_acted : Bool → M W (Unit {0})
  set_acted b e = pure tt (record e { acted = b })

module _ {W : Type 0} (sv : Services W)
    (call_def : Def → Map Str → Map Str → List Str → Config → W → DefOut W) (cfg : Config) where
  -- The defaults of the parameters that the caller left out.
  unfoldable pub fill_defaults : List Param → M W (Unit {0})
  fill_defaults [] e = done tt e
  fill_defaults (p ∷ ps) e = elim (lookup p.name e.vars) [
    | some v ↦ fill_defaults ps e
    | none ↦ elim p.default [
      | none ↦ fill_defaults ps e
      | some x ↦ (eval_expr sv cfg call_def x >>= λ v. set_var p.name v >> fill_defaults ps) e
    ]
  ]

  -- One phase of those that `here` selects, before the rest.
  unfoldable pub run_phase : (Phase → Bool) → Phase → M W (Option Outcome) → M W (Option Outcome)
  run_phase here ph rest =
      if here ph then (eval_stmts sv cfg call_def ph.stmts >>= keep_first rest) else rest

  -- The phases that `here` selects, in order, up to the first outcome.
  unfoldable pub run_phases : (Phase → Bool) → List Phase → M W (Option Outcome)
  unfolding run_phase
  run_phases here [] = pure none
  run_phases here (ph ∷ phs) = run_phase here ph (run_phases here phs)

  abbrev is_named : Str → Phase → Bool
  is_named name ph = str_eq ph.name name

  -- `observe`, as a map.
  unfoldable pub observe : Stmts → M W (Map Str)
  observe ss = observe_stmts sv cfg call_def ss >>= λ m. pure (or_empty m)

  -- The verdict once the state has been read again.
  abbrev pub confirmed : Map Str → Result → Map Str → M W Result
  confirmed desired r observed =
      pure (if converged observed desired then r else unconfirmed observed desired)

  abbrev pub confirm_phase : Map Str → Result → Option Stmts → M W Result
  confirm_phase desired r none = pure r
  confirm_phase desired r (some ss) = observe ss >>= confirmed desired r

  -- `confirm`
  unfoldable pub confirm : Def → Map Str → Result → M W Result
  unfolding observe
  confirm d desired r e =
      if is_ok_category r.category && e.acted
      then confirm_phase desired r (last_phase (str "observe") d.phases none) e
      else done r e

  -- The verdict of an outcome, or what comes next.
  abbrev verdict_or : M W Result → Option Outcome → M W Result
  verdict_or next none = next
  verdict_or next (some o) = to_result sv cfg call_def o

  -- The delegation: the phases beside it, then the callee.
  unfoldable pub delegate : Def → Call → M W Result
  delegate d c =
      run_phases (λ ph. true) d.phases
      >>= verdict_or (
          def_call sv cfg call_def c.name (arguments sv cfg call_def c.args) >>= λ v. elim v [
            | outcome r ↦ pure r
            | _ ↦ fail (no_verdict c.name)
          ])

  -- `statusResult`
  unfoldable pub status_result : Def → Map Str → M W Result
  unfolding first_observe observe
  status_result d desired = elim (first_observe d.phases) [
    | none ↦ pure (ok_result (str "action"))
    | some ss ↦ observe ss >>= λ observed. pure (status_of (diff_fields observed desired))
  ]

  unfoldable pub run_status : Def → Map Str → M W Result
  unfolding run_phases status_result
  run_status d desired =
      run_phases (is_named (str "check")) d.phases >>= verdict_or (status_result d desired)

  -- The outcome of a `check`, softened where the def only asks.
  abbrev pub check_verdict :
      (Result → Result) → M W (Option Result) → Option Outcome → M W (Option Result)
  check_verdict soften rest none = rest
  check_verdict soften rest (some o) =
      to_result sv cfg call_def o >>= λ res. pure (some (soften res))

  abbrev pub skip_if_converged : Map Str → M W (Option Result) → Map Str → M W (Option Result)
  skip_if_converged desired rest observed =
      if converged observed desired then pure (some (ok_result (str "already"))) else rest

  -- One phase of pass 1: a verdict, or the rest.
  unfoldable pub decide_phase :
      (Result → Result) → Map Str → Phase → M W (Option Result) → M W (Option Result)
  unfolding observe
  decide_phase soften desired ph rest =
      if str_eq ph.name (str "check")
      then (eval_stmts sv cfg call_def ph.stmts >>= check_verdict soften rest)
      else if str_eq ph.name (str "observe")
      then (observe ph.stmts >>= skip_if_converged desired rest)
      else rest

  -- Pass 1, the phases that decide: a verdict, or none to go on.
  unfoldable pub decide : (Result → Result) → Map Str → List Phase → M W (Option Result)
  unfolding decide_phase
  decide soften desired [] = pure none
  decide soften desired (ph ∷ phs) = decide_phase soften desired ph (decide soften desired phs)

  -- `r.Preview`: the text of the last `preview` phase.
  unfoldable pub preview_phase : Phase → (Str → M W Str) → Str → M W Str
  preview_phase ph next so_far =
      if str_eq ph.name (str "preview")
      then (preview_stmts sv cfg call_def ph.stmts [] >>= next)
      else next so_far

  unfoldable pub previews : List Phase → Str → M W Str
  unfolding preview_phase
  previews [] = pure
  previews (ph ∷ phs) = preview_phase ph (previews phs)

  unfoldable pub announce : Def → Str → M W Result
  unfolding previews
  announce d tag =
      previews d.phases [] >>= λ t. pure (record (would_result tag) { changed = true; preview = t })

  -- The tag of the return that an inert apply reached.
  abbrev reached_tag : Option Outcome → Str → Str
  reached_tag none tag = tag
  reached_tag (some o) tag =
      if str_eq o.category (str "ok") && not (is_empty o.tag) then o.tag else tag

  -- With an inert apply, its own effects tell whether anything would change.
  unfoldable pub announced : Def → Option Stmts → M W Result
  unfolding announce
  announced d none = announce d (ret_tag d.ret)
  announced d (some ss) = do
    set_acted false
    o ← eval_stmts sv cfg call_def ss
    e ← get
    if e.acted then announce d (reached_tag o (ret_tag d.ret)) else pure (ok_result (str "already"))

  -- Check mode, behind pass 1.
  unfoldable pub run_check : Def → M W Result
  unfolding announced
  run_check d = announced d (inert_apply d)

  -- The outcome that an apply reached; a tag-less `ok` where it reached none.
  unfoldable pub apply_verdict : Option Outcome → M W Result
  apply_verdict none = pure (ok_result [])
  apply_verdict (some o) = to_result sv cfg call_def o

  unfoldable pub conclude : Def → Map Str → Result → M W Result
  unfolding confirm
  conclude d desired r e = confirm d desired (changed_if_acted e.acted r) e

  -- Pass 2.
  unfoldable pub run_apply : Def → Map Str → M W Result
  unfolding run_phases apply_verdict conclude
  run_apply d desired =
      set_acted false
      >> run_phases (is_named (str "apply")) d.phases
      >>= apply_verdict
      >>= conclude d desired

  abbrev pub decided : M W Result → Option Result → M W Result
  decided next none = next
  decided next (some r) = pure r

  unfoldable pub run_modes : Def → Map Str → Mode → M W Result
  unfolding run_status decide run_check run_apply
  run_modes d desired status_mode = run_status d desired
  run_modes d desired apply_mode =
      decide (question_in_check d cfg.mode) desired d.phases >>= decided (run_apply d desired)
  run_modes d desired check_mode =
      decide (question_in_check d cfg.mode) desired d.phases >>= decided (run_check d)

  abbrev pub in_mode : Def → Map Str → Option Call → M W Result
  in_mode d desired none = run_modes d desired cfg.mode
  in_mode d desired (some c) = delegate d c

  -- The defaults, then the `with` bindings over all.
  unfoldable pub bind_params : List Param → Map Str → M W (Ev W)
  unfolding fill_defaults
  bind_params params with_ = do
    fill_defaults params
    λ e. pure tt (record e { vars = merge e.vars (text_vars with_) })
    get

  unfoldable pub body : Def → Ev W → M W Result
  unfolding delegate run_modes desired_state
  body d e = in_mode d (desired_state d.params e.vars) d.delegate

  -- `EvalDefFull` behind the binding of the arguments.
  unfoldable pub run_body : Def → Map Str → M W Result
  unfolding bind_params body
  run_body d with_ = bind_params d.params with_ >>= body d

module _ {W : Type 0} (sv : Services W) where
  abbrev pub inner : Def → Config → Config
  inner d cfg = record cfg { ex = using (as_user cfg.ex d.become) d.interp; def_name = d.name }

  -- `EvalDefFull`: the definition, the arguments, the `with` bindings, the names of the control
  -- paths, the executor and the mode with the chain of calls, and the state of the machines.
  unfoldable pub eval_def : ℕ → Def → Map Str → Map Str → List Str → Config → W → DefOut W
  unfolding run_body text_vars mark_control
  eval_def zero d args with_ ctl cfg w = starved
  eval_def (suc fuel) d args with_ ctl cfg w = leave (
      run_body sv (eval_def fuel) (inner d cfg) d with_ (record {
        vars = mark_control ctl (text_vars args);
        last = nil;
        ran = [];
        acted = false;
        world = w;
      }))
