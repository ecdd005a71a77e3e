-- ===== src/Agent.antt =====
-- internal/agent/agent.go: the steps of a request, run on the target. The branches of a `parallel`
-- run here one after the other, one of the schedules of Go's goroutines.
mod State
mod Answer
pub mod Halting
pub mod Strip
pub mod Capture
pub mod Preflight
unfoldable pub use State.*
unfoldable pub use Answer.*
use shellf.Prelude.{
  ℕ, zero, suc, Bool, true, false, not, ◌&&◌, ◌||◌, List, [], ◌∷◌, ◌++◌, Option, none, some, Str,
  str, str_eq, join, if◌then◌else◌, is_empty, Map, lookup, insert, keys, sort_strings, ◌⊎◌, inl,
  inr, any, pos,
}
use shellf.Engine.{
  Mode, apply_mode, check_mode, status_mode, Category, ok_category, err_category, would_category,
  category_string, ShellResult, only_stderr, is_ok, Result, Env,
}
use shellf.Engine.Exec.{ShellExecutor, as_user, using, shell}
use shellf.Engine.Run.{run}
use shellf.Engine.Shell.{shell_instruction}
use shellf.Lang.Ast.{Def}
use shellf.Lang.Value.{EvalError, unknown_instruction}
use shellf.Lang.Services.{Services, Config, DefOut, returned, errored, starved}
use shellf.Lang.Run.{eval_def}
use shellf.Proto.{
  ResultRef, Fields, Step, step, Steps, stop, also, Branch, no_if, if_block, Cond, no_cond, cond,
  fields, is_stop, Line, StepResult, step_result, Results, empty, more, line_of, Response, Request,
}
use shellf.Proto.Label.{label, cond_label, call_label}

abbrev value_of : Option Str → Str
value_of none = []
value_of (some v) = v

module _ {W : Type 0} (target : Target W) (defs : Map Def) (m : Mode) where
  -- `runInstruction`: a def of the package or of the standard library, else `dispatch`.
  unfoldable pub run_instruction : Fields → ShellExecutor → W → DefOut W
  unfolding resolver
  run_instruction f ex w =
      let sv : Services W = record target.services { resolve = some (resolver defs target.std) } in
      elim (resolver defs target.std f.instruction) [
        | some d ↦
            eval_def sv target.fuel d f.args f.with_ f.control
              (record { ex = ex; mode = m; stack = f.instruction ∷ []; def_name = [] }) w
        | none ↦
            if str_eq f.instruction (str "shell")
            then (let (r, w') =
                  run
                    (shell_instruction target.services.machine
                      (value_of (lookup (str "cmd") f.args)) f.env)
                    ex m w in
                returned r w')
            else errored (unknown_instruction f.instruction) w
      ]

  -- The line of a step's own result.
  abbrev pub result_line : Str → Result → Line
  result_line l r = record {
    label = l;
    category = category_string r.category;
    tag = r.tag;
    changed = r.changed;
    caught = false;
    shell = r.shell;
    diffs = r.fields;
    preview = r.preview;
    ran = r.ran;
  }

  -- `agentErr`
  abbrev pub agent_err : Str → EvalError → StepResult
  agent_err l e =
      step_result
        (record (plain l (str "err") (str "agent")) {
          shell = some (only_stderr (pos 1) (target.describe e));
        })
        empty

  abbrev cond_line : Str → Result → StepResult
  cond_line l r =
      step_result
        (record (plain l (category_string r.category) r.tag) {
          changed = r.changed;
          shell = r.shell;
        })
        empty

  abbrev category_is_ok : Category → Bool
  category_is_ok ok_category = true
  category_is_ok err_category = false
  category_is_ok would_category = false

  abbrev category_is_err : Category → Bool
  category_is_err err_category = true
  category_is_err ok_category = false
  category_is_err would_category = false

  abbrev category_is_would : Category → Bool
  category_is_would would_category = true
  category_is_would ok_category = false
  category_is_would err_category = false

  abbrev is_check : Mode → Bool
  is_check check_mode = true
  is_check apply_mode = false
  is_check status_mode = false

  -- A condition once it is known: its result, the line of an inline one, and the branch's truth
  -- before `!`; or the line that the `if` ends with.
  pub data Known : Type 0 where
    known : Result → Option StepResult → Bool → Known
    broken : StepResult → Known

  -- The test of an inline condition: its outcome pattern, or `ok`.
  abbrev inline_truth : Option ResultRef → Result → Bool
  inline_truth none r = category_is_ok r.category
  inline_truth (some ref) r = ref_truth r ref

  abbrev pub from_def : Str → Fields → Option ResultRef → DefOut W → M W Known
  from_def l f match_ (returned r w) sc w₀ =
      done (known r (some (cond_line (call_label f) r)) (inline_truth match_ r)) sc w
  from_def l f match_ (errored e w) sc w₀ = done (broken (agent_err l e)) sc w
  from_def l f match_ starved sc w₀ = out_of_fuel

  -- The first half of `runIf`. The parser gives every conditional a condition or a reference, and
  -- an inline condition is an instruction.
  unfoldable pub know : Str → Cond → Option ResultRef → Option ResultRef → ShellExecutor → M W Known
  unfolding run_instruction ref_truth
  know l c match_ (some ref) ex sc w = elim (lookup ref.name sc) [
    | none ↦ done (broken (step_result (plain l (str "err") (str "undefinedResult")) empty)) sc w
    | some r ↦ done (known r none (ref_truth r ref)) sc w
  ]
  know l (cond (step f block parallel branch)) match_ none ex sc w =
      from_def l f match_ (run_instruction f ex w) sc w
  know l no_cond match_ none ex sc w =
      done (broken (step_result (plain l (str "err") []) empty)) sc w

  abbrev cond_caught : Cond → Bool
  cond_caught no_cond = false
  cond_caught (cond (step f block parallel branch)) = f.caught

  -- A branch that was taken, as the line of its `if`.
  abbrev taken : Str → Option StepResult → Results × Bool → StepResult
  taken l sub (subs, halted) = step_result (plain l (ok_or_err halted) []) (with_cond sub subs)

  -- The second half of `runIf`, over the two branches.
  unfoldable pub choose :
      Str
      → Bool
      → Bool
      → Bool
      → M W (Results × Bool)
      → M W (Results × Bool)
      → Known
      → M W StepResult
  choose l caught negate no_else run_then run_else (broken s) = pure s
  choose l caught negate no_else run_then run_else (known r sub test) =
      let truth = flip_if negate test in
      if is_check m && category_is_would r.category
      then (run_then >>= λ seen.
          pure (step_result (plain l (str "undetermined") []) (with_cond sub seen.0)))
      else if caught && category_is_err r.category && not truth && no_else
      then pure (
          step_result (record (plain l (str "err") r.tag) { shell = r.shell })
            (with_cond sub empty))
      else if truth
      then (run_then >>= λ seen. pure (taken l sub seen))
      else (run_else >>= λ seen. pure (taken l sub seen))

  -- The last part of `runStep`: an instruction.
  abbrev after_def : Fields → DefOut W → M W StepResult
  after_def f (returned r w) sc w₀ =
      done (step_result (result_line (call_label f) r) empty)
        (if is_empty f.bind then sc else insert f.bind r sc) w
  after_def f (errored e w) sc w₀ = done (agent_err (call_label f) e) sc w
  after_def f starved sc w₀ = out_of_fuel

  unfoldable pub run_call : Fields → ShellExecutor → M W StepResult
  unfolding run_instruction
  run_call f ex sc w = after_def f (run_instruction f (using (as_user ex f.become) f.interp) w) sc w

  -- A branch of `parallel` works on a copy of the scope.
  abbrev pub on_copy : {A : Type 0} → M W A → M W A
  on_copy b sc w = elim (b sc w) [ done a sc' w' ↦ done a sc w' | out_of_fuel ↦ out_of_fuel ]

  -- One turn of the loop of `runSteps`, behind the result of its step: `next` is the rest of the
  -- loop, given the caught error that waits.
  unfoldable pub after_step :
      Fields → (Str → M W (Results × Bool)) → StepResult → M W (Results × Bool)
  after_step f next r =
      let r' = set_caught f.caught r in
      if f.caught && not (is_empty f.bind) && is_err (line_of r').category
      then (next f.bind >>= λ rest. pure (more r' rest.0, rest.1))
      else if is_err (line_of r').category
      then pure (more r' empty, true)
      else (next [] >>= λ rest. pure (more r' rest.0, rest.1))

  -- One turn of the loop: a caught error that the step does not handle ends it.
  unfoldable pub turn :
      Step → Str → M W StepResult → (Str → M W (Results × Bool)) → M W (Results × Bool)
  unfolding after_step handles_caught
  turn s pending here next sc w =
      if not (is_empty pending) && not (handles_caught s pending sc)
      then done (empty, true) sc w
      else (here >>= after_step (fields s) next) sc w

  unfoldable mutual
    unfolding turn run_call choose know

    -- `runSteps`, with the caught error that waits.
    pub run_steps : Steps → ShellExecutor → Str → M W (Results × Bool)
    run_steps stop ex pending = pure (empty, not (is_empty pending))
    run_steps (also s ss) ex pending = turn s pending (run_step s ex) (run_steps ss ex)

    -- `runStep`
    pub run_step : Step → ShellExecutor → M W StepResult
    run_step (step f block parallel (if_block c match_ ref negate then_ else_)) ex =
        let l = str "if(" ++ (cond_label c match_ ref ++ str ")") in
        know l c match_ ref ex
        >>= choose l (cond_caught c) negate (is_stop else_) (run_steps then_ ex [])
            (run_steps else_ ex [])
    run_step (step f (also b bs) parallel no_if) ex =
        run_steps (also b bs) (as_user ex f.become) [] >>= λ seen.
        pure (step_result (plain (str "as " ++ f.become) (ok_or_err seen.1) []) seen.0)
    run_step (step f stop (also p ps) no_if) ex = run_parallel (also p ps) ex >>= λ subs.
        pure (step_result (plain (str "parallel") (ok_or_err (any_err subs)) []) subs)
    run_step (step f stop stop no_if) ex = run_call f ex

    -- The branches of a `parallel`.
    pub run_parallel : Steps → ShellExecutor → M W Results
    run_parallel stop ex = pure empty
    run_parallel (also s ss) ex =
        on_copy (run_step s ex) >>= λ r. run_parallel ss ex >>= λ rs. pure (more r rs)

module _ {W : Type 0} (target : Target W) where
  -- The loop of `missingInterpreters`.
  unfoldable pub find_missing : List Str → ShellExecutor → W → List Str × W
  find_missing [] ex w = ([], w)
  find_missing (i ∷ is) ex w =
      let (r, w₁) = shell target.services.machine ex (str "command -v " ++ i) [] w in
      let (rest, w₂) = find_missing is ex w₁ in (if is_ok r then rest else i ∷ rest, w₂)

  abbrev pub refusal : Str → Str → Response
  refusal tag message = record {
    results =
        more
          (step_result
            (record (plain (str "pre-flight") (str "err") tag) {
              shell = some (only_stderr (pos 0) message);
            })
            empty)
          empty;
    halted = true;
    error = [];
  }

  abbrev pub respond : Bool → Out W (Results × Bool) → Option (Response × W)
  respond verbose (done (rs, halted) sc w) =
      some
        (record { results = if verbose then rs else strip_ran rs; halted = halted; error = [] }, w)
  respond verbose out_of_fuel = none

  -- `runRequest`, once the shipped defs are parsed.
  unfoldable pub run_parsed : Request → Map Def → ShellExecutor → W → Option (Response × W)
  unfolding find_missing run_steps strip_ran collect
  run_parsed req defs ex w =
      let (missing_, w') = find_missing (collect req.steps []) ex w in
      if is_empty missing_
      then respond req.verbose (run_steps target defs (mode_of req.mode) req.steps ex [] [] w')
      else some (
        refusal (str "interpreterMissing")
            (str "interpreter not found on target: " ++ join (str ", ") (sort_strings missing_)),
        w',
      )
