-- ===== src/Agent/Answer.antt =====
-- internal/agent/agent.go: `stripRan`, and `collectInterpreters` over the steps of a request.
use shellf.Prelude.{add_once, Bool, not, ◌&&◌, List, [], Str, str, str_eq, if◌then◌else◌, is_empty}
use shellf.Proto.{
  Fields, Step, step, Steps, stop, also, Branch, no_if, if_block, Cond, no_cond, cond, StepResult,
  step_result, Results, empty, more,
}

unfoldable mutual
  -- `stripRan`
  pub strip_ran : Results → Results
  strip_ran empty = empty
  strip_ran (more r rs) = more (strip_step r) (strip_ran rs)

  pub strip_step : StepResult → StepResult
  strip_step (step_result l sub) = step_result (record l { ran = [] }) (strip_ran sub)

abbrev pub needs : Fields → Bool
needs f =
    str_eq f.instruction (str "shell")
    && not (is_empty f.interp)
    && not (str_eq f.interp (str "sh"))
    && not (str_eq f.interp (str "raw"))

unfoldable mutual
  -- `collectInterpreters`
  pub collect : Steps → List Str → List Str
  collect stop need = need
  collect (also s ss) need = collect ss (collect_step s need)

  pub collect_step : Step → List Str → List Str
  collect_step (step f block parallel branch) need =
      collect parallel
        (collect block (collect_branch branch (if needs f then add_once need f.interp else need)))

  pub collect_branch : Branch → List Str → List Str
  collect_branch no_if need = need
  collect_branch (if_block c match_ ref negate then_ else_) need =
      collect else_ (collect then_ (collect_cond c need))

  pub collect_cond : Cond → List Str → List Str
  collect_cond no_cond need = need
  collect_cond (cond s) need = collect_step s need
