-- ===== src/Tests/AgentTests.antt =====
-- The theorems on the agent at concrete inputs.
use shellf.Prelude.{
  ℕ, Bool, true, false, List, [], ◌∷◌, Option, none, some, Str, str, Map, ◌≡◌, refl, In, ◌↔◌, inl,
  inr, In, ◌↔◌,
}
use shellf.Engine.{apply_mode, check_mode, status_mode, Mode, Result}
use shellf.Proto.{
  Step, step, Steps, stop, also, no_if, if_block, cond, Results, empty, Response, Request,
}
use shellf.Agent.{
  Scope, Out, done, out_of_fuel, Target, run_steps, run_step, run_parallel, run_parsed,
}
use shellf.Agent.Halting.{
  ends_in_err, errors_caught, count_results, count_steps, run_steps-halted, run_steps-count,
}
use shellf.Agent.Strip.{Says, QuietAnswer, ask, run_parsed-verbose, run_parsed-halted}
use shellf.Agent
use shellf.Agent.Preflight.{Uses, collect_lem}
use shellf.Agent.Capture.{run_parallel-scope}
use shellf.Tests.{counting, failing, target_on, shell_fields, shell_step, plain_executor}

abbrev two_steps : Steps
two_steps = also (shell_step (str "one")) (also (shell_step (str "two")) stop)

-- A step that captures its result.
abbrev capturing : Step
capturing = step (record (shell_fields (str "one")) { bind = str "r" }) stop stop no_if

abbrev results_of : Out ℕ (Results × Bool) → Results × Bool
results_of (done a sc w) = a
results_of out_of_fuel = (empty, false)

abbrev scope_of : {A : Type 0} → Out ℕ A → Scope
scope_of (done a sc w) = sc
scope_of out_of_fuel = []

abbrev world_of : {A : Type 0} → Out ℕ A → ℕ
world_of (done a sc w) = w
world_of out_of_fuel = 0

abbrev failed_run : Out ℕ (Results × Bool)
failed_run = run_steps (target_on failing) [] apply_mode two_steps plain_executor [] [] 0

failed_run-done :
    failed_run
    ≡ done
        ((results_of failed_run).0, (results_of failed_run).1)
        (scope_of failed_run)
        (world_of failed_run)
unfolding run_steps shellf.Prelude.lookup shellf.Prelude.str_eq shellf.Engine.Run.run
    shellf.Engine.Shell.shell_instruction shellf.Prelude.trim_space shellf.Engine.is_ok
    shellf.Prelude.int_eq shellf.Engine.Exec.shell
failed_run-done = refl

-- The second step does not run.
failed_run-stops : (count_results (results_of failed_run).0 ≡ 1) × (world_of failed_run ≡ 1)
unfolding run_steps count_results shellf.Prelude.lookup shellf.Prelude.str_eq shellf.Engine.Run.run
    shellf.Engine.Shell.shell_instruction shellf.Prelude.trim_space shellf.Engine.is_ok
    shellf.Prelude.int_eq shellf.Engine.Exec.shell
failed_run-stops = (refl, refl)

run_steps-halted_example :
    ((results_of failed_run).1 ≡ ends_in_err false (results_of failed_run).0)
    × (errors_caught (results_of failed_run).0 ≡ true)
run_steps-halted_example =
    run_steps-halted (target_on failing) [] apply_mode two_steps plain_executor [] 0
      (results_of failed_run).0 (results_of failed_run).1 (scope_of failed_run)
      (world_of failed_run) failed_run-done

abbrev good_run : Out ℕ (Results × Bool)
good_run = run_steps (target_on counting) [] apply_mode two_steps plain_executor [] [] 0

good_run-done :
    good_run ≡ done ((results_of good_run).0, false) (scope_of good_run) (world_of good_run)
unfolding run_steps shellf.Prelude.lookup shellf.Prelude.str_eq shellf.Engine.Run.run
    shellf.Engine.Shell.shell_instruction shellf.Prelude.trim_space shellf.Engine.is_ok
    shellf.Prelude.int_eq shellf.Engine.Exec.shell
good_run-done = refl

run_steps-count_example : count_results (results_of good_run).0 ≡ count_steps two_steps
run_steps-count_example =
    run_steps-count (target_on counting) [] apply_mode two_steps plain_executor [] 0
      (results_of good_run).0 (scope_of good_run) (world_of good_run) good_run-done

abbrev request : Request
request = record { mode = str "apply"; defs = []; steps = two_steps; verbose = false }

run_parsed-verbose_example :
    QuietAnswer
      (run_parsed (target_on failing) (ask request false) [] plain_executor 0)
      (run_parsed (target_on failing) (ask request true) [] plain_executor 0)
run_parsed-verbose_example = run_parsed-verbose (target_on failing) request [] plain_executor 0

abbrev response_of : Option (Response × ℕ) → Response
response_of none = record { results = empty; halted = false; error = [] }
response_of (some (r, w)) = r

abbrev after : Option (Response × ℕ) → ℕ
after none = 0
after (some (r, w)) = w

abbrev answer : Option (Response × ℕ)
answer = run_parsed (target_on failing) request [] plain_executor 0

answer-some : answer ≡ some (response_of answer, after answer)
unfolding run_parsed shellf.Prelude.str_eq shellf.Prelude.lookup shellf.Engine.Run.run
    shellf.Engine.Shell.shell_instruction shellf.Prelude.trim_space shellf.Agent.mode_of
    shellf.Engine.is_ok shellf.Prelude.int_eq shellf.Engine.Exec.shell
answer-some = refl

run_parsed-halted_example : Says (response_of answer)
run_parsed-halted_example =
    run_parsed-halted (target_on failing) request [] plain_executor 0 (response_of answer)
      (after answer) answer-some

abbrev parallel_run : Out ℕ Results
parallel_run =
    run_parallel (target_on counting) [] apply_mode (also capturing stop) plain_executor [] 0

abbrev branches_of : Out ℕ Results → Results
branches_of (done a sc w) = a
branches_of out_of_fuel = empty

parallel_run-done :
    parallel_run ≡ done (branches_of parallel_run) (scope_of parallel_run) (world_of parallel_run)
unfolding run_parallel shellf.Prelude.lookup shellf.Prelude.str_eq
parallel_run-done = refl

run_parallel-scope_example : scope_of parallel_run ≡ []
run_parallel-scope_example =
    run_parallel-scope (target_on counting) [] apply_mode (also capturing stop) plain_executor [] 0
      (branches_of parallel_run) (scope_of parallel_run) (world_of parallel_run) parallel_run-done

abbrev in_bash : Step
in_bash = step (record (shell_fields (str "x")) { interp = str "bash" }) stop stop no_if

abbrev nested : Steps
nested =
    also (step (shell_fields []) stop stop (if_block (cond in_bash) none none false two_steps stop))
      stop

collect_lem_example : Uses (str "bash") nested ↔ In (str "bash") (Agent.collect nested [])
collect_lem_example = collect_lem (str "bash") nested

nested_collected : Agent.collect nested [] ≡ str "bash" ∷ []
unfolding Agent.collect shellf.Prelude.str_eq
nested_collected = refl
