-- ===== src/Agent/Capture.antt =====
-- The captured results of a block, which the branches of a `parallel` see and do not change.
use shellf.Prelude.{◌≡◌, ◌∙◌, Map}
use shellf.Engine.{Mode}
use shellf.Engine.Exec.{ShellExecutor}
use shellf.Lang.Ast.{Def}
use shellf.Proto.{Steps, stop, also, StepResult, Results}
use shellf.Agent.{Scope, Out, done, out_of_fuel, Target, run_step, run_parallel, on_copy}
use shellf.Agent.Halting.{>>=-eq-done}

module _ {W : Type 0} (target : Target W) (defs : Map Def) (m : Mode) where
  -- Whatever the branches of a `parallel` capture, the steps after it see the captured results of
  -- before.
  pub run_parallel-scope :
      (ss : Steps) (ex : ShellExecutor) (sc : Scope) (w : W) (rs : Results) (sc' : Scope) (w' : W)
      → run_parallel target defs m ss ex sc w ≡ done rs sc' w'
      → sc' ≡ sc
  unfolding run_parallel
  run_parallel-scope stop ex sc w rs sc' w' e = cc
  run_parallel-scope (also s ss) ex sc w rs sc' w' e =
      let (r, sc₁, w₁, p, q) =
        >>=-eq-done (on_copy target defs m (run_step target defs m s ex)) _ e in
      let (rs', sc₂, w₂, p', q') = >>=-eq-done (run_parallel target defs m ss ex) _ q in
      done_scope q'
      ∙ (run_parallel-scope ss ex sc₁ w₁ rs' sc₂ w₂ p' ∙ kept (run_step target defs m s ex sc w) p)
    where
      done_scope :
          {A : Type 0} {a b : A} {c c' : Scope} {v v' : W}
          → ◌≡◌ {A = Out W A} (done a c v) (done b c' v')
          → c' ≡ c
      done_scope h = cc

      kept :
          {sc₁ : Scope} {w₁ : W} {r : StepResult} (o : Out W StepResult)
          → ◌≡◌ {A = Out W StepResult}
              (elim o [ done a s' v ↦ done a sc v | out_of_fuel ↦ out_of_fuel ])
              (done r sc₁ w₁)
          → sc₁ ≡ sc
      kept (done a s' v) h = done_scope h
      kept out_of_fuel h = absurd cc
