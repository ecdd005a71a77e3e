-- ===== src/Agent/Halting.antt =====
-- How a block of steps ends: what its results say of whether it halted.
use shellf.Prelude.{
  ℕ, suc, Bool, true, false, not, ◌&&◌, ◌||◌, Str, [], is_empty, ◌≡◌, refl, subst, sym, ap, arith,
  Bool-cases, inl, inr, Map,
}
use shellf.Engine.{Mode}
use shellf.Engine.Exec.{ShellExecutor}
use shellf.Lang.Ast.{Def}
use shellf.Proto.{
  Fields, fields, Step, Steps, stop, also, StepResult, step_result, Results, empty, more, line_of,
}
use shellf.Agent.{
  Scope, Out, done, out_of_fuel, M, ◌>>=◌, pure, is_err, set_caught, Target, after_step,
  handles_caught, turn, run_steps, run_step,
}

-- Whether the last result is in the category `err`, with a value for no result.
unfoldable pub ends_in_err : Bool → Results → Bool
ends_in_err d empty = d
ends_in_err d (more r rs) = ends_in_err (is_err (line_of r).category) rs

-- Whether every `err` that another result follows was caught by its step's `?`.
unfoldable pub errors_caught : Results → Bool
errors_caught empty = true
errors_caught (more r empty) = true
errors_caught (more r (more q rs)) =
    (not (is_err (line_of r).category) || (line_of r).caught) && errors_caught (more q rs)

unfoldable pub count_results : Results → ℕ
count_results empty = 0
count_results (more r rs) = suc (count_results rs)

unfoldable pub count_steps : Steps → ℕ
count_steps stop = 0
count_steps (also s ss) = suc (count_steps ss)

-- What the loop leaves, for a caught error that waits (`d`) and the steps that are left.
record Ends (d : Bool) (n : ℕ) (out : Results × Bool) : Type 0 where
  ends : out.1 ≡ ends_in_err d out.0
  caught : errors_caught out.0 ≡ true
  complete : (out.1 ≡ false) → count_results out.0 ≡ n

Ends-more :
    (d : Bool) (n : ℕ) (r : StepResult) (rs : Results) (h : Bool)
    → (not (is_err (line_of r).category) || (line_of r).caught) ≡ true
    → Ends (is_err (line_of r).category) n (rs, h)
    → Ends d (suc n) (more r rs, h)
unfolding ends_in_err errors_caught count_results
Ends-more d n r empty h c e = record {
  ends = e.ends;
  caught = refl;
  complete = λ q. ap suc (e.complete q);
}
Ends-more d n r (more q rs) h c e = record {
  ends = e.ends;
  caught = rw (c, e.caught) refl;
  complete = λ q. ap suc (e.complete q);
}

-- A block with no result of its own.
Ends-none : (d : Bool) (n : ℕ) → (d ≡ false → 0 ≡ n) → Ends d n (empty, d)
unfolding ends_in_err errors_caught count_results
Ends-none d n z = record { ends = refl; caught = refl; complete = z }

-- A block that stops at an error.
Ends-last :
    (d : Bool) (n : ℕ) (r : StepResult)
    → is_err (line_of r).category ≡ true
    → Ends d n (more r empty, true)
unfolding ends_in_err errors_caught count_results
Ends-last d n r e = record {
  ends = sym e;
  caught = refl;
  complete = λ q. absurd (ground (arith, q));
}

module _ {W : Type 0} where
  pub >>=-eq-done :
      {A B : Type 0} (m : M W A) (f : A → M W B) {sc : Scope} {w : W} {b : B} {sc' : Scope} {w' : W}
      → ◌≡◌ {A = Out W B} ((m >>= f) sc w) (done b sc' w')
      → (a : A) × (sc₁ : Scope) × (w₁ : W) × (◌≡◌ {A = Out W A} (m sc w) (done a sc₁ w₁))
        × (◌≡◌ {A = Out W B} (f a sc₁ w₁) (done b sc' w'))
  >>=-eq-done {A} {B} m f {sc} {w} {b} {sc'} {w'} h = from (m sc w) refl h
    where
      from :
          (o : Out W A)
          → m sc w ≡ o
          → ◌≡◌ {A = Out W B}
              (elim o [ done a sc₁ w₁ ↦ f a sc₁ w₁ | out_of_fuel ↦ out_of_fuel ])
              (done b sc' w')
          → (a : A) × (sc₁ : Scope) × (w₁ : W) × (◌≡◌ {A = Out W A} (m sc w) (done a sc₁ w₁))
            × (◌≡◌ {A = Out W B} (f a sc₁ w₁) (done b sc' w'))
      from (done a sc₁ w₁) p q = (a, sc₁, w₁, p, q)
      from out_of_fuel p q = cc

  pub done_injective :
      {A : Type 0} {a b : A} {sc sc' : Scope} {w w' : W}
      → ◌≡◌ {A = Out W A} (done a sc w) (done b sc' w')
      → a ≡ b
  done_injective h = cc

  -- What is known of the rest of a loop.
  abbrev Rest : (n : ℕ) → (Str → M W (Results × Bool)) → Type 0
  Rest n next =
      (p : Str) (sc : Scope) (w : W) (out : Results × Bool) (sc' : Scope) (w' : W)
      → next p sc w ≡ done out sc' w'
      → Ends (not (is_empty p)) n out

  abbrev continue_ : StepResult → M W (Results × Bool) → M W (Results × Bool)
  continue_ r next = next >>= λ rest. pure (more r rest.0, rest.1)

  continue-Ends :
      (d : Bool) (n : ℕ) (next : Str → M W (Results × Bool)) (r : StepResult) (p : Str)
      → Rest n next
      → not (is_empty p) ≡ is_err (line_of r).category
      → (not (is_err (line_of r).category) || (line_of r).caught) ≡ true
      → (sc : Scope) (w : W) (out : Results × Bool) (sc' : Scope) (w' : W)
      → continue_ r (next p) sc w ≡ done out sc' w'
      → Ends d (suc n) out
  continue-Ends d n next r p rest waits c sc w out sc' w' e =
      let (seen, sc₁, w₁, q, h) = >>=-eq-done (next p) _ e in
      subst (Ends d (suc n)) (done_injective h) (
        Ends-more d n r seen.0 seen.1 c
          (subst (λ b. Ends b n seen) waits (rest p sc w seen sc₁ w₁ q)))

module _ {W : Type 0} (target : Target W) (defs : Map Def) (m : Mode) where
  after_step-Ends :
      (d : Bool) (n : ℕ) (f : Fields) (next : Str → M W (Results × Bool)) (r : StepResult)
      → Rest n next
      → (sc : Scope) (w : W) (out : Results × Bool) (sc' : Scope) (w' : W)
      → after_step target defs m f next r sc w ≡ done out sc' w'
      → Ends d (suc n) out
  unfolding after_step
  after_step-Ends d n f next (step_result l sub) rest sc w out sc' w' e =
      elim (Bool-cases (f.caught && not (is_empty f.bind) && is_err l.category)) [
        | inl waits ↦
            continue-Ends d n next (set_caught f.caught (step_result l sub)) f.bind rest
              (ground (arith, waits)) (ground (arith, waits)) sc w out sc' w' (rw waits at e)
        | inr no_ ↦ elim (Bool-cases (is_err l.category)) [
          | inl err ↦
              subst (Ends d (suc n)) (done_injective (rw (no_, err) at e))
                (Ends-last d (suc n) (set_caught f.caught (step_result l sub)) err)
          | inr fine ↦
              continue-Ends d n next (set_caught f.caught (step_result l sub)) [] rest (sym fine)
                (ground (arith, fine)) sc w out sc' w' (rw (no_, fine) at e)
        ]
      ]

  turn-Ends :
      (n : ℕ) (s : Step) (here : M W StepResult) (next : Str → M W (Results × Bool))
      → Rest n next
      → Rest (suc n) (λ p. turn target defs m s p here next)
  unfolding turn
  turn-Ends n s here next rest p sc w out sc' w' e =
      elim (Bool-cases (not (is_empty p) && not (handles_caught s p sc))) [
        | inl stuck ↦ subst (Ends (not (is_empty p)) (suc n)) (done_injective (rw stuck at e)) (
            subst (λ d. Ends (not (is_empty p)) (suc n) (empty, d)) (ground (arith, stuck))
              (Ends-none (not (is_empty p)) (suc n) (λ z. ground (arith, stuck, z))))
        | inr go ↦
            (let (r, sc₁, w₁, q, h) =
                >>=-eq-done here (after_step target defs m (fields s) next) (rw go at e) in
              after_step-Ends (not (is_empty p)) n (fields s) next r rest sc₁ w₁ out sc' w' h)
      ]

  run_steps-Ends :
      (ss : Steps) (ex : ShellExecutor) → Rest (count_steps ss) (run_steps target defs m ss ex)
  unfolding run_steps count_steps
  run_steps-Ends stop ex p sc w out sc' w' e =
      subst (Ends (not (is_empty p)) 0) (done_injective e)
        (Ends-none (not (is_empty p)) 0 (λ z. refl))
  run_steps-Ends (also s ss) ex p sc w out sc' w' e =
      turn-Ends (count_steps ss) s (run_step target defs m s ex) (run_steps target defs m ss ex)
        (run_steps-Ends ss ex) p sc w out sc' w' e

  -- When a block of steps ends, it is said to have halted exactly if its last result is in the
  -- category `err`, and every `err` before the last was caught by the `?` of its step.
  pub run_steps-halted :
      (ss : Steps) (ex : ShellExecutor) (sc : Scope) (w : W) (rs : Results) (halted : Bool)
      (sc' : Scope) (w' : W)
      → run_steps target defs m ss ex [] sc w ≡ done (rs, halted) sc' w'
      → (halted ≡ ends_in_err false rs) × (errors_caught rs ≡ true)
  run_steps-halted ss ex sc w rs halted sc' w' e =
      let r = run_steps-Ends ss ex [] sc w (rs, halted) sc' w' e in (r.ends, r.caught)

  -- A block that ends without halting has one result for each of its steps.
  pub run_steps-count :
      (ss : Steps) (ex : ShellExecutor) (sc : Scope) (w : W) (rs : Results) (sc' : Scope) (w' : W)
      → run_steps target defs m ss ex [] sc w ≡ done (rs, false) sc' w'
      → count_results rs ≡ count_steps ss
  run_steps-count ss ex sc w rs sc' w' e =
      (run_steps-Ends ss ex [] sc w (rs, false) sc' w' e).complete refl
