-- ===== src/Agent/Strip.antt =====
-- The answer to a request: what it says of the run, and what `-v` adds to it.
use shellf.Prelude.{
  Bool, true, false, Str, [], Option, none, some, is_empty, str_eq, ◌&&◌, ◌||◌, not, ◌≡◌, refl, sym,
  subst, ap, ◌∙◌, arith, Bool-cases, some-injective, inl, inr, Map,
}
use shellf.Engine.Exec.{ShellExecutor}
use shellf.Lang.Ast.{Def}
use shellf.Proto.{StepResult, step_result, Results, empty, more, Response, Request}
use shellf.Agent.{
  Out, done, out_of_fuel, is_err, Target, strip_ran, strip_step, run_parsed, refusal, respond,
  find_missing, collect, run_steps, mode_of,
}
use shellf.Agent.Halting.{ends_in_err, errors_caught, run_steps-halted}

-- The log of the commands that ran is empty in every result, at any depth.
unfoldable mutual
  pub NoRan : Results → Type 0
  NoRan empty = Unit
  NoRan (more r rs) = NoRanStep r × NoRan rs

  pub NoRanStep : StepResult → Type 0
  NoRanStep (step_result l sub) = (l.ran ≡ []) × NoRan sub

mutual
  unfolding strip_ran NoRan

  strip_ran-NoRan : (rs : Results) → NoRan (strip_ran rs)
  strip_ran-NoRan empty = tt
  strip_ran-NoRan (more r rs) = (strip_step-NoRanStep r, strip_ran-NoRan rs)

  strip_step-NoRanStep : (r : StepResult) → NoRanStep (strip_step r)
  strip_step-NoRanStep (step_result l sub) = (refl, strip_ran-NoRan sub)

strip_ran-ends : (d : Bool) (rs : Results) → ends_in_err d (strip_ran rs) ≡ ends_in_err d rs
unfolding strip_ran ends_in_err
strip_ran-ends d empty = refl
strip_ran-ends d (more (step_result l sub) rs) = strip_ran-ends (is_err l.category) rs

-- A whole answer: it halted exactly if its last result is an `err`, and the ones before were caught.
abbrev pub Says : Response → Type 0
Says r = (r.halted ≡ ends_in_err false r.results) × (errors_caught r.results ≡ true)

strip_ran-caught : (rs : Results) → errors_caught (strip_ran rs) ≡ errors_caught rs
unfolding strip_ran errors_caught
strip_ran-caught empty = refl
strip_ran-caught (more (step_result l sub) empty) = refl
strip_ran-caught (more (step_result l sub) (more (step_result k sub') rs)) =
    ap (◌&&◌ (not (is_err l.category) || l.caught))
      (strip_ran-caught (more (step_result k sub') rs))

-- The results of a quiet answer beside those of the verbose one, at every depth: as many, each with
-- an empty log of commands that ran, and alike in all else.
unfoldable mutual
  pub Quiet : Results → Results → Type 0
  Quiet empty empty = Unit
  Quiet (more q qs) (more v vs) = QuietStep q v × Quiet qs vs
  Quiet empty (more v vs) = ⊥
  Quiet (more q qs) empty = ⊥

  pub QuietStep : StepResult → StepResult → Type 0
  QuietStep (step_result q sub) (step_result v sub') =
      (q.ran ≡ []) × (record q { ran = v.ran } ≡ v) × Quiet sub sub'

mutual
  unfolding strip_ran Quiet

  strip_ran-Quiet : (rs : Results) → Quiet (strip_ran rs) rs
  strip_ran-Quiet empty = tt
  strip_ran-Quiet (more r rs) = (strip_step-QuietStep r, strip_ran-Quiet rs)

  strip_step-QuietStep : (r : StepResult) → QuietStep (strip_step r) r
  strip_step-QuietStep (step_result l sub) = (refl, refl, strip_ran-Quiet sub)

-- No answer to both, or an answer to both, in the same world and with the same halt and error.
abbrev pub QuietAnswer : {W : Type 0} → Option (Response × W) → Option (Response × W) → Type 0
QuietAnswer none none = Unit
QuietAnswer (some (q, w)) (some (v, w')) =
    Quiet q.results v.results × (q.halted ≡ v.halted) × (q.error ≡ v.error) × (w ≡ w')
QuietAnswer none (some v) = ⊥
QuietAnswer (some q) none = ⊥

same_answer :
    {W : Type 0} {p : Response × W} {r : Response} {w : W} → some p ≡ some (r, w) → p.0 ≡ r
same_answer h = ap (λ q. q.0) (some-injective h)

abbrev pub ask : Request → Bool → Request
ask req v = record req { verbose = v }

module _ {W : Type 0} (target : Target W) where
  -- A quiet request is answered exactly if the verbose one is, in the same world, with the same
  -- halt, the same error and as many results, which at every depth are alike but for the log of the
  -- commands that ran, which is empty.
  pub run_parsed-verbose :
      (req : Request) (defs : Map Def) (ex : ShellExecutor) (w : W)
      → QuietAnswer
          (run_parsed target (ask req false) defs ex w)
          (run_parsed target (ask req true) defs ex w)
  unfolding run_parsed Quiet
  run_parsed-verbose req defs ex w =
      elim (Bool-cases (is_empty (find_missing target (collect req.steps []) ex w).0)) [
        | inl found ↦ rw found (answered _)
        | inr lacking ↦ rw lacking (((refl, refl, tt), tt), refl, refl, refl)
      ]
    where
      answered :
          (o : Out W (Results × Bool))
          → QuietAnswer (respond target false o) (respond target true o)
      answered (done (rs, halted) sc w) = (strip_ran-Quiet rs, refl, refl, refl)
      answered out_of_fuel = tt

  -- If a request is answered, the answer says that the run halted exactly if its last result is in
  -- the category `err`, and every `err` before the last is marked as caught.
  pub run_parsed-halted :
      (req : Request) (defs : Map Def) (ex : ShellExecutor) (w : W) (resp : Response) (w' : W)
      → run_parsed target req defs ex w ≡ some (resp, w')
      → Says resp
  unfolding run_parsed ends_in_err errors_caught str_eq
  run_parsed-halted req defs ex w resp w' e =
      elim (Bool-cases (is_empty (find_missing target (collect req.steps []) ex w).0)) [
        | inl found ↦ answered req.verbose _ refl (rw found at e)
        | inr lacking ↦ refused (rw lacking at e)
      ]
    where
      w₀ : W
      w₀ = (find_missing target (collect req.steps []) ex w).1

      answered :
          (v : Bool) (o : Out W (Results × Bool))
          → run_steps target defs (mode_of req.mode) req.steps ex [] [] w₀ ≡ o
          → respond target v o ≡ some (resp, w')
          → Says resp
      answered true (done (rs, halted) sc w) q h =
          subst (Says) (same_answer h)
            (run_steps-halted target defs (mode_of req.mode) req.steps ex [] w₀ rs halted sc w q)
      answered false (done (rs, halted) sc w) q h = subst (Says) (same_answer h) (
          let (h₁, h₂) =
            run_steps-halted target defs (mode_of req.mode) req.steps ex [] w₀ rs halted sc w q in
          (h₁ ∙ sym (strip_ran-ends false rs), strip_ran-caught rs ∙ h₂))
      answered v out_of_fuel q h = absurd (ground (arith, h))

      refused :
          {s t : Str} {w₁ : W}
          → ◌≡◌ {A = Option (Response × W)} (some (refusal target s t, w₁)) (some (resp, w'))
          → Says resp
      refused h = subst (Says) (same_answer h) (refl, refl)
