-- ===== src/Lang/Run/Confirm.antt =====
-- A success after an apply that acted has been looked at.
use shellf.Prelude.{
  Bool, true, false, ◌&&◌, List, [], ◌∷◌, Option, none, some, Str, str, str_eq, Map, ◌≡◌, inl, inr,
  arith, Bool-cases, subst,
}
use shellf.Engine.{ok_category, apply_mode, Result}
use shellf.Lang.Ast.{Outcome, Stmts, Phase, Def}
use shellf.Lang.Fields.{converged}
use shellf.Lang.Monad.{Ev, done, M, ◌>>=◌, ◌>>◌, >>=-eq-done, done_injective}
use shellf.Lang.Services.{Services, Config, DefOut}
use shellf.Lang.Eval.{eval_stmts, to_result, payload_shell, outcome_result}
use shellf.Lang.Run.{
  last_phase, observe, confirm, confirm_phase, confirmed, run_apply, apply_verdict, conclude,
  changed_if_acted, unconfirmed, is_ok_category, run_phases, set_acted, decide, decide_phase,
  decided, check_verdict, skip_if_converged, run_modes, question_in_check,
}

abbrev is_apply : Phase → Bool
is_apply ph = str_eq ph.name (str "apply")

module _ {W : Type 0} (sv : Services W)
    (call_def : Def → Map Str → Map Str → List Str → Config → W → DefOut W) (cfg : Config) where
  -- The state observed from `e` on is the desired one, and reading it ended in `e'`.
  pub record Confirmed (desired : Map Str) (ss : Stmts) (e e' : Ev W) : Type 0 where
    pub observed : Map Str
    pub read : observe sv call_def cfg ss e ≡ done observed e'
    pub agrees : converged observed desired ≡ true

  confirm_phase-Confirmed :
      (desired : Map Str) (ss : Stmts) (r r' : Result) (e e' : Ev W)
      → r'.category ≡ ok_category
      → confirm_phase sv call_def cfg desired r (some ss) e ≡ done r' e'
      → Confirmed desired ss e e'
  confirm_phase-Confirmed desired ss r r' e e' ok h =
      let (observed, e₁, read, end) =
        >>=-eq-done (observe sv call_def cfg ss) (confirmed sv call_def cfg desired r) h in
      elim (Bool-cases (converged observed desired)) [
        | inl agrees ↦ record {
          observed = observed;
          read =
              subst (λ x. observe sv call_def cfg ss e ≡ done observed x) (done_injective end).1
                read;
          agrees = agrees;
        }
        | inr differs ↦ absurd (unfold unconfirmed in ground (arith, done_injective end))
      ]

  -- What `toResult` makes is not marked changed.
  to_result-unchanged :
      (o : Outcome) (e e' : Ev W) (r : Result)
      → to_result sv cfg call_def o e ≡ done r e'
      → r.changed ≡ false
  unfolding to_result
  to_result-unchanged o e e' r h =
      let (s, e₁, _, end) =
        >>=-eq-done (payload_shell sv cfg call_def o.payload) (outcome_result sv cfg call_def o)
          h in
      ground arith

  apply_verdict-unchanged :
      (o : Option Outcome) (e e' : Ev W) (r : Result)
      → apply_verdict sv call_def cfg o e ≡ done r e'
      → r.changed ≡ false
  unfolding apply_verdict
  apply_verdict-unchanged none e e' r h = ground arith
  apply_verdict-unchanged (some o) e e' r h = to_result-unchanged o e e' r h

  check_verdict-unchanged :
      (rest : M W (Option Result)) (o : Option Outcome) (e e' : Ev W) (r : Result)
      → ((u u' : Ev W) → rest u ≡ done (some r) u' → r.changed ≡ false)
      → check_verdict sv call_def cfg (λ x. x) rest o e ≡ done (some r) e'
      → r.changed ≡ false
  check_verdict-unchanged rest none e e' r later h = later e e' h
  check_verdict-unchanged rest (some o) e e' r later h =
      let (q, e₁, made, end) =
        >>=-eq-done (to_result sv cfg call_def o) (λ res u. done (some res) u) h in
      ground (arith, to_result-unchanged o e e₁ q made)

  decide_phase-unchanged :
      (desired : Map Str) (ph : Phase) (rest : M W (Option Result)) (e e' : Ev W) (r : Result)
      → ((u u' : Ev W) → rest u ≡ done (some r) u' → r.changed ≡ false)
      → decide_phase sv call_def cfg (λ x. x) desired ph rest e ≡ done (some r) e'
      → r.changed ≡ false
  unfolding decide_phase
  decide_phase-unchanged desired ph rest e e' r later h =
      elim (Bool-cases (str_eq ph.name (str "check"))) [
        | inl check ↦
            let (o, e₁, _, end) =
              >>=-eq-done (eval_stmts sv cfg call_def ph.stmts)
                (check_verdict sv call_def cfg (λ x. x) rest) (rw check at h) in
            check_verdict-unchanged rest o e₁ e' r later end
        | inr no_check ↦ elim (Bool-cases (str_eq ph.name (str "observe"))) [
          | inl obs ↦
              let (observed, e₁, _, end) =
                >>=-eq-done (observe sv call_def cfg ph.stmts)
                  (skip_if_converged sv call_def cfg desired rest) (rw (no_check, obs) at h) in
              ground (arith, later e₁ e')
          | inr no_observe ↦ later e e' (rw (no_check, no_observe) at h)
        ]
      ]

  -- In apply mode pass 1 ends with no result that is marked changed.
  decide-unchanged :
      (desired : Map Str) (phs : List Phase) (e e' : Ev W) (r : Result)
      → decide sv call_def cfg (λ x. x) desired phs e ≡ done (some r) e'
      → r.changed ≡ false
  unfolding decide
  decide-unchanged desired [] e e' r h = cc
  decide-unchanged desired (ph ∷ phs) e e' r h =
      decide_phase-unchanged desired ph (decide sv call_def cfg (λ x. x) desired phs) e e' r
        (λ u u'. decide-unchanged desired phs u u' r) h

  conclude-Confirmed :
      (d : Def) (desired : Map Str) (ss : Stmts) (r r' : Result) (e e' : Ev W)
      → last_phase (str "observe") d.phases none ≡ some ss
      → r.changed ≡ false
      → r'.category ≡ ok_category
      → r'.changed ≡ true
      → conclude sv call_def cfg d desired r e ≡ done r' e'
      → Confirmed desired ss e e'
  unfolding conclude confirm
  conclude-Confirmed d desired ss r r' e e' has fresh ok changed h =
      let q = changed_if_acted e.acted r in
      elim (Bool-cases (is_ok_category q.category && e.acted)) [
        | inl acts ↦ confirm_phase-Confirmed desired ss q r' e e' ok (rw (acts, has) at h)
        | inr idle ↦
            absurd (unfold changed_if_acted in ground (arith, done_injective (rw idle at h)))
      ]

  run_apply-Confirmed :
      (d : Def) (desired : Map Str) (ss : Stmts) (r : Result) (e e' : Ev W)
      → last_phase (str "observe") d.phases none ≡ some ss
      → r.category ≡ ok_category
      → r.changed ≡ true
      → run_apply sv call_def cfg d desired e ≡ done r e'
      → (e₁ : Ev W) × Confirmed desired ss e₁ e'
  unfolding run_apply
  run_apply-Confirmed d desired ss r e e' has ok changed h =
      let acts = set_acted false >> run_phases sv call_def cfg is_apply d.phases in
      let (q, e₂, made, end) =
        >>=-eq-done (acts >>= apply_verdict sv call_def cfg) (conclude sv call_def cfg d desired)
          {e = e} h in
      let (o, e₃, _, verdict) =
        >>=-eq-done acts (apply_verdict sv call_def cfg) {e = e} {e' = e₂} made in
      (
        e₂,
        conclude-Confirmed d desired ss q r e₂ e' has (apply_verdict-unchanged o e₃ e₂ q verdict) ok
            changed end,
      )

  -- In apply mode a def with an `observe` and no delegation reports a success that changed
  -- something only if its last act was to run that `observe` again, and the state that it then
  -- read was the desired one by the rules of `converged`.
  pub run_modes-Confirmed :
      (d : Def) (desired : Map Str) (ss : Stmts) (r : Result) (e e' : Ev W)
      → cfg.mode ≡ apply_mode
      → last_phase (str "observe") d.phases none ≡ some ss
      → r.category ≡ ok_category
      → r.changed ≡ true
      → run_modes sv call_def cfg d desired apply_mode e ≡ done r e'
      → (e₁ : Ev W) × Confirmed desired ss e₁ e'
  unfolding run_modes question_in_check
  run_modes-Confirmed d desired ss r e e' apply has ok changed h =
      let (v, e₁, first, second) =
        >>=-eq-done (decide sv call_def cfg (question_in_check d cfg.mode) desired d.phases)
          (decided sv call_def cfg (run_apply sv call_def cfg d desired)) h in
      finish v e₁
        (subst (λ m. decide sv call_def cfg (question_in_check d m) desired d.phases e ≡ done v e₁)
          apply first)
        second
    where
      finish :
          (v : Option Result) (e₁ : Ev W)
          → decide sv call_def cfg (λ x. x) desired d.phases e ≡ done v e₁
          → decided sv call_def cfg (run_apply sv call_def cfg d desired) v e₁ ≡ done r e'
          → (e₂ : Ev W) × Confirmed desired ss e₂ e'
      finish (some q) e₁ first second =
          absurd
            (ground (arith, done_injective second, decide-unchanged desired d.phases e e₁ q first))
      finish none e₁ first second = run_apply-Confirmed d desired ss r e₁ e' has ok changed second
