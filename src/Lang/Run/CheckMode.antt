-- ===== src/Lang/Run/CheckMode.antt =====
-- Check mode and status do not look at an `apply` that could act.
use shellf.Prelude.{
  ℕ, suc, Bool, true, false, List, [], ◌∷◌, Option, none, some, Str, str, str_eq, str_eq_iff,
  if◌then◌else◌, Map, ◌≡◌, ◌∙◌, inl, inr, refl, ap, arith, Bool-cases, fun_ext,
}
use shellf.Engine.{Mode, apply_mode, check_mode, status_mode, Result}
use shellf.Lang.Ast.{Outcome, Stmts, Phase, Call, Def}
use shellf.Lang.Inert.{inert_apply, is_question, only_checks}
use shellf.Lang.Monad.{M, ◌>>=◌}
use shellf.Lang.Value.{nil}
use shellf.Lang.Services.{Services, Config, DefOut}
use shellf.Lang.Run.{
  run_phases, decide, first_observe, status_result, run_status, previews, announce, run_check,
  run_modes, run_body, body, in_mode, bind_params, desired_state, run_status, eval_def,
  question_in_check, announced, ret_tag, run_phase, decide_phase, preview_phase, leave, inner,
  text_vars, mark_control,
}

-- The phases with another body in each `apply`.
abbrev pub other_apply : (Stmts → Stmts) → List Phase → List Phase
other_apply f [] = []
other_apply f (ph ∷ phs) =
    (record ph { stmts = if str_eq ph.name (str "apply") then f ph.stmts else ph.stmts })
    ∷ other_apply f phs

abbrev pub with_apply : (Stmts → Stmts) → Def → Def
with_apply f d = record d { phases = other_apply f d.phases }

abbrev is_check : Phase → Bool
is_check ph = str_eq ph.name (str "check")

-- A phase named `apply` has no other name.
apply-ne :
    (name other : Str)
    → str_eq (str "apply") other ≡ false
    → str_eq name (str "apply") ≡ true
    → str_eq name other ≡ false
apply-ne name other h e = rw ((str_eq_iff name (str "apply")).0 e) h

only_checks-other_apply :
    (f : Stmts → Stmts) (phs : List Phase) (seen : Bool)
    → only_checks (other_apply f phs) seen ≡ only_checks phs seen
unfolding only_checks
only_checks-other_apply f [] seen = refl
only_checks-other_apply f (ph ∷ phs) seen = rw (only_checks-other_apply f phs true)

is_question-other_apply :
    (f : Stmts → Stmts) (d : Def) → is_question (with_apply f d) ≡ is_question d
unfolding is_question
is_question-other_apply f d = rw (only_checks-other_apply f d.phases false)

question_in_check-other_apply :
    (f : Stmts → Stmts) (d : Def) (m : Mode)
    → question_in_check (with_apply f d) m ≡ question_in_check d m
unfolding question_in_check
question_in_check-other_apply f d check_mode =
    fun_ext (λ r. ground (arith, is_question-other_apply f d))
question_in_check-other_apply f d apply_mode = refl
question_in_check-other_apply f d status_mode = refl

first_observe-other_apply :
    (f : Stmts → Stmts) (phs : List Phase) → first_observe (other_apply f phs) ≡ first_observe phs
unfolding first_observe str_eq
first_observe-other_apply f [] = refl
first_observe-other_apply f (ph ∷ phs) = elim (Bool-cases (str_eq ph.name (str "apply"))) [
  | inl is ↦ rw (apply-ne ph.name (str "observe") refl is, first_observe-other_apply f phs)
  | inr not_ ↦ rw (not_, first_observe-other_apply f phs)
]

module _ {W : Type 0} (sv : Services W)
    (call_def : Def → Map Str → Map Str → List Str → Config → W → DefOut W) (cfg : Config)
    (f : Stmts → Stmts) where
  abbrev changed : Phase → Phase
  changed ph = record ph { stmts = if str_eq ph.name (str "apply") then f ph.stmts else ph.stmts }

  decide_phase-other_apply :
      (soften : Result → Result) (desired : Map Str) (ph : Phase) (rest : M W (Option Result))
      → decide_phase sv call_def cfg soften desired (changed ph) rest
        ≡ decide_phase sv call_def cfg soften desired ph rest
  unfolding decide_phase str_eq
  decide_phase-other_apply soften desired ph rest =
      elim (Bool-cases (str_eq ph.name (str "apply"))) [
        | inl is ↦
            rw (apply-ne ph.name (str "check") refl is, apply-ne ph.name (str "observe") refl is)
        | inr not_ ↦ rw not_
      ]

  decide-other_apply :
      (soften : Result → Result) (desired : Map Str) (phs : List Phase)
      → decide sv call_def cfg soften desired (other_apply f phs)
        ≡ decide sv call_def cfg soften desired phs
  unfolding decide
  decide-other_apply soften desired [] = refl
  decide-other_apply soften desired (ph ∷ phs) =
      decide_phase-other_apply soften desired ph _
      ∙ ap (decide_phase sv call_def cfg soften desired ph) (decide-other_apply soften desired phs)

  preview_phase-other_apply :
      (ph : Phase) (next : Str → M W Str)
      → preview_phase sv call_def cfg (changed ph) next ≡ preview_phase sv call_def cfg ph next
  unfolding preview_phase str_eq
  preview_phase-other_apply ph next = elim (Bool-cases (str_eq ph.name (str "apply"))) [
    | inl is ↦ fun_ext (λ t. rw (apply-ne ph.name (str "preview") refl is))
    | inr not_ ↦ fun_ext (λ t. rw not_)
  ]

  previews-other_apply :
      (phs : List Phase)
      → previews sv call_def cfg (other_apply f phs) ≡ previews sv call_def cfg phs
  unfolding previews
  previews-other_apply [] = refl
  previews-other_apply (ph ∷ phs) =
      preview_phase-other_apply ph _
      ∙ ap (preview_phase sv call_def cfg ph) (previews-other_apply phs)

  run_phase-other_apply :
      (ph : Phase) (rest : M W (Option Outcome))
      → run_phase sv call_def cfg is_check (changed ph) rest
        ≡ run_phase sv call_def cfg is_check ph rest
  unfolding run_phase str_eq
  run_phase-other_apply ph rest = elim (Bool-cases (str_eq ph.name (str "apply"))) [
    | inl is ↦ rw (apply-ne ph.name (str "check") refl is)
    | inr not_ ↦ rw not_
  ]

  checks-other_apply :
      (phs : List Phase)
      → run_phases sv call_def cfg is_check (other_apply f phs)
        ≡ run_phases sv call_def cfg is_check phs
  unfolding run_phases
  checks-other_apply [] = refl
  checks-other_apply (ph ∷ phs) =
      run_phase-other_apply ph _
      ∙ ap (run_phase sv call_def cfg is_check ph) (checks-other_apply phs)

  announce-other_apply :
      (d : Def) (tag : Str)
      → announce sv call_def cfg (with_apply f d) tag ≡ announce sv call_def cfg d tag
  unfolding announce
  announce-other_apply d tag = rw (previews-other_apply d.phases)

  check-other_apply :
      (d : Def) (desired : Map Str)
      → inert_apply d ≡ none
      → inert_apply (with_apply f d) ≡ none
      → run_modes sv call_def cfg (with_apply f d) desired check_mode
        ≡ run_modes sv call_def cfg d desired check_mode
  unfolding run_modes run_check announced
  check-other_apply d desired h h' = rw (
    question_in_check-other_apply f d cfg.mode,
    decide-other_apply (question_in_check d cfg.mode) desired d.phases,
    h,
    h',
    announce-other_apply d (ret_tag d.ret),
  )

  status_result-other_apply :
      (d : Def) (desired : Map Str)
      → status_result sv call_def cfg (with_apply f d) desired
        ≡ status_result sv call_def cfg d desired
  unfolding status_result
  status_result-other_apply d desired = rw (status_result, first_observe-other_apply f d.phases)

  status-other_apply :
      (d : Def) (desired : Map Str)
      → run_modes sv call_def cfg (with_apply f d) desired status_mode
        ≡ run_modes sv call_def cfg d desired status_mode
  unfolding run_modes run_status
  status-other_apply d desired =
      rw (checks-other_apply d.phases, status_result-other_apply d desired)

  -- The modes in which nothing is to be changed; an apply that check mode may evaluate is left
  -- out, since its primitives answer for themselves there.
  abbrev pub OnlyLooks : Mode → Def → Type 0
  OnlyLooks apply_mode d = ⊥
  OnlyLooks status_mode d = Unit
  OnlyLooks check_mode d = (inert_apply d ≡ none) × (inert_apply (with_apply f d) ≡ none)

  modes-other_apply :
      (m : Mode) (d : Def) (desired : Map Str)
      → OnlyLooks m d
      → run_modes sv call_def cfg (with_apply f d) desired m ≡ run_modes sv call_def cfg d desired m
  modes-other_apply apply_mode d desired h = elim h [ ]
  modes-other_apply status_mode d desired h = status-other_apply d desired
  modes-other_apply check_mode d desired (h, h') = check-other_apply d desired h h'

  in_mode-other_apply :
      (o : Option Call) (d : Def) (desired : Map Str)
      → o ≡ none
      → OnlyLooks cfg.mode d
      → in_mode sv call_def cfg (with_apply f d) desired o ≡ in_mode sv call_def cfg d desired o
  in_mode-other_apply none d desired alone h = modes-other_apply cfg.mode d desired h
  in_mode-other_apply (some c) d desired alone h = cc

  pub run_body-other_apply :
      (d : Def) (with_ : Map Str)
      → d.delegate ≡ none
      → OnlyLooks cfg.mode d
      → run_body sv call_def cfg (with_apply f d) with_ ≡ run_body sv call_def cfg d with_
  unfolding run_body body
  run_body-other_apply d with_ alone h =
      ap (λ k. bind_params sv call_def cfg d.params with_ >>= k)
        (fun_ext (λ e. in_mode-other_apply d.delegate d (desired_state d.params e.vars) alone h))

-- In status, and in check mode unless the apply is one that check mode evaluates, a def that does
-- not delegate answers the same whatever its apply says, and leaves the machines in the same
-- state: with any other body in each `apply` phase the evaluation is equal.
pub eval_def-other_apply :
    {W : Type 0} (sv : Services W) (f : Stmts → Stmts) (fuel : ℕ) (d : Def) (args with_ : Map Str)
    (ctl : List Str) (cfg : Config) (w : W)
    → d.delegate ≡ none
    → OnlyLooks sv (eval_def sv fuel) (inner sv d cfg) f cfg.mode d
    → eval_def sv (suc fuel) (with_apply f d) args with_ ctl cfg w
      ≡ eval_def sv (suc fuel) d args with_ ctl cfg w
unfolding eval_def
eval_def-other_apply sv f fuel d args with_ ctl cfg w alone h =
    ap
      (λ m. leave (
        m (record {
          vars = mark_control ctl (text_vars args);
          last = nil;
          ran = [];
          acted = false;
          world = w;
        })))
      (run_body-other_apply sv (eval_def sv fuel) (inner sv d cfg) f d with_ alone h)
