-- ===== src/Lang/Monad.antt =====
-- The state of an evaluator (`evaluator` in internal/lang/eval.go) and the computations on it.
-- Go's panics `evalErr` and `calleeErr` are results here that keep the state they were raised in:
-- what ran before a panic has run.
use shellf.Prelude.{◌≡◌, refl, Bool, List, Map, if◌then◌else◌}
use shellf.Engine.{ShellResult, Result}
use shellf.Lang.Value.{Value, EvalError}

-- The fields that an evaluation changes; `world` is the machines'.
pub record Ev (W : Type 0) : Type 0 where
  pub vars : Map Value
  pub last : Value
  pub ran : List ShellResult
  pub acted : Bool
  pub world : W

pub data Out (W A : Type 0) : Type 0 where
  done : A → Ev W → Out W A
  failed : EvalError → Ev W → Out W A
  stopped : Result → Ev W → Out W A
  out_of_fuel : Out W A

abbrev pub M : Type 0 → Type 0 → Type 0
M W A = Ev W → Out W A

module _ {W : Type 0} where
  infixl 5 ◌>>=◌ ◌>>◌
  abbrev pub ◌>>=◌ : {A B : Type 0} → M W A → (A → M W B) → M W B
  ◌>>=◌ m f e = elim (m e) [
    | done a e' ↦ f a e'
    | failed err e' ↦ failed err e'
    | stopped r e' ↦ stopped r e'
    | out_of_fuel ↦ out_of_fuel
  ]

  abbrev pub ◌>>◌ : {A B : Type 0} → M W A → M W B → M W B
  m >> k = m >>= λ _. k

  abbrev pub pure : {A : Type 0} → A → M W A
  pure a e = done a e

  abbrev pub fail : {A : Type 0} → EvalError → M W A
  fail err e = failed err e

  abbrev pub get : M W (Ev W)
  get e = done e e

  abbrev pub put : Ev W → M W (Unit {0})
  put e' e = done tt e'

  -- `if test { ev.fail(err) }`
  abbrev pub refuse_if : Bool → EvalError → M W (Unit {0})
  refuse_if test err e = if test then failed err e else done tt e

  -- A step of the machines, which changes nothing else of the evaluator.
  abbrev pub on_world : {A : Type 0} → (W → A × W) → M W A
  on_world f e = let (a, w) = f e.world in done a (record e { world = w })

  -- A computation that ended well went through each of its parts.
  pub >>=-eq-done :
      {A B : Type 0} (m : M W A) (f : A → M W B) {b : B} {e e' : Ev W}
      → (m >>= f) e ≡ done b e'
      → (a : A) × (e₁ : Ev W) × (m e ≡ done a e₁) × (f a e₁ ≡ done b e')
  >>=-eq-done {A} {B} m f {b} {e} {e'} h = from (m e) refl h
    where
      from :
          (o : Out W A)
          → m e ≡ o
          → elim o [
            | done a e₁ ↦ f a e₁
            | failed err e₁ ↦ failed err e₁
            | stopped r e₁ ↦ stopped r e₁
            | out_of_fuel ↦ out_of_fuel
          ]
            ≡ done b e'
          → (a : A) × (e₁ : Ev W) × (m e ≡ done a e₁) × (f a e₁ ≡ done b e')
      from (done a e₁) p q = (a, e₁, p, q)
      from (failed err e₁) p q = cc
      from (stopped r e₁) p q = cc
      from out_of_fuel p q = cc

pub done_injective :
    {W A : Type 0} {a b : A} {e e' : Ev W}
    → ◌≡◌ {A = Out W A} (done a e) (done b e')
    → (a ≡ b) × (e ≡ e')
done_injective h = (cc, cc)
